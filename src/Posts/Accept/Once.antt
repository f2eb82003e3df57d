-- ===== src/Posts/Accept/Once.antt =====
-- A message id is accepted once (`acceptPost` of src/core/posts.mjs).
use universal_peer_mcp.Prelude.{
  ℕ, ◌≤◌, ◌≡◌, sym, ap, subst, false, Option, none, some, List, String, Text, arith, any, count,
  any-eq-false_of_find?, str_eq, inl, inr,
}
use universal_peer_mcp.Ledger.{Row, Fields, Store}
use universal_peer_mcp.Ledger.Requests.{is_for}
use universal_peer_mcp.Ledger.Reserve.{append_checked_once}
use universal_peer_mcp.Spool.Laws.{spool_fields-message_id}
use universal_peer_mcp.Posts.{World, Post, append_in, accept_post, post_fields, post_race}
use universal_peer_mcp.Posts.Accept.Steps.{IsMark, accept_post_inv}
use universal_peer_mcp.Posts.Accept.{append_other}

-- At most one accepted row for each id, in whatever spelling.
abbrev pub PostsOnce : Store → Type 0
PostsOnce s = (id : Option Text) → count (is_for "peer_post" id) s.events ≤ 1

module _ (w : World) (fair : (k : ℕ) (s : Store) → PostsOnce s → PostsOnce (w.others k s)) where
  append_in_once :
      (k : ℕ) (kind : String) (fields : Fields) (s : Store)
      → str_eq kind "peer_post" ≡ false
      → PostsOnce s
      → PostsOnce (append_in w k kind fields s).1
  append_in_once k kind fields s other h id =
      append_other w.line_bytes (w.moment k) "peer_post" kind fields (w.others k s) id other
        (fair k s h id)

post_race-none :
    (id : Text) (events : List Row)
    → post_race id events ≡ none
    → any (is_for "peer_post" (some id)) events ≡ false
post_race-none id events h =
    any-eq-false_of_find? (is_for "peer_post" (some id)) events (ground arith)

pub post_fields-message_id : (w : World) (p : Post) → (post_fields w p).message_id ≡ some p.id
post_fields-message_id w p =
    spool_fields-message_id w.sha256 w.protocol_header w.spool_name p.body _

-- If the other operations keep to one accepted row for each id, so does `acceptPost`, on every
-- branch: for a new id, a repeated one, a race that it wins or loses, and every error.
pub accept_post_once :
    (w : World) (p : Post) (s : Store)
    → ((k : ℕ) (t : Store) → PostsOnce t → PostsOnce (w.others k t))
    → PostsOnce s
    → PostsOnce (accept_post w p s).1
accept_post_once w p s fair h =
    accept_post_inv w PostsOnce fair
      (λ k kind fields t mark once. append_in_once w fair k kind fields t (no_post kind mark) once)
      p s
      (λ t once id.
        append_checked_once w.line_bytes (w.moment 1) "peer_post" "peer_post" (post_fields w p)
          (post_race p.id) (w.others 1 t) id
          (λ free.
            subst (λ m. any (is_for "peer_post" m) (w.others 1 t).events ≡ false)
              (sym (post_fields-message_id w p)) (post_race-none p.id (w.others 1 t).events free))
          (fair 1 t once id))
      h
  where
    no_post : (kind : String) → IsMark kind → str_eq kind "peer_post" ≡ false
    no_post kind (inl e) = ap (λ k. str_eq k "peer_post") e
    no_post kind (inr (inl e)) = ap (λ k. str_eq k "peer_post") e
    no_post kind (inr (inr e)) = ap (λ k. str_eq k "peer_post") e
