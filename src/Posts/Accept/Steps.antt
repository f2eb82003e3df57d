-- ===== src/Posts/Accept/Steps.antt =====
-- The stores that `acceptPost` (src/core/posts.mjs) passes through: what its writes and the others keep, it keeps.
use universal_peer_mcp.Prelude.{
  ℕ, ◌≡◌, ◌⊎◌, refl, ◌||◌, none, some, String, filter, Outcome, ok, err, str_eq, inl, inr,
  Bool-cases, Option-cases,
}
use universal_peer_mcp.Limits.{is_uuid, is_alias}
use universal_peer_mcp.Ledger.{Row, Fields, Store}
use universal_peer_mcp.Posts.{
  World, Post, Accepted, answered, append_in, append_checked_in, first_post, has_sha, body_digest,
  link_fields, is_quarantined_copy, outcome_for, after_write, post_fields, post_race, accept_post,
}
use universal_peer_mcp.Posts.Accept.{link_all_inv}

-- The types of the rows that it writes beside the post itself.
abbrev pub IsMark : String → Type 0
IsMark kind =
    (kind ≡ "peer_post_duplicate") ⊎ (kind ≡ "peer_post_conflict") ⊎ (kind ≡ "quarantine_linked")

answered-store : (f : ℕ → Accepted) (r : Outcome Row × Store) → (answered f r).1 ≡ r.1
answered-store f (ok row, s) = refl
answered-store f (err code, s) = refl

module _ {κ} (w : World) (P : Store → Type κ) (fair : (k : ℕ) (s : Store) → P s → P (w.others k s))
    (keep : (k : ℕ) (kind : String) (fields : Fields) (s : Store)
      → IsMark kind
      → P s
      → P (append_in w k kind fields s).1) where
  outcome_for_inv :
      (k : ℕ) (p : Post) (prior : Row) (s : Store) → P s → P (outcome_for w k p prior s).1
  unfolding outcome_for
  outcome_for_inv k p prior s h = elim (Bool-cases (has_sha (body_digest w p.body).sha prior)) [
    | inl same ↦ rw (same, answered-store) (keep k "peer_post_duplicate" _ s (inl refl) h)
    | inr other ↦ rw (other, answered-store) (keep k "peer_post_conflict" _ s (inr (inl refl)) h)
  ]

  after_write_inv : (p : Post) (r : Outcome Row × Store) → P r.1 → P (after_write w p r).1
  unfolding after_write
  after_write_inv p (ok row, s) h =
      link_all_inv w row.seq p.id P
        (λ k q t same.
          keep k "quarantine_linked" (link_fields q.seq row.seq p.id) t (inr (inr refl)) same)
        2 (filter (is_quarantined_copy row) s.events) s h
  after_write_inv p (err none, s) h = fair 2 s h
  after_write_inv p (err (some code), s) h = elim (Bool-cases (str_eq code "POST_RACE")) [
    | inr other ↦ rw other (fair 2 s h)
    | inl race ↦ elim (Option-cases (first_post (w.others 2 s).events p.id)) [
      | inl missing ↦ rw (race, missing) (fair 2 s h)
      | inr (prior, found) ↦
          rw (race, found) (outcome_for_inv 3 p prior (w.others 2 s) (fair 2 s h))
    ]
  ]

  -- A property of stores that the others, the rows beside the post and the post's own row keep.
  pub accept_post_inv :
      (p : Post) (s : Store)
      → ((t : Store)
          → P t
          → P (append_checked_in w 1 "peer_post" (post_fields w p) (post_race p.id) t).1)
      → P s
      → P (accept_post w p s).1
  unfolding accept_post
  accept_post_inv p s post h = elim (Bool-cases (is_uuid p.id)) [
    | inr bad ↦ rw bad h
    | inl uuid ↦ elim (Bool-cases (str_eq p.to "*" || is_alias p.to)) [
      | inr bad ↦ rw (uuid, bad) h
      | inl named ↦ elim (Option-cases (first_post s.events p.id)) [
        | inr (prior, found) ↦ rw (uuid, named, found) (outcome_for_inv 0 p prior s h)
        | inl new ↦ elim (Option-cases w.spool_fault) [
          | inr (code, broken) ↦ rw (uuid, named, new, broken) (fair 0 s h)
          | inl kept ↦
              rw (uuid, named, new, kept)
                (after_write_inv p
                  (append_checked_in w 1 "peer_post" (post_fields w p) (post_race p.id)
                    (w.others 0 s))
                  (post (w.others 0 s) (fair 0 s h)))
        ]
      ]
    ]
  ]
