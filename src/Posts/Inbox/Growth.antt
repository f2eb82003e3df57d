-- ===== src/Posts/Inbox/Growth.antt =====
-- How the views of the ledger change when a row is added (`inbox` and `postBindings` of
-- src/core/posts.mjs).
use universal_peer_mcp.Prelude.{
  ℕ, ◌≡◌, refl, ap, fun_ext, ◌∙◌, Bool, true, false, not, ◌&&◌, ◌||◌, Option, none, some, List, [],
  ◌∷◌, ◌++◌, String, Text, arith, any-append, filter, filter-append, filter-and, filter-true,
  append-nil, same_text, ltb, if◌then◌else◌,
}
use universal_peer_mcp.Ledger.{Row, is_type}
use universal_peer_mcp.Posts.Inbox.{
  binds, binding_from, post_binding, row_binding, is_processed, is_readable, is_to, lower_id, inbox,
  has, key_or_empty,
}

binding_from-append :
    (found : Option (Option Text)) (xs ys : List Row) (id : Text)
    → binding_from found (xs ++ ys) id ≡ binding_from (binding_from found xs id) ys id
unfolding binding_from
binding_from-append found [] ys id = refl
binding_from-append found (x ∷ xs) ys id =
    binding_from-append (if binds id x then some (row_binding x) else found) xs ys id

-- A row that binds nothing for an id leaves its binding.
pub post_binding-append :
    (xs : List Row) (row : Row) (id : Text)
    → binds id row ≡ false
    → post_binding (xs ++ row ∷ []) id ≡ post_binding xs id
unfolding post_binding
post_binding-append xs row id h = binding_from-append none xs (row ∷ []) id ∙ (rw h)

binds-other :
    (row : Row) (id : Text)
    → is_type "peer_post" row ≡ false
    → is_type "peer_post_relinked" row ≡ false
    → binds id row ≡ false
binds-other row id p r = rw (p, r)

is_processed-append :
    (xs : List Row) (row : Row) (id : Text)
    → is_processed (xs ++ row ∷ []) id
      ≡ (is_processed xs id || (is_type "peer_post_processed" row && same_text (lower_id row) id))
is_processed-append xs row id =
    any-append (λ e. is_type "peer_post_processed" e && same_text (lower_id e) id) xs (row ∷ [])
    ∙ (ground arith)

is_readable-append :
    (xs : List Row) (row : Row) (lineage : Option (List Text)) (e : Row)
    → is_type "peer_post" row ≡ false
    → is_type "peer_post_relinked" row ≡ false
    → is_readable (xs ++ row ∷ []) lineage e ≡ is_readable xs lineage e
is_readable-append xs row none e p r = refl
is_readable-append xs row (some lineage) e p r =
    ap (λ b. has (key_or_empty b) lineage)
      (post_binding-append xs row (lower_id e) (binds-other row (lower_id e) p r))

-- A row that is no post and rebinds none takes from every inbox the post that it processes, if it
-- processes one, and changes nothing else.
pub inbox-append :
    (xs : List Row) (row : Row) (recipient : String) (after_seq : ℕ) (lineage : Option (List Text))
    → is_type "peer_post" row ≡ false
    → is_type "peer_post_relinked" row ≡ false
    → inbox (xs ++ row ∷ []) recipient after_seq lineage
      ≡ filter
          (λ e. not (is_type "peer_post_processed" row && same_text (lower_id row) (lower_id e)))
          (inbox xs recipient after_seq lineage)
unfolding inbox
inbox-append xs row recipient after_seq lineage p r =
    let old = λ (e : Row).
      is_type "peer_post" e
      && (ltb after_seq e.seq
          && (is_to recipient e
              && (not (is_processed xs (lower_id e)) && is_readable xs lineage e))) in
    let done = λ (e : Row).
      not (is_type "peer_post_processed" row && same_text (lower_id row) (lower_id e)) in
    let new = λ (e : Row).
      is_type "peer_post" e
      && (ltb after_seq e.seq
          && (is_to recipient e
              && (not (is_processed (xs ++ row ∷ []) (lower_id e))
                  && is_readable (xs ++ row ∷ []) lineage e))) in
    let same : new ≡ (λ e. old e && done e) = fun_ext (λ e.
      rw (is_processed-append xs row (lower_id e), is_readable-append xs row lineage e p r)
        (shuffle (is_type "peer_post" e) (ltb after_seq e.seq) (is_to recipient e)
          (is_processed xs (lower_id e)) _ (is_readable xs lineage e))) in
    filter-append new xs (row ∷ [])
    ∙ ap (λ rest. filter new xs ++ rest)
        (let none_new : filter new (row ∷ []) ≡ [] = rw p in none_new)
    ∙ append-nil (filter new xs)
    ∙ ap (λ f. filter f xs) same
    ∙ filter-and old done xs
  where
    shuffle :
        (a b c d e f : Bool)
        → (a && (b && (c && (not (d || e) && f)))) ≡ ((a && (b && (c && (not d && f)))) && not e)
    shuffle a b c d e f = ground arith

-- A row of any other type changes no inbox.
pub inbox-append_plain :
    (xs : List Row) (row : Row) (recipient : String) (after_seq : ℕ) (lineage : Option (List Text))
    → is_type "peer_post" row ≡ false
    → is_type "peer_post_relinked" row ≡ false
    → is_type "peer_post_processed" row ≡ false
    → inbox (xs ++ row ∷ []) recipient after_seq lineage ≡ inbox xs recipient after_seq lineage
inbox-append_plain xs row recipient after_seq lineage p r q =
    let keeps : (λ (e : Row).
      not (is_type "peer_post_processed" row && same_text (lower_id row) (lower_id e)))
        ≡ (λ e. true) =
      fun_ext (λ e. rw q) in
    inbox-append xs row recipient after_seq lineage p r
    ∙ ap (λ f. filter f (inbox xs recipient after_seq lineage)) keeps
    ∙ filter-true (inbox xs recipient after_seq lineage)

-- A row that binds an id decides its binding.
pub post_binding-last :
    (xs : List Row) (row : Row) (id : Text)
    → binds id row ≡ true
    → post_binding (xs ++ row ∷ []) id ≡ some (row_binding row)
unfolding post_binding
post_binding-last xs row id h = binding_from-append none xs (row ∷ []) id ∙ (rw h)
