-- ===== src/Posts/Acks/Relinks.antt =====
-- Moving a held post and linking an unmatched frame by hand (`relinkPost` and `linkUnmatched` of
-- src/core/posts.mjs).
use universal_peer_mcp.Prelude.{
  ℕ, ◌≤◌, ◌≡◌, refl, sym, ap, subst, ◌∙◌, Bool, true, false, Option, none, some, List, String, Text,
  arith, any, count, find?, same_text_refl, Outcome, ok, err, Outcome-cases, ◌==◌, Option-cases,
  inl, inr,
}
use universal_peer_mcp.Limits.{is_uuid}
use universal_peer_mcp.Limits.Laws.{is_uuid-lower}
use universal_peer_mcp.Ledger.{Row, Fields, Store}
use universal_peer_mcp.Ledger.Requests.{request}
use universal_peer_mcp.Ledger.Sequence.{
  append_checked-Appended, append_checked-conflict, count-append_checked,
}
use universal_peer_mcp.Posts.{World, append_checked_in, first_post}
use universal_peer_mcp.Posts.Inbox.{Identity, claude, codex, post_binding, row_binding, binds}
use universal_peer_mcp.Posts.Inbox.Growth.{post_binding-last}
use universal_peer_mcp.Posts.Acks.{
  identity_key, inner, same_key, relink_check, relink_fields, relinked, relink_post, LinkKind,
  link_type, is_linked_from, link_check, link_fields, linked, link_unmatched,
}

relinked-ok :
    (to' : Option String) (r : Outcome Row × Store) (seq : ℕ) (to : Option String) (t : Store)
    → relinked to' r ≡ (ok (seq, to), t)
    → (row : Row) × (r ≡ (ok row, t)) × (to' ≡ to)
relinked-ok to' (ok row, s) seq to t h = (row, ground arith, ground arith)
relinked-ok to' (err code, s) seq to t h = absurd (cc)

-- A successful move has written its row after the check passed.
relink_post-written :
    (w : World) (id : Text) (identity : Identity) (s t : Store) (seq : ℕ) (to : Option String)
    → relink_post w id identity s ≡ (ok (seq, to), t)
    → (is_uuid id ≡ true)
      × ((row : Row) × (append_checked_in w 0 "peer_post_relinked"
              (relink_fields id identity to s.events)
              (relink_check id identity)
              s
            ≡ (ok row, t)))
unfolding relink_post
relink_post-written w id identity s t seq to h = elim (Option-cases (first_post s.events id)) [
  | inl missing ↦ absurd (ground arith)
  | inr (post, found) ↦
      let write = λ (to' : Option String).
        append_checked_in w 0 "peer_post_relinked" (relink_fields id identity to' s.events)
          (relink_check id identity) s in
      let moved : relinked post.recipient (write post.recipient) ≡ (ok (seq, to), t) =
        ground arith in
      let (row, written, same) = relinked-ok post.recipient (write post.recipient) seq to t moved in
      (ground arith, (row, subst (λ to'. write to' ≡ (ok row, t)) same written))
]

row_binding-identity :
    (row : Row) (id : Text) (identity : Identity) (to : Option String) (events : List Row)
    → row.fields ≡ relink_fields id identity to events
    → row_binding row ≡ identity_key identity
unfolding row_binding
row_binding-identity row id (claude none) to events e = rw e
row_binding-identity row id (claude (some session)) to events e = rw e
row_binding-identity row id (codex none) to events e = rw e
row_binding-identity row id (codex (some thread)) to events e = rw e

relinked_binds :
    (row : Row) (id : Text) (identity : Identity) (to : Option String) (events : List Row)
    → is_uuid id ≡ true
    → row.type ≡ "peer_post_relinked"
    → row.fields ≡ relink_fields id identity to events
    → binds id row ≡ true
relinked_binds row id (claude session) to events uuid typed e =
    rw (typed, e, is_uuid-lower id uuid, same_text_refl id)
relinked_binds row id (codex thread) to events uuid typed e =
    rw (typed, e, is_uuid-lower id uuid, same_text_refl id)

relink_check-none :
    (id : Text) (identity : Identity) (events : List Row)
    → relink_check id identity events ≡ none
    → same_key (inner (post_binding events id)) (identity_key identity) ≡ false
unfolding relink_check
relink_check-none id identity events h = ground arith

-- A move that succeeds binds the message to the session that it names, which is another than the one
-- that it was bound to when the row was written.
pub relink_post-binding :
    (w : World) (id : Text) (identity : Identity) (s t : Store) (seq : ℕ) (to : Option String)
    → relink_post w id identity s ≡ (ok (seq, to), t)
    → (post_binding t.events id ≡ some (identity_key identity))
      × (same_key (inner (post_binding (w.others 0 s).events id)) (identity_key identity) ≡ false)
relink_post-binding w id identity s t seq to h =
    let (uuid, rest) = relink_post-written w id identity s t seq to h in
    let (row, written) = rest in
    let fields = relink_fields id identity to s.events in
    let (_, _, typed, data', _, grown, _) =
      append_checked-Appended w.line_bytes (w.moment 0) "peer_post_relinked" fields
        (relink_check id identity) (w.others 0 s) (ok row, t) written in
    let passed =
      append_checked-conflict w.line_bytes (w.moment 0) "peer_post_relinked" fields
        (relink_check id identity) (w.others 0 s) row t written in
    (
      ap (λ rows. post_binding rows id) grown
          ∙ post_binding-last (w.others 0 s).events row id
              (relinked_binds row id identity to s.events uuid typed data')
          ∙ ap some (row_binding-identity row id identity to s.events data'),
      relink_check-none id identity (w.others 0 s).events passed,
    )

linked-store : (r : Outcome Row × Store) → (linked r).1 ≡ r.1
linked-store (ok row, s) = refl
linked-store (err code, s) = refl

link_check-free :
    (n seq : ℕ) (kind : LinkKind) (id : Option Text) (verdict : Option String) (source req : Row)
    (events : List Row) (row : Row)
    → row.fields ≡ link_fields seq verdict source req
    → is_linked_from n row ≡ true
    → link_check seq kind id events ≡ none
    → any (is_linked_from n) events ≡ false
unfolding link_check
link_check-free n seq kind id verdict source req events row e hit free =
    let same : n ≡ seq = linked_seq (
      subst
        (λ (f : Fields).
          elim f.linked_from_seq as (λ x. Bool) [ none ↦ false | some m ↦ m == n ] ≡ true)
        e hit) in
    subst (λ k. any (is_linked_from k) events ≡ false) (sym same) (ground arith)
  where
    linked_seq : (seq == n) ≡ true → n ≡ seq
    linked_seq h = ground arith

-- One unmatched frame is linked by hand at most once, if the other operations keep to that.
pub link_unmatched_once :
    (w : World) (seq : ℕ) (id : Text) (kind : LinkKind) (verdict : Option String) (s : Store)
    (n : ℕ)
    → count (is_linked_from n) s.events ≤ 1
    → count (is_linked_from n) (w.others 0 s).events ≤ 1
    → count (is_linked_from n) (link_unmatched w seq id kind verdict s).1.events ≤ 1
unfolding link_unmatched
link_unmatched_once w seq id kind verdict s n h k =
    elim (Option-cases (find? (λ e. e.seq == seq) s.events)) [
      | inl missing ↦ ground arith
      | inr (source, found) ↦ elim (Outcome-cases (request s.events (some id))) [
        | inr (code, failed) ↦ ground arith
        | inl (none, absent) ↦ ground arith
        | inl (some req, asked) ↦
            let fields = link_fields seq verdict source req in
            ground (
              arith,
              linked-store (
                  append_checked_in w 0 (link_type kind) fields (link_check seq kind req.message_id)
                    s),
              count-append_checked w.line_bytes (w.moment 0) (link_type kind) fields
                  (link_check seq kind req.message_id) (w.others 0 s) (is_linked_from n)
                  (λ row typed data' hit free.
                    link_check-free n seq kind req.message_id verdict source req
                      (w.others 0 s).events row data' hit free),
            )
      ]
    ]
