-- ===== src/Posts/Accept/Repeats.antt =====
-- A repeated id delivers nothing (`acceptPost` of src/core/posts.mjs).
use universal_peer_mcp.Prelude.{
  ℕ, ◌≡◌, refl, sym, ap, subst, ◌∙◌, true, false, ◌||◌, Option, some, List, String, Text, Outcome,
  ok, err, str_eq, inl, inr, Bool-cases, if◌then◌else◌,
}
use universal_peer_mcp.Limits.{is_uuid, is_alias}
use universal_peer_mcp.Ledger.{Row, Fields, Store}
use universal_peer_mcp.Ledger.Sequence.{Appended, append-Appended}
use universal_peer_mcp.Posts.{
  World, Post, Accepted, duplicate, conflict, answered, append_in, first_post, outcome_for,
  accept_post, has_sha, body_digest, repeat_fields, conflict_fields,
}
use universal_peer_mcp.Posts.Inbox.{inbox}
use universal_peer_mcp.Posts.Inbox.Growth.{inbox-append_plain}

-- No inbox of the ledger `xs` differs from that of `ys`.
abbrev pub SameInboxes : List Row → List Row → Type 0
SameInboxes xs ys =
    (recipient : String) (after_seq : ℕ) (lineage : Option (List Text))
    → inbox xs recipient after_seq lineage ≡ inbox ys recipient after_seq lineage

-- What a call with a known id has done to the ledger `events` that it wrote to.
abbrev pub Repeated : World → Post → Row → List Row → Outcome Accepted × Store → Type 0
Repeated w p prior events (ok a, t) =
    (n : ℕ) × (a ≡ (
      if has_sha (body_digest w p.body).sha prior
      then duplicate prior.seq n
      else conflict prior.seq n))
    × SameInboxes t.events events
Repeated w p prior events (err code, t) = t.events ≡ events

append-SameInboxes :
    (line_bytes : Row → ℕ) (w : World) (type : String) (fields : Fields) (s : Store) (row : Row)
    (t : Store)
    → str_eq type "peer_post" ≡ false
    → str_eq type "peer_post_relinked" ≡ false
    → str_eq type "peer_post_processed" ≡ false
    → Appended s type fields (ok row, t)
    → SameInboxes t.events s.events
append-SameInboxes line_bytes w type fields s row t p r q (_, _, typed, _, _, grown, _) recipient
      after_seq lineage =
    ap (λ rows. inbox rows recipient after_seq lineage) grown
    ∙ inbox-append_plain s.events row recipient after_seq lineage
        (ap (λ k. str_eq k "peer_post") typed ∙ p)
        (ap (λ k. str_eq k "peer_post_relinked") typed ∙ r)
        (ap (λ k. str_eq k "peer_post_processed") typed ∙ q)

answered-Repeated :
    (w : World) (p : Post) (prior : Row) (f : ℕ → Accepted) (type : String) (fields : Fields)
    (s : Store) (r : Outcome Row × Store)
    → str_eq type "peer_post" ≡ false
    → str_eq type "peer_post_relinked" ≡ false
    → str_eq type "peer_post_processed" ≡ false
    → ((n : ℕ)
        → f n ≡ (
            if has_sha (body_digest w p.body).sha prior
            then duplicate prior.seq n
            else conflict prior.seq n))
    → Appended s type fields r
    → Repeated w p prior s.events (answered f r)
answered-Repeated w p prior f type fields s (ok row, t) a b c named h =
    (row.seq, named row.seq, append-SameInboxes w.line_bytes w type fields s row t a b c h)
answered-Repeated w p prior f type fields s (err code, t) a b c named h = h.0

outcome_for-same :
    (w : World) (k : ℕ) (p : Post) (prior : Row) (s : Store)
    → has_sha (body_digest w p.body).sha prior ≡ true
    → outcome_for w k p prior s
      ≡ answered
          (duplicate prior.seq)
          (append_in w k "peer_post_duplicate" (repeat_fields w p prior) s)
unfolding outcome_for
outcome_for-same w k p prior s same = rw same

outcome_for-other :
    (w : World) (k : ℕ) (p : Post) (prior : Row) (s : Store)
    → has_sha (body_digest w p.body).sha prior ≡ false
    → outcome_for w k p prior s
      ≡ answered
          (conflict prior.seq)
          (append_in w k "peer_post_conflict" (conflict_fields w p prior) s)
unfolding outcome_for
outcome_for-other w k p prior s other = rw other

outcome_for-Repeated :
    (w : World) (k : ℕ) (p : Post) (prior : Row) (s : Store)
    → Repeated w p prior (w.others k s).events (outcome_for w k p prior s)
outcome_for-Repeated w k p prior s = elim (Bool-cases (has_sha (body_digest w p.body).sha prior)) [
  | inl same ↦
      subst (Repeated w p prior (w.others k s).events) (sym (outcome_for-same w k p prior s same)) (
        answered-Repeated w p prior (duplicate prior.seq) "peer_post_duplicate"
          (repeat_fields w p prior) (w.others k s)
          (append_in w k "peer_post_duplicate" (repeat_fields w p prior) s) refl refl refl
          (λ n. rw same)
          (append-Appended w.line_bytes (w.moment k) "peer_post_duplicate" (repeat_fields w p prior)
            (w.others k s) _ refl))
  | inr other ↦
      subst (Repeated w p prior (w.others k s).events) (sym (outcome_for-other w k p prior s other))
        (answered-Repeated w p prior (conflict prior.seq) "peer_post_conflict"
          (conflict_fields w p prior) (w.others k s)
          (append_in w k "peer_post_conflict" (conflict_fields w p prior) s) refl refl refl
          (λ n. rw other)
          (append-Appended w.line_bytes (w.moment k) "peer_post_conflict"
            (conflict_fields w p prior) (w.others k s) _ refl))
]

-- A post whose id the ledger knows is answered `duplicate` if its digest is that of the first post
-- and `conflict` if it is not, both with the number of the first. Either way, and if the row cannot be
-- written, no inbox changes: nothing is delivered a second time.
pub accept_post-Repeated :
    (w : World) (p : Post) (s : Store) (prior : Row)
    → is_uuid p.id ≡ true
    → (str_eq p.to "*" || is_alias p.to) ≡ true
    → first_post s.events p.id ≡ some prior
    → Repeated w p prior (w.others 0 s).events (accept_post w p s)
unfolding accept_post
accept_post-Repeated w p s prior uuid named found =
    rw (uuid, named, found) (outcome_for-Repeated w 0 p prior s)
