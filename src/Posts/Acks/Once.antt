-- ===== src/Posts/Acks/Once.antt =====
-- A message is processed once (`ackInbox` of src/core/posts.mjs), whatever runs in between.
use universal_peer_mcp.Prelude.{
  ℕ, ◌≤◌, ◌≡◌, ◌≢◌, refl, sym, ap, subst, ◌∙◌, true, false, Option, none, some, List, [], ◌∷◌, ◌++◌,
  Text, arith, any, find?, count, find?-append_some, find?-append_none, find?-eq-none, any_of_find?,
  Outcome, ok, err, inl, inr, Option-cases,
}
use universal_peer_mcp.Limits.{is_uuid}
use universal_peer_mcp.Limits.Laws.{same_uuid_refl}
use universal_peer_mcp.Ledger.{Row, Store, append_checked}
use universal_peer_mcp.Ledger.Requests.{is_for}
use universal_peer_mcp.Ledger.Sequence.{append_checked-Appended, append_checked-conflict}
use universal_peer_mcp.Ledger.Reserve.{append_checked_once}
use universal_peer_mcp.Posts.{World, first_post, append_checked_in}
use universal_peer_mcp.Posts.Acks.{Ack, processed_before, processed_fields, ack_result, ack_inbox}

processed_before-none :
    (id : Text) (events : List Row)
    → processed_before id events ≡ none
    → any (is_for "peer_post_processed" (some id)) events ≡ false
processed_before-none id events h = ground arith

ack_result-store : (id : Text) (r : Outcome Row × Store) → (ack_result id r).1 ≡ r.1
unfolding ack_result
ack_result-store id (ok row, s) = refl
ack_result-store id (err none, s) = refl
ack_result-store id (err (some code), s) = ground arith

-- If others keep to one processed row for an id, so does an acknowledgement, of whatever message.
pub ack_inbox_once :
    (w : World) (acked : Text) (s : Store) (id : Option Text)
    → count (is_for "peer_post_processed" id) s.events ≤ 1
    → count (is_for "peer_post_processed" id) (w.others 0 s).events ≤ 1
    → count (is_for "peer_post_processed" id) (ack_inbox w acked s).1.events ≤ 1
unfolding ack_inbox
ack_inbox_once w acked s id h k = ground (
  arith,
  ack_result-store acked (
      append_checked_in w 0 "peer_post_processed" (processed_fields acked) (processed_before acked)
        s),
  append_checked_once w.line_bytes (w.moment 0) "peer_post_processed" "peer_post_processed"
      (processed_fields acked) (processed_before acked) (w.others 0 s) id
      (processed_before-none acked (w.others 0 s).events),
)

-- What a first acknowledgement has done: it was checked against the ledger as others left it, and
-- added one row to that.
pub record FirstAck (w : World) (id : Text) (s : Store) (seq : ℕ) (t : Store) : Type 0 where
  pub row : Row
  pub is_id : is_uuid id ≡ true
  pub known : first_post s.events id ≢ none
  pub seq_of : row.seq ≡ seq
  pub type_of : row.type ≡ "peer_post_processed"
  pub fields_of : row.fields ≡ processed_fields id
  pub new : find? (is_for "peer_post_processed" (some id)) (w.others 0 s).events ≡ none
  pub grown : t.events ≡ (w.others 0 s).events ++ row ∷ []
  pub clean : t.poisoned ≡ none

ack_result-first :
    (id : Text) (r : Outcome Row × Store) (seq : ℕ) (t : Store)
    → ack_result id r ≡ (ok (record { acked_seq = seq; already = false }), t)
    → (row : Row) × (r ≡ (ok row, t)) × (row.seq ≡ seq)
unfolding ack_result
ack_result-first id (ok row, s) seq t h = (row, ground arith, ground arith)
ack_result-first id (err none, s) seq t h = absurd (ground arith)
ack_result-first id (err (some code), s) seq t h =
    elim (Option-cases (find? (is_for "peer_post_processed" (some id)) s.events)) [
      | inl missing ↦ absurd (ground arith)
      | inr (prior, found) ↦ absurd (ground arith)
    ]

ack_inbox-result :
    (w : World) (id : Text) (s : Store) (a : Ack) (t : Store)
    → ack_inbox w id s ≡ (ok a, t)
    → (is_uuid id ≡ true)
      × (first_post s.events id ≢ none)
      × (ack_result id (
            append_checked_in w 0 "peer_post_processed"
              (processed_fields id)
              (processed_before id)
              s)
          ≡ (ok a, t))
unfolding ack_inbox
ack_inbox-result w id s a t h = ground arith

pub ack_inbox-FirstAck :
    (w : World) (id : Text) (s : Store) (seq : ℕ) (t : Store)
    → ack_inbox w id s ≡ (ok (record { acked_seq = seq; already = false }), t)
    → FirstAck w id s seq t
ack_inbox-FirstAck w id s seq t h =
    let (uuid, known, result) = ack_inbox-result w id s _ t h in
    let (row, written, numbered) = ack_result-first id _ seq t result in
    let (_, clean, typed, data', _, grown, _) =
      append_checked-Appended w.line_bytes (w.moment 0) "peer_post_processed" (processed_fields id)
        (processed_before id) (w.others 0 s) (ok row, t) written in
    let checked =
      append_checked-conflict w.line_bytes (w.moment 0) "peer_post_processed" (processed_fields id)
        (processed_before id) (w.others 0 s) row t written in
    record {
      row = row;
      is_id = uuid;
      known = known;
      seq_of = numbered;
      type_of = typed;
      fields_of = data';
      new =
          find?-eq-none (is_for "peer_post_processed" (some id)) (w.others 0 s).events
            (processed_before-none id (w.others 0 s).events checked);
      grown = grown;
      clean = clean;
    }

ack_inbox-found :
    (w : World) (id : Text) (s : Store) (prior : Row)
    → is_uuid id ≡ true
    → first_post s.events id ≢ none
    → (w.others 0 s).poisoned ≡ none
    → find? (is_for "peer_post_processed" (some id)) (w.others 0 s).events ≡ some prior
    → ack_inbox w id s ≡ (ok (record { acked_seq = prior.seq; already = true }), w.others 0 s)
unfolding ack_inbox append_checked
ack_inbox-found w id s prior uuid known clean found =
    ground
      (arith, any_of_find? (is_for "peer_post_processed" (some id)) (w.others 0 s).events prior)

first_post-append :
    (xs ys : List Row) (id : Text) → first_post xs id ≢ none → first_post (xs ++ ys) id ≢ none
first_post-append xs ys id h = elim (Option-cases (first_post xs id)) [
  | inl missing ↦ absurd (h missing)
  | inr (row, found) ↦
      let still : first_post (xs ++ ys) id ≡ some row = find?-append_some _ xs ys row found in
      λ e. cc (sym still ∙ e)
]

FirstAck-found :
    (w : World) (id : Text) (s : Store) (seq : ℕ) (t : Store) (f : FirstAck w id s seq t)
    → find? (is_for "peer_post_processed" (some id)) t.events ≡ some f.row
FirstAck-found w id s seq t f =
    let hit : is_for "peer_post_processed" (some id) f.row ≡ true =
      rw (f.type_of, f.fields_of) (same_uuid_refl id f.is_id) in
    subst (λ rows. find? (is_for "peer_post_processed" (some id)) rows ≡ some f.row) (sym f.grown)
      (find?-append_none _ (w.others 0 s).events (f.row ∷ []) f.new ∙ (rw hit))

-- Once an acknowledgement has written its row, every later one of that id, by any process and after
-- anything that others append, while the store has met no fault, gives the seq of that row, says `already`, and writes nothing.
pub ack_inbox-again :
    (w w' : World) (id : Text) (s : Store) (seq : ℕ) (t : Store) (between later : List Row)
    → (w.others 0 s).events ≡ s.events ++ between
    → ack_inbox w id s ≡ (ok (record { acked_seq = seq; already = false }), t)
    → (w'.others 0 t).events ≡ t.events ++ later
    → (w'.others 0 t).poisoned ≡ none
    → ack_inbox w' id t ≡ (ok (record { acked_seq = seq; already = true }), w'.others 0 t)
ack_inbox-again w w' id s seq t between later before first after clean =
    let f = ack_inbox-FirstAck w id s seq t first in
    let known : first_post t.events id ≢ none =
      subst (λ rows. first_post rows id ≢ none)
        (sym (f.grown ∙ ap (λ rows. rows ++ f.row ∷ []) before))
        (first_post-append (s.events ++ between) (f.row ∷ []) id
          (first_post-append s.events between id f.known)) in
    let found : find? (is_for "peer_post_processed" (some id)) (w'.others 0 t).events ≡ some f.row =
      subst (λ rows. find? (is_for "peer_post_processed" (some id)) rows ≡ some f.row) (sym after)
        (find?-append_some _ t.events later f.row (FirstAck-found w id s seq t f)) in
    subst (λ n. ack_inbox w' id t ≡ (ok (record { acked_seq = n; already = true }), w'.others 0 t))
      f.seq_of (ack_inbox-found w' id t f.row f.is_id known clean found)
