-- ===== src/Frames/Finds.antt =====
-- The requests that the look-ups of src/core/events.mjs find stand in the ledger.
use mathlib.Core.List.{Memᴰ}
use universal_peer_mcp.Prelude.{
  ◌≡◌, refl, sym, ◌∙◌, subst, ap, and-eq-true, Bool, true, ◌&&◌, inl, inr, Option, none, some, List,
  [], ◌∷◌, Text, lower, arith, filter, find?, All, All-members, Outcome, ok, Bool-cases,
  if◌then◌else◌, same_text,
}
use universal_peer_mcp.Limits.{same_uuid, reference_matches}
use universal_peer_mcp.Ledger.{Row, is_type}
use universal_peer_mcp.Ledger.Requests.{
  is_for, head?, request, Lookup, ambiguous, missing, unique, Found, put, collect, answer,
  is_recovery_of, request_by_reference, request_by_transport, request_by_subscription,
}

abbrev pub IsRequest : List Row → Row → Type 0
IsRequest events r = Memᴰ r events × (is_type "send_requested" r ≡ true)

some_inj {ℓ} : {A : Type ℓ} (a b : A) → some a ≡ some b → a ≡ b
some_inj a b h = ap (λ o. elim o [ none ↦ a | some x ↦ x ]) h

find?-Memᴰ :
    (p : Row → Bool) (rows : List Row) (r : Row)
    → find? p rows ≡ some r
    → Memᴰ r rows × (p r ≡ true)
find?-Memᴰ p [] r h = absurd (ground arith)
find?-Memᴰ p (x ∷ rows) r h = elim (Bool-cases (p x)) [
  | inl good ↦
      let e : x ≡ r = some_inj x r (ground (arith, good, h)) in
      (Memᴰ.head (sym e), subst (λ y. p y ≡ true) e good)
  | inr bad ↦
      let k : find? p rows ≡ some r = ground (arith, bad, h) in
      let (m, q) = find?-Memᴰ p rows r k in (Memᴰ.tail m, q)
]

head-filter : (p : Row → Bool) (rows : List Row) → head? (filter p rows) ≡ find? p rows
head-filter p [] = refl
head-filter p (x ∷ rows) = ground (arith, head-filter p rows)

-- Which rows the exact look-up takes.
pub request-IsRequest :
    (events : List Row) (id : Option Text) (r : Row)
    → request events id ≡ ok (some r)
    → IsRequest events r × (same_uuid r.message_id id ≡ true)
unfolding request
request-IsRequest events id r h =
    let found : head? (filter (is_for "send_requested" id) events) ≡ some r = ground (arith, h) in
    let m =
      find?-Memᴰ (is_for "send_requested" id) events r
        (sym (head-filter (is_for "send_requested" id) events) ∙ found) in
    let both = and-eq-true (is_type "send_requested" r) (same_uuid r.message_id id) m.1 in
    ((m.0, both.0), both.1)

pub request_by_transport-IsRequest :
    (events : List Row) (id : Option Text) (r : Row)
    → request_by_transport events id ≡ ok (some r)
    → IsRequest events r
unfolding request_by_transport
request_by_transport-IsRequest events id r =
    go (find? (is_recovery_of (λ x. x.transport_message_id) id) events)
  where
    go :
        (o : Option Row)
        → elim o as (λ q. Outcome (Option Row)) [
          | some recovery ↦ request events recovery.message_id
          | none ↦ request events id
        ]
          ≡ ok (some r)
        → IsRequest events r
    go none h = (request-IsRequest events id r h).0
    go (some recovery) h = (request-IsRequest events recovery.message_id r h).0

pub request_by_subscription-IsRequest :
    (events : List Row) (id : Option Text) (r : Row)
    → request_by_subscription events id ≡ ok (some r)
    → IsRequest events r
unfolding request_by_subscription
request_by_subscription-IsRequest events id r =
    go (find? (is_recovery_of (λ x. x.subscription_id) id) events)
      (find? (λ x. is_type "send_requested" x && same_uuid x.subscription_id id) events)
  where
    first :
        (o : Option Row)
        → elim o as (λ q. Outcome (Option Row)) [
          | some initial ↦ request events initial.message_id
          | none ↦ ok none
        ]
          ≡ ok (some r)
        → IsRequest events r
    first none h = absurd (ground arith)
    first (some initial) h = (request-IsRequest events initial.message_id r h).0

    go :
        (o i : Option Row)
        → elim o as (λ q. Outcome (Option Row)) [
          | some recovery ↦ request events recovery.message_id
          | none ↦ elim i as (λ q. Outcome (Option Row)) [
            | some initial ↦ request events initial.message_id
            | none ↦ ok none
          ]
        ]
          ≡ ok (some r)
        → IsRequest events r
    go none i h = first i h
    go (some recovery) i h = (request-IsRequest events recovery.message_id r h).0

-- The map of the look-up by reference holds rows of requests only.
module _ (events : List Row) where
  abbrev AllRequests : Found → Type 0
  AllRequests found = All (λ f. IsRequest events f.1) found

  put-AllRequests :
      (id : Text) (row : Row) (found : Found)
      → IsRequest events row
      → AllRequests found
      → AllRequests (put id row found)
  unfolding put
  put-AllRequests id row [] h k = (h, tt)
  put-AllRequests id row ((key, r) ∷ rest) h (k, ks) = elim (Bool-cases (same_text key id)) [
    | inl same ↦ rw same (h, ks)
    | inr other ↦ rw other (k, put-AllRequests id row rest h ks)
  ]

  collect-AllRequests :
      (reference : Option Text) (rows : List Row) (found : Found)
      → All (λ row. Memᴰ row events) rows
      → AllRequests found
      → AllRequests (collect reference rows found)
  unfolding collect
  collect-AllRequests reference [] found m h = h
  collect-AllRequests reference (row ∷ rows) found (here, m) h =
      collect-AllRequests reference rows _ m (go row.message_id)
    where
      go :
          (o : Option Text)
          → AllRequests (elim o as (λ q. Found) [
            | none ↦ found
            | some id ↦
                if is_type "send_requested" row && reference_matches (some id) reference
                then put (lower id) row found
                else found
          ])
      go none = h
      go (some id) =
          elim (Bool-cases
            (is_type "send_requested" row && reference_matches (some id) reference)) [
              | inr other ↦ rw other h
              | inl good ↦ rw good (
                  put-AllRequests (lower id) row found
                    (here, (and-eq-true (is_type "send_requested" row) _ good).0) h)
            ]

  abbrev FoundRequest : Lookup → Type 0
  FoundRequest ambiguous = Unit
  FoundRequest missing = Unit
  FoundRequest (unique r) = IsRequest events r

  answer-FoundRequest : (found : Found) → AllRequests found → FoundRequest (answer found)
  answer-FoundRequest [] h = tt
  answer-FoundRequest ((id, row) ∷ []) (h, _) = h
  answer-FoundRequest (a ∷ (b ∷ rest)) h = tt

pub request_by_reference-IsRequest :
    (events : List Row) (reference : Option Text) (r : Row)
    → request_by_reference events reference ≡ unique r
    → IsRequest events r
unfolding request_by_reference
request_by_reference-IsRequest events reference r h = subst (FoundRequest events) h (
    answer-FoundRequest events (collect reference events [])
      (collect-AllRequests events reference events [] (All-members events) tt))
