-- ===== src/Ledger/Requests.antt =====
-- The requests of the ledger and the ways to find one (src/core/events.mjs): reservation, exact
-- lookup, lookup by reference, by transport and by subscription, and `list`.
use universal_peer_mcp.Prelude.{
  ℕ, Bool, true, false, ◌&&◌, Option, none, some, List, [], ◌∷◌, String, Text, ltb, same_text,
  lower, if◌then◌else◌, length, find?, filter, Outcome, ok, err, refuse, ◌>>=◌,
}
use universal_peer_mcp.Limits.{same_uuid, reference_matches}
use universal_peer_mcp.Ledger.{Row, Fields, is_type, Store, Moment, append}

-- A row of one type for one message id.
abbrev pub is_for : String → Option Text → Row → Bool
is_for type id row = is_type type row && same_uuid row.message_id id

abbrev pub head? : List Row → Option Row
head? [] = none
head? (r ∷ rs) = some r

-- `request`: two rows of one id, which older builds could write, are refused.
unfoldable pub request : List Row → Option Text → Outcome (Option Row)
request events id =
    let matches = filter (is_for "send_requested" id) events in
    if ltb 1 (length matches) then refuse "MESSAGE_ID_CONFLICT" else ok (head? matches)

-- `{ created, event }`
pub record Reservation : Type 0 where
  pub created : Bool
  pub event : Row

abbrev pub reserved : Outcome Row × Store → Outcome Reservation × Store
reserved (ok event, s) = (ok (record { created = true; event = event }), s)
reserved (err code, s) = (err code, s)

module _ (line_bytes : Row → ℕ) where
  -- `reserveRequest`
  unfoldable pub reserve_request : Moment → Fields → Store → Outcome Reservation × Store
  unfolding request
  reserve_request m fields s = elim s.poisoned [
    | some code ↦ (err code, s)
    | none ↦ elim (request s.events fields.message_id) [
      | err code ↦ (err code, s)
      | ok (some prior) ↦ (ok (record { created = false; event = prior }), s)
      | ok none ↦ reserved (append line_bytes m "send_requested" fields s)
    ]
  ]

  -- `reserveRecovery`
  unfoldable pub reserve_recovery : Moment → Fields → Store → Outcome Reservation × Store
  reserve_recovery m fields s = elim s.poisoned [
    | some code ↦ (err code, s)
    | none ↦ elim (find? (is_for "send_recovery_reserved" fields.message_id) s.events) [
      | some prior ↦ (ok (record { created = false; event = prior }), s)
      | none ↦ reserved (append line_bytes m "send_recovery_reserved" fields s)
    ]
  ]

-- `list`: `none` stands for an `afterSeq` that is not a non-negative integer. A message id is first
-- looked up, so that an ambiguous one is refused here too.
unfoldable pub list : List Row → Option ℕ → Option Text → Outcome (List Row)
unfolding request
list events none id = err none
list events (some after) none = ok (filter (λ row. ltb after row.seq) events)
list events (some after) (some id) = request events (some id) >>= λ _.
    ok (filter (λ row. ltb after row.seq && same_uuid row.message_id (some id)) events)

-- The map of `requestByReference`, from canonical ids to rows: a later row replaces an earlier.
abbrev pub Found : Type 0
Found = List (Text × Row)

unfoldable pub put : Text → Row → Found → Found
put id row [] = (id, row) ∷ []
put id row ((k, r) ∷ rest) = if same_text k id then (k, row) ∷ rest else (k, r) ∷ put id row rest

unfoldable pub collect : Option Text → List Row → Found → Found
collect reference [] found = found
collect reference (row ∷ rows) found = collect reference rows (elim row.message_id [
  | none ↦ found
  | some id ↦
      if is_type "send_requested" row && reference_matches (some id) reference
      then put (lower id) row found
      else found
])

-- `{ request, ambiguous }`
pub data Lookup : Type 0 where
  ambiguous missing : Lookup
  unique : Row → Lookup

abbrev pub answer : Found → Lookup
answer [] = missing
answer ((id, row) ∷ []) = unique row
answer (a ∷ (b ∷ rest)) = ambiguous

unfoldable pub request_by_reference : List Row → Option Text → Lookup
unfolding collect put
request_by_reference events reference = answer (collect reference events [])

abbrev pub is_recovery_of : (Row → Option Text) → Option Text → Row → Bool
is_recovery_of field id row = is_type "send_recovery_reserved" row && same_uuid (field row) id

unfoldable pub request_by_transport : List Row → Option Text → Outcome (Option Row)
unfolding request
request_by_transport events id =
    elim (find? (is_recovery_of (λ r. r.transport_message_id) id) events) [
      | some recovery ↦ request events recovery.message_id
      | none ↦ request events id
    ]

unfoldable pub request_by_subscription : List Row → Option Text → Outcome (Option Row)
unfolding request
request_by_subscription events id =
    elim (find? (is_recovery_of (λ r. r.subscription_id) id) events) [
      | some recovery ↦ request events recovery.message_id
      | none ↦
          elim (find? (λ r. is_type "send_requested" r && same_uuid r.subscription_id id) events) [
            | some initial ↦ request events initial.message_id
            | none ↦ ok none
          ]
    ]
