-- ===== src/Ledger/Reserve.antt =====
-- One reservation for each message id (`reserveRequest` and `reserveRecovery` of src/core/events.mjs).
use universal_peer_mcp.Prelude.{
  ℕ, ◌≤◌, ◌≡◌, refl, sym, ap, subst, fun_ext, true, false, ◌&&◌, Option, none, some, List, [], ◌∷◌,
  ◌++◌, String, Text, arith, length, any, count, filter, filter-append, filter-eq-nil,
  any_of_filter, any-eq-false_of_find?, Outcome, ok, err, inl, inr, Option-cases, if◌then◌else◌,
  ltb, refuse,
}
use universal_peer_mcp.Limits.{same_uuid}
use universal_peer_mcp.Limits.Laws.{same_uuid-congr}
use universal_peer_mcp.Ledger.{Row, Fields, is_type, Store, Moment, append, append_checked}
use universal_peer_mcp.Ledger.Requests.{
  is_for, head?, request, Reservation, reserved, reserve_request, reserve_recovery,
}
use universal_peer_mcp.Ledger.Sequence.{
  Appended, append-Appended, append_checked-Appended, append_checked-conflict, count_once,
}

-- Two spellings of one id name the same rows.
pub is_for-congr :
    (type : String) (a b : Option Text) → same_uuid a b ≡ true → is_for type a ≡ is_for type b
is_for-congr type a b h =
    fun_ext (λ row. ap (λ t. is_type type row && t) (same_uuid-congr a b row.message_id h))

-- If the row of a write is for `id`, and no row was for the id of its data, none was for `id`.
pub is_for-new :
    (type : String) (id : Option Text) (events : List Row) (event : Row) (fields : Fields)
    → event.fields ≡ fields
    → any (is_for type fields.message_id) events ≡ false
    → is_for type id event ≡ true
    → any (is_for type id) events ≡ false
is_for-new type id events event fields e none_yet hit =
    subst (λ p. any p events ≡ false)
      (is_for-congr type fields.message_id id
        (subst (λ (f : Fields). same_uuid f.message_id id ≡ true) e (ground arith)))
      none_yet

-- After a write that follows such a check there is at most one row for each id.
pub append_once :
    (line_bytes : Row → ℕ) (m : Moment) (type : String) (kind : String) (fields : Fields)
    (s : Store) (id : Option Text)
    → any (is_for type fields.message_id) s.events ≡ false
    → count (is_for type id) s.events ≤ 1
    → count (is_for type id) (append line_bytes m kind fields s).1.events ≤ 1
append_once line_bytes m type kind fields s id none_yet h =
    go (append line_bytes m kind fields s) (append-Appended line_bytes m kind fields s _ refl)
  where
    go :
        (r : Outcome Row × Store) → Appended s kind fields r → count (is_for type id) r.1.events ≤ 1
    go (ok event, s') (_, _, _, same, _, grown, _) =
        subst (λ rows. count (is_for type id) rows ≤ 1) (sym grown)
          (count_once (is_for type id) s.events event h
            (is_for-new type id s.events event fields same none_yet))
    go (err code, s') (same, _) = subst (λ rows. count (is_for type id) rows ≤ 1) (sym same) h

-- A write that is checked inside the chain, the same: the check sees what others wrote first.
pub append_checked_once :
    (line_bytes : Row → ℕ) (m : Moment) (type : String) (kind : String) (fields : Fields)
    (test : List Row → Option String) (s : Store) (id : Option Text)
    → (test s.events ≡ none → any (is_for type fields.message_id) s.events ≡ false)
    → count (is_for type id) s.events ≤ 1
    → count (is_for type id) (append_checked line_bytes m kind fields test s).1.events ≤ 1
append_checked_once line_bytes m type kind fields test s id sound h =
    go (append_checked line_bytes m kind fields test s) refl
  where
    go :
        (r : Outcome Row × Store)
        → append_checked line_bytes m kind fields test s ≡ r
        → count (is_for type id) r.1.events ≤ 1
    go (ok event, s') e =
        let (_, _, _, same, _, grown, _) =
          append_checked-Appended line_bytes m kind fields test s (ok event, s') e in
        subst (λ rows. count (is_for type id) rows ≤ 1) (sym grown)
          (count_once (is_for type id) s.events event h (
            is_for-new type id s.events event fields same
              (sound (append_checked-conflict line_bytes m kind fields test s event s' e))))
    go (err code, s') e =
        let (same, _) = append_checked-Appended line_bytes m kind fields test s (err code, s') e in
        subst (λ rows. count (is_for type id) rows ≤ 1) (sym same) h

reserved-store : (r : Outcome Row × Store) → (reserved r).1 ≡ r.1
reserved-store (ok event, s) = refl
reserved-store (err code, s) = refl

request-none :
    (events : List Row) (id : Option Text)
    → request events id ≡ ok none
    → any (is_for "send_requested" id) events ≡ false
unfolding request
request-none events id h =
    any_of_filter (is_for "send_requested" id) events
      (go (filter (is_for "send_requested" id) events) h)
  where
    go :
        (rows : List Row)
        → (if ltb 1 (length rows) then refuse "MESSAGE_ID_CONFLICT" else ok (head? rows)) ≡ ok none
        → rows ≡ []
    go [] e = refl
    go (r ∷ rows) e = ground arith

-- Reservations of sends: at most one row for each message id, whatever its spelling.
pub reserve_request_once :
    (line_bytes : Row → ℕ) (m : Moment) (fields : Fields) (s : Store) (id : Option Text)
    → count (is_for "send_requested" id) s.events ≤ 1
    → count (is_for "send_requested" id) (reserve_request line_bytes m fields s).1.events ≤ 1
unfolding reserve_request
reserve_request_once line_bytes m fields s id h = elim (Option-cases s.poisoned) [
  | inr (code, e) ↦ ground arith
  | inl clean ↦ ground (
    arith,
    request-none s.events fields.message_id,
    reserved-store (append line_bytes m "send_requested" fields s),
    append_once line_bytes m "send_requested" "send_requested" fields s id,
  )
]

-- Reservations of recovery sends: the same.
pub reserve_recovery_once :
    (line_bytes : Row → ℕ) (m : Moment) (fields : Fields) (s : Store) (id : Option Text)
    → count (is_for "send_recovery_reserved" id) s.events ≤ 1
    → count (is_for "send_recovery_reserved" id) (reserve_recovery line_bytes m fields s).1.events
      ≤ 1
unfolding reserve_recovery
reserve_recovery_once line_bytes m fields s id h = elim (Option-cases s.poisoned) [
  | inr (code, e) ↦ ground arith
  | inl clean ↦ ground (
    arith,
    any-eq-false_of_find? (is_for "send_recovery_reserved" fields.message_id) s.events,
    reserved-store (append line_bytes m "send_recovery_reserved" fields s),
    append_once line_bytes m "send_recovery_reserved" "send_recovery_reserved" fields s id,
  )
]

created-none :
    (line_bytes : Row → ℕ) (m : Moment) (fields : Fields) (s t : Store) (r : Reservation)
    → reserve_request line_bytes m fields s ≡ (ok r, t)
    → r.created ≡ true
    → (request s.events fields.message_id ≡ ok none)
      × (append line_bytes m "send_requested" fields s ≡ (ok r.event, t))
unfolding reserve_request
created-none line_bytes m fields s t r h new =
    (ground arith, unreserve (append line_bytes m "send_requested" fields s) (ground arith))
  where
    unreserve : (a : Outcome Row × Store) → reserved a ≡ (ok r, t) → a ≡ (ok r.event, t)
    unreserve (ok event, u) e = ground arith
    unreserve (err code, u) e = ground arith

request-appended :
    (events : List Row) (event : Row) (id id' : Option Text)
    → request events id ≡ ok none
    → same_uuid id id' ≡ true
    → is_for "send_requested" id' event ≡ true
    → request (events ++ event ∷ []) id' ≡ ok (some event)
unfolding request
request-appended events event id id' h same hit =
    let none_yet : filter (is_for "send_requested" id') events ≡ [] = filter-eq-nil _ events (
      subst (λ p. any p events ≡ false) (is_for-congr "send_requested" id id' same)
        (request-none events id h)) in
    rw (filter-append (is_for "send_requested" id') events, none_yet, hit)

reserve-found :
    (line_bytes : Row → ℕ) (m : Moment) (fields : Fields) (t : Store) (prior : Row)
    → t.poisoned ≡ none
    → request t.events fields.message_id ≡ ok (some prior)
    → reserve_request line_bytes m fields t ≡ (ok (record { created = false; event = prior }), t)
unfolding reserve_request
reserve-found line_bytes m fields t prior clean found = ground arith

-- A second reservation of the same id, in whatever spelling and with whatever data, finds the first:
-- it creates nothing and gives the row of the first.
pub reserve_request-again :
    (line_bytes : Row → ℕ) (m m' : Moment) (fields fields' : Fields) (s t : Store) (r : Reservation)
    → reserve_request line_bytes m fields s ≡ (ok r, t)
    → r.created ≡ true
    → same_uuid fields.message_id fields'.message_id ≡ true
    → reserve_request line_bytes m' fields' t
      ≡ (ok (record { created = false; event = r.event }), t)
reserve_request-again line_bytes m m' fields fields' s t r h new same =
    let (none_yet, written) = created-none line_bytes m fields s t r h new in
    let (_, clean, typed, data', _, grown, _) =
      append-Appended line_bytes m "send_requested" fields s (ok r.event, t) written in
    reserve-found line_bytes m' fields' t r.event clean (
      subst (λ events. request events fields'.message_id ≡ ok (some r.event)) (sym grown)
        (request-appended s.events r.event fields.message_id fields'.message_id none_yet same
          (rw (typed, data') (ground arith))))
