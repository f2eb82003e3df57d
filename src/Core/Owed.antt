-- ===== src/Core/Owed.antt =====
-- How often a message goes into a socket, against its reservations (`send` of src/core/peer-core.mjs).
use universal_peer_mcp.Prelude.{
  ℕ, ◌+◌, ◌≤◌, ◌≡◌, ◌∙◌, refl, sym, ap, subst, Bool, true, false, ◌&&◌, Option, none, some, List,
  [], ◌∷◌, String, Text, arith, str_eq, if◌then◌else◌, find?, ◌⊎◌, count, count-append, Outcome, ok,
  err, inl, inr,
}
use universal_peer_mcp.Limits.{same_uuid}
use universal_peer_mcp.Ledger.{Row, Fields, is_type, Store, Moment, append}
use universal_peer_mcp.Ledger.Requests.{
  is_for, request, Reservation, reserved, reserve_request, reserve_recovery,
}
use universal_peer_mcp.Ledger.Sequence.{Appended, append-Appended}
use universal_peer_mcp.Core.{Net, Line, Wire, first_wire, second_wire, pause, append_line}

abbrev pub is_first : Text → Wire → Bool
is_first id (first_wire i session) = same_uuid (some i) (some id)
is_first id (second_wire i session) = false

abbrev pub is_second : Text → Wire → Bool
is_second id (first_wire i session) = false
is_second id (second_wire i session) = same_uuid (some i) (some id)

-- The reservations of a message, of its first transport and of its recovery.
abbrev pub requests : Text → List Row → ℕ
requests id = count (is_for "send_requested" (some id))

abbrev pub recoveries : Text → List Row → ℕ
recoveries id = count (is_for "send_recovery_reserved" (some id))

-- Of one kind of transport `a` more lines may be written, of the other `b`; there is one reservation of
-- each at most.
abbrev pub OwedAt : Text → ℕ → ℕ → List Wire → List Row → Type 0
OwedAt id a b wires rows =
    (count (is_first id) wires + a ≤ requests id rows)
    × (requests id rows ≤ 1)
    × (count (is_second id) wires + b ≤ recoveries id rows)
    × (recoveries id rows ≤ 1)

unfoldable pub Owed : Text → ℕ → ℕ → Line → Type 0
Owed id a b l = OwedAt id a b l.wires l.store.events

-- What others do keeps the reservations of a message, and adds none where there is one.
abbrev pub Kept : Text → List Row → List Row → Type 0
Kept id rows rows' =
    (requests id rows ≤ requests id rows')
    × (requests id rows ≤ 1 → requests id rows' ≤ 1)
    × (recoveries id rows ≤ recoveries id rows')
    × (recoveries id rows ≤ 1 → recoveries id rows' ≤ 1)

abbrev pub Quiet : Text → Net → Type 0
Quiet id n = (k : ℕ) (s : Store) → Kept id s.events (n.others k s).events

Owed-Kept :
    (id : Text) (a b : ℕ) (l : Line) (s : Store) (k : ℕ)
    → Kept id l.store.events s.events
    → Owed id a b l
    → Owed id a b (record l { store = s; waits = k })
unfolding Owed
Owed-Kept id a b l s k (more, one, more', one') (p, q, p', q') =
    (omega (arith, more, p), one q, omega (arith, more', p'), one' q')

-- Less may be owed.
pub Owed-less : (id : Text) (a b : ℕ) (l : Line) → Owed id a b l → Owed id 0 0 l
unfolding Owed
Owed-less id a b l (p, q, p', q') = (omega (arith, p), q, omega (arith, p'), q')

-- The rows of an append of another type are no reservations.
append-Kept :
    (line_bytes : Row → ℕ) (m : Moment) (id : Text) (type : String) (fields : Fields) (s : Store)
    → str_eq type "send_requested" ≡ false
    → str_eq type "send_recovery_reserved" ≡ false
    → Kept id s.events (append line_bytes m type fields s).1.events
append-Kept line_bytes m id type fields s p q =
    go (append line_bytes m type fields s) (append-Appended line_bytes m type fields s _ refl)
  where
    go : (r : Outcome Row × Store) → Appended s type fields r → Kept id s.events r.1.events
    go (err code, s') (same, _) =
        subst (λ rows. Kept id s.events rows) (sym same) (omega arith, λ h. h, omega arith, λ h. h)
    go (ok event, s') (_, _, typed, _, _, grown, _) =
        let no_request : is_type "send_requested" event ≡ false =
          ap (λ t. str_eq t "send_requested") typed ∙ p in
        let no_recovery : is_type "send_recovery_reserved" event ≡ false =
          ap (λ t. str_eq t "send_recovery_reserved") typed ∙ q in
        subst (λ rows. Kept id s.events rows) (sym grown)
          (rw
            (
              count-append (is_for "send_requested" (some id)) s.events (event ∷ []),
              no_request,
              count-append (is_for "send_recovery_reserved" (some id)) s.events (event ∷ []),
              no_recovery,
            )
            (omega arith, λ h. omega (arith, h), omega arith, λ h. omega (arith, h)))

module _ (n : Net) (id : Text) (quiet : Quiet id n) where
  pub pause-Owed : (a b : ℕ) (l : Line) → Owed id a b l → Owed id a b (pause n l)
  pause-Owed a b l h =
      Owed-Kept id a b l (n.others l.waits l.store) (l.waits + 1) (quiet l.waits l.store) h

  pub append_line-Owed :
      (a b : ℕ) (type : String) (fields : Fields) (l : Line)
      → str_eq type "send_requested" ≡ false
      → str_eq type "send_recovery_reserved" ≡ false
      → Owed id a b l
      → Owed id a b (append_line n type fields l).1
  append_line-Owed a b type fields l p q h =
      Owed-Kept id a b (pause n l)
        (append n.line_bytes (n.moment l.waits) type fields (n.others l.waits l.store)).1
        (l.waits + 1)
        (append-Kept n.line_bytes (n.moment l.waits) id type fields (n.others l.waits l.store) p q)
        (pause-Owed a b l h)

-- One, if two ids are the same.
abbrev pub one_if : Bool → ℕ
one_if true = 1
one_if false = 0

abbrev pub owed_of : Text → Bool → Text → ℕ
owed_of i created id = if created then one_if (same_uuid (some i) (some id)) else 0

-- What an append adds to the rows of a message.
pub appended-count :
    (line_bytes : Row → ℕ) (m : Moment) (type kind : String) (fields : Fields) (s t : Store)
    (event : Row) (i id : Text)
    → fields.message_id ≡ some i
    → append line_bytes m type fields s ≡ (ok event, t)
    → count (is_for kind (some id)) t.events
      ≡ count (is_for kind (some id)) s.events
        + one_if (str_eq type kind && same_uuid (some i) (some id))
appended-count line_bytes m type kind fields s t event i id named h =
    let (_, _, typed, same, _, grown, _) =
      append-Appended line_bytes m type fields s (ok event, t) h in
    let hit : is_for kind (some id) event ≡ (str_eq type kind && same_uuid (some i) (some id)) =
      ap (λ (x : String). str_eq x kind && same_uuid event.message_id (some id)) typed
      ∙ ap (λ (f : Fields). str_eq type kind && same_uuid f.message_id (some id)) same
      ∙ ap (λ (x : Option Text). str_eq type kind && same_uuid x (some id)) named in
    ap (count (is_for kind (some id))) grown
    ∙ count-append (is_for kind (some id)) s.events (event ∷ [])
    ∙ ap (λ x. count (is_for kind (some id)) s.events + x)
        (single (is_for kind (some id) event) ∙ ap one_if hit)
  where
    single : (b : Bool) → (if b then 1 else 0) ≡ one_if b
    single true = refl
    single false = refl

-- A reservation is a new row, or one that was there.
abbrev pub Reserves :
    (Row → ℕ) → Moment → String → Fields → Store → Outcome Reservation × Store → Type 0
Reserves line_bytes m type fields s (err code, t) = t.events ≡ s.events
Reserves line_bytes m type fields s (ok r, t) =
    ((r.created ≡ true) × (append line_bytes m type fields s ≡ (ok r.event, t)))
    ⊎ ((r.created ≡ false) × (t ≡ s))

reserved-Reserves :
    (line_bytes : Row → ℕ) (m : Moment) (type : String) (fields : Fields) (s : Store)
    (a : Outcome Row × Store)
    → append line_bytes m type fields s ≡ a
    → Reserves line_bytes m type fields s (reserved a)
reserved-Reserves line_bytes m type fields s (ok event, t) e = inl (refl, e)
reserved-Reserves line_bytes m type fields s (err code, t) e =
    (append-Appended line_bytes m type fields s (err code, t) e).0

pub reserve_request-Reserves :
    (line_bytes : Row → ℕ) (m : Moment) (fields : Fields) (s : Store)
    → Reserves line_bytes m "send_requested" fields s (reserve_request line_bytes m fields s)
unfolding reserve_request
reserve_request-Reserves line_bytes m fields s = go s.poisoned (request s.events fields.message_id)
  where
    go :
        (p : Option (Option String)) (o : Outcome (Option Row))
        → Reserves line_bytes m "send_requested" fields s
            (elim p as (λ x. Outcome Reservation × Store) [
              | some code ↦ (err code, s)
              | none ↦ elim o as (λ x. Outcome Reservation × Store) [
                | err code ↦ (err code, s)
                | ok found ↦ elim found as (λ x. Outcome Reservation × Store) [
                  | some prior ↦ (ok (record { created = false; event = prior }), s)
                  | none ↦ reserved (append line_bytes m "send_requested" fields s)
                ]
              ]
            ])
    go (some code) o = refl
    go none (err code) = refl
    go none (ok (some prior)) = inr (refl, refl)
    go none (ok none) = reserved-Reserves line_bytes m "send_requested" fields s _ refl

pub reserve_recovery-Reserves :
    (line_bytes : Row → ℕ) (m : Moment) (fields : Fields) (s : Store)
    → Reserves line_bytes m "send_recovery_reserved" fields s
        (reserve_recovery line_bytes m fields s)
unfolding reserve_recovery
reserve_recovery-Reserves line_bytes m fields s =
    go s.poisoned (find? (is_for "send_recovery_reserved" fields.message_id) s.events)
  where
    go :
        (p : Option (Option String)) (o : Option Row)
        → Reserves line_bytes m "send_recovery_reserved" fields s
            (elim p as (λ x. Outcome Reservation × Store) [
              | some code ↦ (err code, s)
              | none ↦ elim o as (λ x. Outcome Reservation × Store) [
                | some prior ↦ (ok (record { created = false; event = prior }), s)
                | none ↦ reserved (append line_bytes m "send_recovery_reserved" fields s)
              ]
            ])
    go (some code) o = refl
    go none (some prior) = inr (refl, refl)
    go none none = reserved-Reserves line_bytes m "send_recovery_reserved" fields s _ refl
