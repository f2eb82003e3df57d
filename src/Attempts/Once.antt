-- ===== src/Attempts/Once.antt =====
-- Each attempt has one intent and then at most one outcome (`recordAttempt` of src/core/attempts.mjs).
use universal_peer_mcp.Prelude.{
  ℕ, ◌+◌, ◌≤◌, ◌≡◌, ◌∙◌, refl, sym, ap, subst, Bool, true, false, ◌&&◌, Option, none, some, List,
  [], ◌∷◌, ◌++◌, Text, arith, any, count, count-append, count-eq-zero, filter, find?, any_of_find?,
  length, same_text_sound, Outcome, Outcome-cases, ok, err, inl, inr, Bool-cases, Option-cases,
}
use universal_peer_mcp.Ledger.{Row, Fields, is_type, Store, Moment, append_checked}
use universal_peer_mcp.Ledger.Sequence.{append_checked-Appended, append_checked-conflict}
use universal_peer_mcp.Attempts.{
  Args, Kind, intent, outcome_kind, kind_type, same_id, is_same_attempt, attempt_row,
  attempt_conflict, record_attempt,
}

-- The rows of one type of an attempt.
abbrev pub is_attempt : Kind → Option Text → Row → Bool
is_attempt kind id row = same_id row.attempt_id id && is_type (kind_type kind) row

-- At most one intent, and an outcome only where there is an intent. As this holds after every write,
-- an outcome comes after its intent.
abbrev pub Kept : Option Text → List Row → Type 0
Kept id events =
    (count (is_attempt outcome_kind id) events ≤ count (is_attempt intent id) events)
    × (count (is_attempt intent id) events ≤ 1)

same_id_sound : (a b : Option Text) → same_id a b ≡ true → a ≡ b
same_id_sound none none h = refl
same_id_sound none (some b) h = absurd (ground arith)
same_id_sound (some a) none h = absurd (ground arith)
same_id_sound (some a) (some b) h = ap some (same_text_sound a b h)

any-attempt :
    (kind : Kind) (data' : Fields) (events : List Row)
    → any (is_type (kind_type kind)) (filter (is_same_attempt data') events)
      ≡ any (is_attempt kind data'.attempt_id) events
any-attempt kind data' [] = refl
any-attempt intent data' (r ∷ rs) = ground (arith, any-attempt intent data' rs)
any-attempt outcome_kind data' (r ∷ rs) = ground (arith, any-attempt outcome_kind data' rs)

count_of_any : (p : Row → Bool) (rows : List Row) → any p rows ≡ true → 1 ≤ count p rows
count_of_any p [] h = absurd (ground arith)
count_of_any p (r ∷ rs) h = ground (arith, count_of_any p rs)

-- What the check of each phase has seen where it finds no conflict.
abbrev Seen : Kind → Option Text → List Row → Type 0
Seen intent id events =
    (any (is_attempt intent id) events ≡ false) × (any (is_attempt outcome_kind id) events ≡ false)
Seen outcome_kind id events =
    (any (is_attempt intent id) events ≡ true) × (any (is_attempt outcome_kind id) events ≡ false)

no_rows : (rows : List Row) → (empty : length rows ≤ 0) → rows ≡ []
no_rows [] h = refl
no_rows (r ∷ rs) h = absurd (omega arith)

attempt_conflict-Seen :
    (kind : Kind) (data' : Fields) (events : List Row)
    → attempt_conflict kind data' events ≡ none
    → Seen kind data'.attempt_id events
unfolding attempt_conflict
attempt_conflict-Seen intent data' events h =
    let nothing : filter (is_same_attempt data') events ≡ [] = no_rows _ (ground arith) in
    (
      sym (any-attempt intent data' events) ∙ ap (any (is_type "attempt_intent")) nothing,
      sym (any-attempt outcome_kind data' events) ∙ ap (any (is_type "attempt_outcome")) nothing,
    )
attempt_conflict-Seen outcome_kind data' events h =
    elim (Option-cases (find? (is_type "attempt_intent") (filter (is_same_attempt data') events))) [
      | inl missing ↦ absurd (ground arith)
      | inr (recorded, found) ↦ (
        sym (any-attempt intent data' events)
            ∙ any_of_find? (is_type "attempt_intent") (filter (is_same_attempt data') events)
                recorded found,
        sym (any-attempt outcome_kind data' events) ∙ ground arith,
      )
    ]

-- A row that the check lets through keeps the rule, for its own attempt and for every other.
Kept-snoc :
    (kind : Kind) (id : Option Text) (events : List Row) (row : Row)
    → row.type ≡ kind_type kind
    → Seen kind row.attempt_id events
    → Kept id events
    → Kept id (events ++ row ∷ [])
Kept-snoc kind id events row typed seen (fewer, once) =
    rw
      (count-append (is_attempt outcome_kind id) events, count-append (is_attempt intent id) events)
      (elim (Bool-cases (same_id row.attempt_id id)) [
        | inl same ↦
            own kind typed
              (subst (λ i. Seen kind i events) (same_id_sound row.attempt_id id same) seen)
        | inr other ↦ ground arith
      ])
  where
    own :
        (kind : Kind)
        → row.type ≡ kind_type kind
        → Seen kind id events
        → (count (is_attempt outcome_kind id) events + count (is_attempt outcome_kind id) (row ∷ [])
            ≤ count (is_attempt intent id) events + count (is_attempt intent id) (row ∷ []))
          × (count (is_attempt intent id) events + count (is_attempt intent id) (row ∷ []) ≤ 1)
    own intent typed (no_intent, no_outcome) = rw typed (
        ground (
          arith,
          count-eq-zero (is_attempt intent id) events,
          count-eq-zero (is_attempt outcome_kind id) events,
        ))
    own outcome_kind typed (some_intent, no_outcome) = rw typed (
        ground (
          arith,
          count_of_any (is_attempt intent id) events,
          count-eq-zero (is_attempt outcome_kind id) events,
        ))

-- Whatever the arguments and whatever the disk does, a call of `recordAttempt` keeps every attempt to
-- one intent at most, and to an outcome only after the intent and at most one.
pub record_attempt-Kept :
    (line_bytes : Row → ℕ) (m : Moment) (args : Option Args) (s : Store) (id : Option Text)
    → Kept id s.events
    → Kept id (record_attempt line_bytes m args s).1.events
unfolding record_attempt
record_attempt-Kept line_bytes m args s id h = elim (Outcome-cases (attempt_row args)) [
  | inr (code, e) ↦ rw (record_attempt, e) h
  | inl ((kind, data'), e) ↦ rw (record_attempt, e) (written kind data' _ refl)
]
  where
    written :
        (kind : Kind) (data' : Fields) (r : Outcome Row × Store)
        → append_checked line_bytes m (kind_type kind) data' (attempt_conflict kind data') s ≡ r
        → Kept id r.1.events
    written kind data' (ok row, t) e =
        let (_, _, typed, same, _, grown, _) =
          append_checked-Appended line_bytes m (kind_type kind) data' (attempt_conflict kind data')
            s (ok row, t) e in
        let passed =
          append_checked-conflict line_bytes m (kind_type kind) data' (attempt_conflict kind data')
            s row t e in
        subst (Kept id) (sym grown) (
          Kept-snoc kind id s.events row typed
            (subst (λ (f : Fields). Seen kind f.attempt_id s.events) (sym same)
              (attempt_conflict-Seen kind data' s.events passed))
            h)
    written kind data' (err code, t) e =
        let (same, _) =
          append_checked-Appended line_bytes m (kind_type kind) data' (attempt_conflict kind data')
            s (err code, t) e in
        subst (Kept id) (sym same) h
