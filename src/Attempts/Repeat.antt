-- ===== src/Attempts/Repeat.antt =====
-- A call of `recordAttempt` (src/core/attempts.mjs) that is made again.
use universal_peer_mcp.Prelude.{
  ℕ, ◌≡◌, ◌∙◌, refl, sym, ap, subst, true, Option, none, some, List, [], ◌∷◌, ◌++◌, arith, ltb,
  filter, find?, length, filter-append, find?-append_some, any-append, append_assoc, same_text_refl,
  Text, Outcome-cases, refuse, ok, inl, inr, Option-cases,
}
use universal_peer_mcp.Ledger.{Row, Fields, is_type, Store, Moment, append_checked}
use universal_peer_mcp.Ledger.Sequence.{append_checked-Appended, append_checked-conflict}
use universal_peer_mcp.Attempts.{
  Args, Kind, intent, outcome_kind, kind_type, same_id, is_same_attempt, attempt_row,
  outcome_conflict, attempt_conflict, record_attempt,
}

same_id_refl : (a : Option Text) → same_id a a ≡ true
same_id_refl none = refl
same_id_refl (some t) = same_text_refl t

-- The rows of the attempt that data name, once a row with these data is among them.
same-grown :
    (kind : Kind) (data' : Fields) (events more : List Row) (row : Row)
    → row.type ≡ kind_type kind
    → row.fields ≡ data'
    → filter (is_same_attempt data') ((events ++ row ∷ []) ++ more)
      ≡ filter (is_same_attempt data') events ++ row ∷ filter (is_same_attempt data') more
same-grown kind data' events more row typed same =
    rw
      (
        append_assoc events (row ∷ []) more,
        filter-append (is_same_attempt data') events (row ∷ more),
      )
      (own kind typed)
  where
    own :
        (kind : Kind)
        → row.type ≡ kind_type kind
        → filter (is_same_attempt data') events ++ filter (is_same_attempt data') (row ∷ more)
          ≡ filter (is_same_attempt data') events ++ row ∷ filter (is_same_attempt data') more
    own intent typed = rw (typed, same, same_id_refl data'.attempt_id) refl
    own outcome_kind typed = rw (typed, same, same_id_refl data'.attempt_id) refl

-- What the check has passed once, it refuses as a duplicate ever after.
attempt_conflict-again :
    (kind : Kind) (data' : Fields) (events more : List Row) (row : Row)
    → row.type ≡ kind_type kind
    → row.fields ≡ data'
    → attempt_conflict kind data' events ≡ none
    → attempt_conflict kind data' ((events ++ row ∷ []) ++ more) ≡ some "ATTEMPT_DUPLICATE"
unfolding attempt_conflict
attempt_conflict-again intent data' events more row typed same h =
    rw
      (
        same-grown intent data' events more row typed same,
        nonempty (filter (is_same_attempt data') events),
      )
      refl
  where
    nonempty :
        (xs : List Row) → ltb 0 (length (xs ++ row ∷ filter (is_same_attempt data') more)) ≡ true
    nonempty [] = ground arith
    nonempty (x ∷ xs) = ground arith
attempt_conflict-again outcome_kind data' events more row typed same h =
    let same_rows : List Row = filter (is_same_attempt data') events in
    let rest : List Row = row ∷ filter (is_same_attempt data') more in
    rw (same-grown outcome_kind data' events more row typed same)
      (elim (Option-cases (find? (is_type "attempt_intent") same_rows)) [
        | inl missing ↦ absurd (ground arith)
        | inr (recorded, found) ↦
            rw
              (
                outcome_conflict,
                find?-append_some (is_type "attempt_intent") same_rows rest recorded found,
                any-append (is_type "attempt_outcome") same_rows rest,
                typed,
              )
              (ground arith)
      ])

-- A call with string arguments that has written its row is refused as a duplicate when it is made again, on any later
-- ledger, in this process or the next, while the store has met no fault: it writes nothing.
pub record_attempt-again :
    (line_bytes : Row → ℕ) (m m' : Moment) (args : Option Args) (s t u : Store) (row : Row)
    (more : List Row)
    → record_attempt line_bytes m args s ≡ (ok row, t)
    → u.events ≡ t.events ++ more
    → u.poisoned ≡ none
    → record_attempt line_bytes m' args u ≡ (refuse "ATTEMPT_DUPLICATE", u)
unfolding record_attempt append_checked
record_attempt-again line_bytes m m' args s t u row more h later clean =
    elim (Outcome-cases (attempt_row args)) [
      | inr (code, e) ↦ absurd (ground arith)
      | inl ((kind, data'), e) ↦ again kind data' e (ground arith)
    ]
  where
    again :
        (kind : Kind) (data' : Fields)
        → attempt_row args ≡ ok (kind, data')
        → append_checked line_bytes m (kind_type kind) data' (attempt_conflict kind data') s
          ≡ (ok row, t)
        → record_attempt line_bytes m' args u ≡ (refuse "ATTEMPT_DUPLICATE", u)
    again kind data' e written =
        let (_, _, typed, same, _, grown, _) =
          append_checked-Appended line_bytes m (kind_type kind) data' (attempt_conflict kind data')
            s (ok row, t) written in
        let passed =
          append_checked-conflict line_bytes m (kind_type kind) data' (attempt_conflict kind data')
            s row t written in
        let refused : attempt_conflict kind data' u.events ≡ some "ATTEMPT_DUPLICATE" =
          subst (λ rows. attempt_conflict kind data' rows ≡ some "ATTEMPT_DUPLICATE")
            (sym (later ∙ ap (λ rows. rows ++ more) grown))
            (attempt_conflict-again kind data' s.events more row typed same passed) in
        ground arith
