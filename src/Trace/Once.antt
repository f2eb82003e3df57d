-- ===== src/Trace/Once.antt =====
-- The daily counts of src/core/trace.mjs count an acknowledged message once, over all days.
use universal_peer_mcp.Prelude.{
  ℕ, ◌+◌, ◌≢◌, ◌↔◌, ◌⊎◌, sym, subst, Option, none, some, lower, same_text, same_text_sound,
  same_text_refl, length, str_eq-true, eq_iff, ◌≡◌, ◌∙◌, refl, ap, Bool, true, false, List, [], ◌∷◌,
  String, Text, arith, str_eq, if◌then◌else◌, any, count, count-append, Bool-cases, inl, inr, ◌==◌,
}
use mathlib.Core.Bool.{true≢false}
use mathlib.Core.List.{Memᴰ}
use mathlib.Core.List.Memᴰ
use universal_peer_mcp.Ledger.{Row, is_type}
use universal_peer_mcp.Trace.{
  not_empty, Bump, Seen, row_id, is_new, add_new, plain_counts, plain, lookup, bumps_of, seen_after,
  bumps_from, none_seen, daily_bumps, paired_resolve_rows,
}

-- The row acknowledges the message with this canonical id.
abbrev pub IsAckOf : Text → Row → Type 0
IsAckOf id row =
    (row.type ≡ "peer_ack") × (m : Text) × (row.message_id ≡ some m) × (m ≢ []) × (lower m ≡ id)

-- No text stands in the list twice.
abbrev pub NoRepeats : List Text → Type 0
NoRepeats [] = Unit
NoRepeats (id ∷ ids) = (¬ (Memᴰ id ids)) × NoRepeats ids

-- `ids` are the messages that some row acknowledges, each once.
abbrev pub AckedBy : List Row → List Text → Type 0
AckedBy rows ids =
    NoRepeats ids × ((id : Text) → Memᴰ id ids ↔ ((row : Row) × Memᴰ row rows × IsAckOf id row))

abbrev pub is_acked : Bump → Bool
is_acked b = str_eq b.key "acked"

if-none :
    (b : Bool) (x y : List Bump)
    → count is_acked x ≡ 0
    → count is_acked y ≡ 0
    → count is_acked (if b then x else y) ≡ 0
if-none true x y h k = h
if-none false x y h k = k

-- A row of a plain count is no acknowledgement.
plain-none :
    (row : Row) (name : String) (table : List (String × String))
    → any (λ p. str_eq p.1 "acked") table ≡ false
    → count is_acked (plain row (lookup name table)) ≡ 0
unfolding lookup
plain-none row name [] h = refl
plain-none row name ((key, value) ∷ table) h = elim (Bool-cases (str_eq name key)) [
  | inl here ↦ rw here (ground arith)
  | inr later ↦ rw later (plain-none row name table (ground arith))
]

bumps_of-none :
    (row : Row) (paired : List ℕ) (seen : Seen)
    → is_type "peer_ack" row ≡ false
    → count is_acked (bumps_of paired seen row) ≡ 0
unfolding bumps_of
bumps_of-none row paired seen other = rw other (
    if-none (is_type "peer_reply" row) _ _
      (if-none (is_new (row_id row) seen.replies) _ _ refl refl)
      (if-none (is_type "peer_wait_timed_out" row) _ _
        (if-none (is_new (row_id row) seen.timeouts) _ _ refl refl)
        (if-none (is_type "peer_frame_uncorrelated" row) _ _ refl (
          if-none (is_type "peer_frame_refused" row) _ _ refl (
            if-none (is_type "target_resolve_failed" row) _ _
              (if-none (any (λ n. n == row.seq) paired) _ _ refl refl)
              (if-none (is_type "target_rebind_failed" row) _ _ refl (
                if-none (is_type "attempt_intent" row) _ _ refl (
                  if-none (is_type "attempt_outcome" row) _ _ refl
                    (plain-none row row.type plain_counts refl)))))))))

any-Memᴰ : (id : Text) (ids : List Text) → any (same_text id) ids ≡ true → Memᴰ id ids
any-Memᴰ id [] h = absurd (ground arith)
any-Memᴰ id (x ∷ ids) h = elim (Bool-cases (same_text id x)) [
  | inl same ↦ Memᴰ.head (same_text_sound id x same)
  | inr other ↦ Memᴰ.tail (any-Memᴰ id ids (rw (any, other) at h))
]

Memᴰ-any : (id : Text) (ids : List Text) → Memᴰ id ids → any (same_text id) ids ≡ true
Memᴰ-any id [] m = absurd (Memᴰ.not-nil m)
Memᴰ-any id (x ∷ ids) m = elim (Memᴰ.cases_cons m) [
  | inl same ↦ rw (any, subst (λ y. same_text id y ≡ true) same (same_text_refl id)) refl
  | inr later ↦ ground (arith, Memᴰ-any id ids later)
]

-- The set after a row, which `seen_after` keeps for acknowledgements.
abbrev acks_after : List Text → Row → List Text
acks_after acks row = if is_type "peer_ack" row then add_new (row_id row) acks else acks

all_acks : List Text → List Row → List Text
all_acks acks [] = acks
all_acks acks (row ∷ rows) = all_acks (acks_after acks row) rows

-- What one id does to the set.
add_new-NoRepeats :
    (o : Option Text) (acks : List Text) → NoRepeats acks → NoRepeats (add_new o acks)
add_new-NoRepeats none acks h = h
add_new-NoRepeats (some id) acks h = elim (Bool-cases (any (same_text id) acks)) [
  | inl old ↦ rw old h
  | inr new ↦ rw new (λ m. true≢false (sym (Memᴰ-any id acks m) ∙ new), h)
]

some_inj : (a b : Text) → some a ≡ some b → a ≡ b
some_inj a b e = cc

add_new-Memᴰ :
    (o : Option Text) (acks : List Text) (id : Text)
    → Memᴰ id (add_new o acks) ↔ ((o ≡ some id) ⊎ Memᴰ id acks)
add_new-Memᴰ none acks id = (λ m. inr m, λ t. elim t [ inl e ↦ absurd (cc) | inr m ↦ m ])
add_new-Memᴰ (some new_id) acks id = elim (Bool-cases (any (same_text new_id) acks)) [
  | inl old ↦ rw old (
    λ m. inr m,
    λ t. elim t [
      | inl e ↦ subst (λ i. Memᴰ i acks) (some_inj new_id id e) (any-Memᴰ new_id acks old)
      | inr m ↦ m
    ],
  )
  | inr new ↦ rw new (
    λ m. elim (Memᴰ.cases_cons m) [ inl same ↦ inl (ap some (sym same)) | inr later ↦ inr later ],
    λ t. elim t [ inl e ↦ Memᴰ.head (sym (some_inj new_id id e)) | inr m ↦ Memᴰ.tail m ],
  )
]

add_new-length :
    (o : Option Text) (acks : List Text)
    → length (add_new o acks) ≡ (if is_new o acks then 1 else 0) + length acks
add_new-length none acks = omega arith
add_new-length (some id) acks = elim (Bool-cases (any (same_text id) acks)) [
  | inl old ↦ rw old (omega arith)
  | inr new ↦ rw new (omega arith)
]

bumps_from-acked :
    (paired : List ℕ) (seen : Seen) (rows : List Row)
    → count is_acked (bumps_from paired seen rows) + length seen.acks
      ≡ length (all_acks seen.acks rows)
unfolding bumps_from all_acks
bumps_from-acked paired seen [] = omega arith
bumps_from-acked paired seen (row ∷ rows) =
    let later = bumps_from-acked paired (seen_after seen row) rows in
    let split =
      count-append is_acked (bumps_of paired seen row)
        (bumps_from paired (seen_after seen row) rows) in
    omega (arith, step, later, split)
  where
    step :
        count is_acked (bumps_of paired seen row) + length seen.acks
        ≡ length (seen_after seen row).acks
    step = elim (Bool-cases (is_type "peer_ack" row)) [
      | inr other ↦ rw (bumps_of-none row paired seen other, other) (omega arith)
      | inl ack ↦
          let grown = add_new-length (row_id row) seen.acks in
          elim (Bool-cases (is_new (row_id row) seen.acks)) [
            | inl new ↦ rw (bumps_of, ack, new) (omega (arith, rw new at grown))
            | inr old ↦ rw (bumps_of, ack, old) (omega (arith, rw old at grown))
          ]
    ]

no_id : (id : Text) → not_empty (lower []) ≢ some id
unfolding lower
no_id id e = absurd (cc)

filled_text : (c : ℕ) (m : Text) → ◌≢◌ {A = Text} (c ∷ m) []
filled_text c m h = absurd (cc)

lowered : (c : ℕ) (m id : Text) → not_empty (lower (c ∷ m)) ≡ some id → lower (c ∷ m) ≡ id
unfolding lower
lowered c m id e = some_inj _ id e

given : (c : ℕ) (m : Text) {id : Text} → lower (c ∷ m) ≡ id → not_empty (lower (c ∷ m)) ≡ some id
unfolding lower
given c m same = ap some same

row_id-IsAckOf :
    (row : Row) (id : Text)
    → is_type "peer_ack" row ≡ true
    → (row_id row ≡ some id) ↔ IsAckOf id row
row_id-IsAckOf row id ack =
    (to row.message_id refl, λ (typed, m, named, filled, same). rw named (of m filled same))
  where
    to : (o : Option Text) → row.message_id ≡ o → row_id row ≡ some id → IsAckOf id row
    to none named e = absurd (cc (rw named at e))
    to (some []) named e = absurd (no_id id (rw named at e))
    to (some (c ∷ m)) named e = (
      str_eq-true row.type "peer_ack" ack,
      c ∷ m,
      named,
      filled_text c m,
      lowered c m id (rw named at e),
    )

    of : (m : Text) → m ≢ [] → lower m ≡ id → not_empty (lower m) ≡ some id
    of [] filled same = absurd (filled refl)
    of (c ∷ m) filled same = given c m same

acks_after-Memᴰ :
    (id : Text) (acks : List Text) (row : Row)
    → Memᴰ id (acks_after acks row) ↔ (IsAckOf id row ⊎ Memᴰ id acks)
acks_after-Memᴰ id acks row = elim (Bool-cases (is_type "peer_ack" row)) [
  | inr other ↦ rw other (
    λ m. inr m,
    λ t. elim t [
      | inl (typed, m, named, filled, same) ↦
          absurd (ground (arith, (eq_iff row.type "peer_ack").1 typed))
      | inr m ↦ m
    ],
  )
  | inl ack ↦
      let (to, of) = row_id-IsAckOf row id ack in
      let (here, back) = add_new-Memᴰ (row_id row) acks id in
      rw ack (
        λ m. elim (here m) [ inl e ↦ inl (to e) | inr k ↦ inr k ],
        λ t. elim t [ inl a ↦ back (inl (of a)) | inr k ↦ back (inr k) ],
      )
]

all_acks-NoRepeats :
    (acks : List Text) (rows : List Row) → NoRepeats acks → NoRepeats (all_acks acks rows)
unfolding all_acks
all_acks-NoRepeats acks [] h = h
all_acks-NoRepeats acks (row ∷ rows) h =
    all_acks-NoRepeats (acks_after acks row) rows (elim (Bool-cases (is_type "peer_ack" row)) [
      | inl ack ↦ rw ack (add_new-NoRepeats (row_id row) acks h)
      | inr other ↦ rw other h
    ])

all_acks-Memᴰ :
    (id : Text) (acks : List Text) (rows : List Row)
    → Memᴰ id (all_acks acks rows) ↔ (Memᴰ id acks ⊎ ((row : Row) × Memᴰ row rows × IsAckOf id row))
unfolding all_acks
all_acks-Memᴰ id acks [] =
    (λ m. inl m, λ t. elim t [ inl m ↦ m | inr (row, m, _) ↦ absurd (Memᴰ.not-nil m) ])
all_acks-Memᴰ id acks (row ∷ rows) =
    let (later_of, of_later) = all_acks-Memᴰ id (acks_after acks row) rows in
    let (step_of, of_step) = acks_after-Memᴰ id acks row in
    (
      λ m. elim (later_of m) [
        | inr (r, among, acked) ↦ inr (r, Memᴰ.tail among, acked)
        | inl now ↦ elim (step_of now) [
          | inl acked ↦ inr (row, Memᴰ.head refl, acked)
          | inr before ↦ inl before
        ]
      ],
      λ t. elim t [
        | inl before ↦ of_later (inl (of_step (inr before)))
        | inr (r, among, acked) ↦ elim (Memᴰ.cases_cons among) [
          | inl same ↦ of_later (inl (of_step (inl (subst (IsAckOf id) same acked))))
          | inr later ↦ of_later (inr (r, later, acked))
        ]
      ],
    )

-- The `acked` counts of all days together are the number of messages that some row acknowledges: the canonical,
-- lower case ids of those rows, each counted once.
pub daily_bumps-acked :
    (events : List Row)
    → (ids : List Text) × AckedBy events ids × (count is_acked (daily_bumps events) ≡ length ids)
unfolding daily_bumps
daily_bumps-acked events = (
  all_acks [] events,
  (all_acks-NoRepeats [] events tt, λ id. no_start id (all_acks-Memᴰ id [] events)),
  ground (arith, bumps_from-acked (paired_resolve_rows events) none_seen events),
)
  where
    no_start :
        (id : Text)
        → (Memᴰ id (all_acks [] events)
            ↔ (Memᴰ id [] ⊎ ((row : Row) × Memᴰ row events × IsAckOf id row)))
        → Memᴰ id (all_acks [] events) ↔ ((row : Row) × Memᴰ row events × IsAckOf id row)
    no_start id (to, of) = (
      λ m. elim (to m) [ inl none_there ↦ absurd (Memᴰ.not-nil none_there) | inr found ↦ found ],
      λ found. of (inr found),
    )
