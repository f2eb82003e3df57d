-- ===== src/Core/Ascending.antt =====
-- The rows before and after a cursor (`events` of src/core/peer-core.mjs).
use universal_peer_mcp.Prelude.{
  ℕ, ◌+◌, ◌≡◌, refl, ap, Bool, true, false, ◌&&◌, Option, none, some, List, [], ◌∷◌, ◌++◌, Text,
  arith, ltb, Bool-cases, inl, inr, filter, length, drop, ok, Outcome-cases, length-append, ◌≤◌,
}
use universal_peer_mcp.Ledger.{Row}
use universal_peer_mcp.Ledger.Sequence.{IsNumberedFrom}
use universal_peer_mcp.Limits.{same_uuid}
use universal_peer_mcp.Ledger.Requests.{list, request}
use universal_peer_mcp.Core.Reads.{max_page_bytes, take_page, end_seq}

ltb-less : (a b : ℕ) → ltb a b ≡ true → a + 1 ≤ b
ltb-less a b e = ground arith

ltb-more : (a b : ℕ) → ltb a b ≡ false → b ≤ a
ltb-more a b e = ground arith

less-ltb : (a b : ℕ) → a + 1 ≤ b → ltb a b ≡ true
less-ltb a b e = ground arith

more-ltb : (a b : ℕ) → b ≤ a → ltb a b ≡ false
more-ltb a b e = ground arith

-- Rows in ascending order, all after a number.
abbrev pub Above : ℕ → List Row → Type 0
Above a [] = Unit
Above a (row ∷ rows) = (a + 1 ≤ row.seq) × Above row.seq rows

pub end_seq-Above : (a : ℕ) (taken rest : List Row) → Above a (taken ++ rest) → a ≤ end_seq a taken
unfolding end_seq
end_seq-Above a [] rest h = omega arith
end_seq-Above a (row ∷ taken) rest (less, h) = omega (arith, end_seq-Above row.seq taken rest h)

filter-Above :
    (c a : ℕ) (rows : List Row) → c ≤ a → Above a rows → filter (λ row. ltb c row.seq) rows ≡ rows
filter-Above c a [] le h = refl
filter-Above c a (row ∷ rows) le (less, h) =
    rw (less-ltb c row.seq (omega arith))
      (ap (λ t. row ∷ t) (filter-Above c row.seq rows (omega arith) h))

-- After the last row of a beginning stand the rows that follow it.
pub filter-last :
    (a : ℕ) (taken rest : List Row)
    → Above a (taken ++ rest)
    → filter (λ row. ltb (end_seq a taken) row.seq) (taken ++ rest) ≡ rest
unfolding end_seq
filter-last a [] rest h = filter-Above a a rest (omega arith) h
filter-last a (row ∷ taken) rest (less, h) =
    rw (more-ltb (end_seq row.seq taken) row.seq (end_seq-Above row.seq taken rest h))
      (filter-last row.seq taken rest h)

pub take_page-prefix :
    (size : Row → ℕ) (limit bytes : ℕ) (rows : List Row)
    → take_page size limit bytes rows ++ drop (length (take_page size limit bytes rows)) rows ≡ rows
unfolding take_page
take_page-prefix size limit bytes [] = refl
take_page-prefix size ℕ.zero bytes (row ∷ rows) = refl
take_page-prefix size (ℕ.suc limit) bytes (row ∷ rows) =
    elim (Bool-cases (ltb max_page_bytes (bytes + (size row + 1)))) [
      | inl full ↦ rw (take_page, full) refl
      | inr fits ↦
          rw (take_page, fits)
            (ap (λ t. row ∷ t) (take_page-prefix size limit (bytes + (size row + 1)) rows))
    ]

-- The rows of a numbered ledger that a reading chooses stand in ascending order.
chosen-Above :
    (p : Row → Bool) (n b : ℕ) (rows : List Row)
    → b + 1 ≤ n
    → IsNumberedFrom n rows
    → Above b (filter p rows)
chosen-Above p n b [] le h = tt
chosen-Above p n b (row ∷ rows) le (at, h) = elim (Bool-cases (p row)) [
  | inl passes ↦ rw passes (omega arith, chosen-Above p (n + 1) row.seq rows (omega arith) h)
  | inr fails ↦ rw fails (chosen-Above p (n + 1) b rows (omega arith) h)
]

pub listed-Above :
    (p : Row → Bool) (n a : ℕ) (rows : List Row)
    → IsNumberedFrom n rows
    → Above a (filter (λ row. ltb a row.seq && p row) rows)
listed-Above p n a [] h = tt
listed-Above p n a (row ∷ rows) (at, h) = elim (Bool-cases (ltb a row.seq && p row)) [
  | inl passes ↦ rw passes (
    ltb-less a row.seq (ground arith),
    chosen-Above (λ row. ltb a row.seq && p row) (n + 1) row.seq rows (omega arith) h,
  )
  | inr fails ↦ rw fails (listed-Above p (n + 1) a rows h)
]

and_false : (b : Bool) → (b && false) ≡ false
and_false true = refl
and_false false = refl

-- To read on from a later number is to leave out rows of the reading before.
pub filter-later :
    (p : Row → Bool) (a c : ℕ) (rows : List Row)
    → a ≤ c
    → filter (λ row. ltb c row.seq && p row) rows
      ≡ filter (λ row. ltb c row.seq) (filter (λ row. ltb a row.seq && p row) rows)
filter-later p a c [] le = refl
filter-later p a c (row ∷ rows) le = elim (Bool-cases (ltb a row.seq)) [
  | inr fails ↦
      rw (fails, more-ltb c row.seq (omega (arith, ltb-more a row.seq fails)))
        (filter-later p a c rows le)
  | inl passes ↦ rw passes (elim (Bool-cases (p row)) [
    | inr out ↦ rw (out, and_false (ltb c row.seq)) (filter-later p a c rows le)
    | inl in_it ↦ rw in_it (elim (Bool-cases (ltb c row.seq)) [
      | inl later ↦ rw later (ap (λ t. row ∷ t) (filter-later p a c rows le))
      | inr not_later ↦ rw not_later (filter-later p a c rows le)
    ])
  ])
]

end_seq-numbered :
    (n b : ℕ) (rows : List Row) → b + 1 ≤ n → IsNumberedFrom n rows → b ≤ end_seq b rows
unfolding end_seq
end_seq-numbered n b [] le h = omega arith
end_seq-numbered n b (row ∷ rows) le (at, h) =
    omega (arith, end_seq-numbered (n + 1) row.seq rows (omega arith) h)

-- No row of a numbered ledger stands after its last.
pub filter-none :
    (p : Row → Bool) (n b c : ℕ) (rows : List Row)
    → b + 1 ≤ n
    → IsNumberedFrom n rows
    → end_seq b rows ≤ c
    → filter (λ row. ltb c row.seq && p row) rows ≡ []
unfolding end_seq
filter-none p n b c [] le h last = refl
filter-none p n b c (row ∷ rows) le (at, h) last =
    let over = end_seq-numbered (n + 1) row.seq rows (omega arith) h in
    rw (more-ltb c row.seq (omega (arith, over)))
      (filter-none p (n + 1) row.seq c rows (omega arith) h last)

filter-true :
    (c : ℕ) (rows : List Row)
    → filter (λ row. ltb c row.seq) rows ≡ filter (λ row. ltb c row.seq && true) rows
filter-true c [] = refl
filter-true c (row ∷ rows) = elim (Bool-cases (ltb c row.seq)) [
  | inl later ↦ rw later (ap (λ t. row ∷ t) (filter-true c rows))
  | inr earlier ↦ rw earlier (filter-true c rows)
]

-- What `list` answers from any number on, once it answers from one.
abbrev pub ListsBy : List Row → Option Text → (Row → Bool) → Type 0
ListsBy events id p =
    (c : ℕ) → list events (some c) id ≡ ok (filter (λ row. ltb c row.seq && p row) events)

pub list-ListsBy :
    (events : List Row) (a : ℕ) (id : Option Text) (rows : List Row)
    → list events (some a) id ≡ ok rows
    → (p : Row → Bool) × ListsBy events id p
unfolding list
list-ListsBy events a none rows h = (λ row. true, λ c. ap ok (filter-true c events))
list-ListsBy events a (some id) rows h = elim (Outcome-cases (request events (some id))) [
  | inl (found, e) ↦ (λ row. same_uuid row.message_id (some id), λ c. rw e refl)
  | inr (code, e) ↦ absurd (cc (rw e at h))
]

pub drop-all : (xs ys zs : List Row) → xs ++ ys ≡ zs → ltb (length xs) (length zs) ≡ false → ys ≡ []
drop-all xs [] zs e h = refl
drop-all xs (y ∷ ys) zs e h =
    let longer = length-append xs (y ∷ ys) in
    let fits = ltb-more (length xs) (length zs) h in
    absurd (omega (arith, longer, fits, ap length e))
