-- ===== src/Ledger/Sequence.antt =====
-- What one write does to the store (src/core/events.mjs): it adds one row at the end or nothing.
use universal_peer_mcp.Prelude.{
  ℕ, ◌+◌, ◌≡◌, refl, Bool, true, false, Option, none, List, [], ◌∷◌, ◌++◌, String, arith, length,
  Outcome, ok, err, inl, inr, Bool-cases, subst, sym, ◌≤◌, count, any, count-append, count-eq-zero,
}
use universal_peer_mcp.Limits.{max_event_bytes}
use universal_peer_mcp.Ledger.{
  Row, Fields, Store, Moment, fault, stamp, own_or, append, append_checked,
}

-- What a write from `s` has done, by how it ended.
abbrev pub Appended : Store → String → Fields → Outcome Row × Store → Type 0
Appended s type fields (ok event, s') =
    (s.poisoned ≡ none)
    × (s'.poisoned ≡ none)
    × (event.type ≡ type)
    × (event.fields ≡ fields)
    × (event.seq ≡ own_or fields.own_seq (length s.events + 1))
    × (s'.events ≡ s.events ++ event ∷ [])
    × (s'.told ≡ s.told ++ event ∷ [])
Appended s type fields (err code, s') = (s'.events ≡ s.events) × (s'.told ≡ s.told)

-- A store that has met a fault refuses every write with that fault and stays as it is.
abbrev pub Refused : Store → Option String → Outcome Row × Store → Type 0
Refused s code result = result ≡ (err code, s)

module _ (line_bytes : Row → ℕ) (m : Moment) (type : String) (fields : Fields) where
  pub append-Appended :
      (s : Store) (r : Outcome Row × Store)
      → append line_bytes m type fields s ≡ r
      → Appended s type fields r
  unfolding append stamp
  append-Appended s (ok event, s') h = ground arith
  append-Appended s (err code, s') h = ground arith

  pub append_checked-Appended :
      (conflict : List Row → Option String) (s : Store) (r : Outcome Row × Store)
      → append_checked line_bytes m type fields conflict s ≡ r
      → Appended s type fields r
  unfolding append_checked
  append_checked-Appended conflict s (ok event, s') h =
      ground (arith, append-Appended s (ok event, s'))
  append_checked-Appended conflict s (err code, s') h =
      ground (arith, append-Appended s (err code, s'))

  -- A checked write adds its row only to a ledger that the check has passed.
  pub append_checked-conflict :
      (conflict : List Row → Option String) (s : Store) (event : Row) (s' : Store)
      → append_checked line_bytes m type fields conflict s ≡ (ok event, s')
      → conflict s.events ≡ none
  unfolding append_checked
  append_checked-conflict conflict s event s' h = ground arith

-- The rows are numbered from `n` on, as `init` demands of a file.
abbrev pub IsNumberedFrom : ℕ → List Row → Type 0
IsNumberedFrom n [] = Unit
IsNumberedFrom n (row ∷ rows) = (row.seq ≡ n) × IsNumberedFrom (n + 1) rows

abbrev pub IsNumbered : List Row → Type 0
IsNumbered = IsNumberedFrom 1

pub IsNumberedFrom-snoc :
    (n : ℕ) (rows : List Row) (row : Row)
    → IsNumberedFrom n rows
    → row.seq ≡ n + length rows
    → IsNumberedFrom n (rows ++ row ∷ [])
IsNumberedFrom-snoc n [] row h e = (omega arith, tt)
IsNumberedFrom-snoc n (r ∷ rows) row (first, rest) e =
    (first, IsNumberedFrom-snoc (n + 1) rows row rest (omega arith))

-- The other way round: the last row of a numbered ledger carries the number of its place.
pub IsNumberedFrom-last :
    (n : ℕ) (rows : List Row) (row : Row)
    → IsNumberedFrom n (rows ++ row ∷ [])
    → row.seq ≡ n + length rows
IsNumberedFrom-last n [] row (e, _) = omega arith
IsNumberedFrom-last n (r ∷ rows) row (_, rest) =
    omega (arith, IsNumberedFrom-last (n + 1) rows row rest)

-- A write whose data names no `seq` keeps the numbering, however it ends.
pub append-IsNumbered :
    (line_bytes : Row → ℕ) (m : Moment) (type : String) (fields : Fields) (s : Store)
    → fields.own_seq ≡ none
    → IsNumbered s.events
    → IsNumbered (append line_bytes m type fields s).1.events
append-IsNumbered line_bytes m type fields s plain h =
    go (append line_bytes m type fields s) (append-Appended line_bytes m type fields s _ refl)
  where
    go : (r : Outcome Row × Store) → Appended s type fields r → IsNumbered r.1.events
    go (ok event, s') (_, _, _, _, number, grown, _) =
        subst IsNumbered (sym grown) (IsNumberedFrom-snoc 1 s.events event h (ground arith))
    go (err code, s') (same, _) = subst IsNumbered (sym same) h

-- Whatever the test, at most one row passes it if the new row passes only where none did.
pub count_once :
    (p : Row → Bool) (rows : List Row) (row : Row)
    → count p rows ≤ 1
    → (p row ≡ true → any p rows ≡ false)
    → count p (rows ++ row ∷ []) ≤ 1
count_once p rows row h first = elim (Bool-cases (p row)) [
  | inl hit ↦ rw (count-append p rows) (ground (arith, count-eq-zero p rows (first hit)))
  | inr miss ↦ rw (count-append p rows) (ground arith)
]

-- After a write of a row that is not too long meets a fault of the disk, the ledger stays as it is: the store
-- keeps the fault, reports it once, and every later write, plain or checked, throws it and changes nothing.
pub append-poisons :
    (line_bytes : Row → ℕ) (m : Moment) (type : String) (fields : Fields) (s : Store)
    (code : Option String)
    → s.poisoned ≡ none
    → m.disk ≡ fault code
    → line_bytes (stamp (length s.events + 1) type m.now fields) ≤ max_event_bytes
    → (append line_bytes m type fields s).0 ≡ err code
      × ((append line_bytes m type fields s).1.events ≡ s.events)
      × ((append line_bytes m type fields s).1.poison_reports ≡ s.poison_reports + 1)
      × ((m' : Moment) (type' : String) (fields' : Fields)
          → append line_bytes m' type' fields' (append line_bytes m type fields s).1
            ≡ (err code, (append line_bytes m type fields s).1))
      × ((m' : Moment) (type' : String) (fields' : Fields) (conflict : List Row → Option String)
          → append_checked line_bytes m' type' fields' conflict
              (append line_bytes m type fields s).1
            ≡ (err code, (append line_bytes m type fields s).1))
unfolding append append_checked
append-poisons line_bytes m type fields s code clean broken small = (
  ground arith,
  ground arith,
  ground arith,
  λ m' type' fields'. ground arith,
  λ m' type' fields' conflict. ground arith,
)

-- The same for a checked write, if a ledger that passes the check has no row of the new row's kind.
pub count-append_checked :
    (line_bytes : Row → ℕ) (m : Moment) (type : String) (fields : Fields)
    (test : List Row → Option String) (s : Store) (p : Row → Bool)
    → ((row : Row)
        → row.type ≡ type
        → row.fields ≡ fields
        → p row ≡ true
        → test s.events ≡ none
        → any p s.events ≡ false)
    → count p s.events ≤ 1
    → count p (append_checked line_bytes m type fields test s).1.events ≤ 1
count-append_checked line_bytes m type fields test s p sound h =
    go (append_checked line_bytes m type fields test s) refl
  where
    go :
        (r : Outcome Row × Store)
        → append_checked line_bytes m type fields test s ≡ r
        → count p r.1.events ≤ 1
    go (ok row, s') e =
        let (_, _, typed, data', _, grown, _) =
          append_checked-Appended line_bytes m type fields test s (ok row, s') e in
        let passed = append_checked-conflict line_bytes m type fields test s row s' e in
        subst (λ rows. count p rows ≤ 1) (sym grown)
          (count_once p s.events row h (λ hit. sound row typed data' hit passed))
    go (err code, s') e =
        let (same, _) = append_checked-Appended line_bytes m type fields test s (err code, s') e in
        subst (λ rows. count p rows ≤ 1) (sym same) h
