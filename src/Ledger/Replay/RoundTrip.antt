-- ===== src/Ledger/Replay/RoundTrip.antt =====
-- A ledger that is written line by line is read back as it was (src/core/events.mjs): `init` after a
-- crash gives the rows whose lines were finished, and drops the torn line.
use universal_peer_mcp.Prelude.{
  ℕ, ◌+◌, ◌≡◌, ◌≢◌, refl, sym, ap, subst, ◌∙◌, Bool, true, not, Option, none, some, List, [], ◌∷◌,
  ◌++◌, arith, ◌==◌, if◌then◌else◌, all, All, Outcome, ok, err, ◌>>=◌, Bool-cases, inl, inr,
  append_assoc, append-nil, map, length, leb,
}
use universal_peer_mcp.Limits.{is_row_type}
use universal_peer_mcp.Ledger.{Row}
use universal_peer_mcp.Ledger.Sequence.{IsNumberedFrom, IsNumbered}
use universal_peer_mcp.Ledger.Replay.{
  lf, kept_file, max_ledger_bytes, read_back, complete, lines_from, is_event, read_line, read_lines,
  init,
}

-- No line feed among the bytes.
abbrev pub is_line : List ℕ → Bool
is_line = all (λ b. not (b == lf))

complete-torn : (torn : List ℕ) → is_line torn ≡ true → complete torn ≡ []
unfolding complete
complete-torn [] h = refl
complete-torn (b ∷ bs) h =
    let rest : complete bs ≡ [] = complete-torn bs (ground arith) in rw rest (ground arith)

complete-lf : (zs : List ℕ) → complete (lf ∷ zs) ≡ lf ∷ complete zs
unfolding complete
complete-lf zs = go (complete zs)
  where
    go : (r : List ℕ) → ◌≡◌ {A = List ℕ} (elim r [ [] ↦ lf ∷ [] | c ∷ cs ↦ lf ∷ (c ∷ cs) ]) (lf ∷ r)
    go [] = refl
    go (c ∷ cs) = refl

complete-cons :
    (b : ℕ) (bs : List ℕ) (c : ℕ) (cs : List ℕ)
    → complete bs ≡ c ∷ cs
    → complete (b ∷ bs) ≡ b ∷ (c ∷ cs)
unfolding complete
complete-cons b bs c cs e = rw e

complete-line : (line zs : List ℕ) → complete (line ++ lf ∷ zs) ≡ line ++ lf ∷ complete zs
complete-line [] zs = complete-lf zs
complete-line (b ∷ []) zs = complete-cons b (lf ∷ zs) lf (complete zs) (complete-lf zs)
complete-line (b ∷ (c ∷ line)) zs =
    complete-cons b (c ∷ (line ++ lf ∷ zs)) c (line ++ lf ∷ complete zs)
      (complete-line (c ∷ line) zs)

lines_from-line :
    (seen line zs : List ℕ)
    → is_line line ≡ true
    → lines_from seen (line ++ lf ∷ zs) ≡ (seen ++ line) ∷ lines_from [] zs
unfolding lines_from
lines_from-line seen [] zs h = rw append-nil
lines_from-line seen (b ∷ line) zs h =
    ground (arith, lines_from-line (seen ++ b ∷ []) line zs, append_assoc seen (b ∷ []) line)

-- The file of the store after its rows are written.
unfoldable pub file_of : (Row → List ℕ) → List Row → List ℕ
file_of print_row [] = []
file_of print_row (row ∷ rows) = print_row row ++ lf ∷ file_of print_row rows

-- What the source relies on of JSON: the line of a row is one line, not empty, and parses to the row.
pub record IsJsonRow (parse_row : List ℕ → Option Row) (print_row : Row → List ℕ) (row : Row)
    : Type 0 where
  pub printed_line : is_line (print_row row) ≡ true
  pub printed_some : (b : ℕ) × (bs : List ℕ) × (print_row row ≡ b ∷ bs)
  pub parse-print : parse_row (print_row row) ≡ some row

abbrev pub IsJson : (List ℕ → Option Row) → (Row → List ℕ) → List Row → Type 0
IsJson parse_row print_row = All (IsJsonRow parse_row print_row)

complete-file_of :
    (print_row : Row → List ℕ) (rows : List Row) (torn : List ℕ)
    → is_line torn ≡ true
    → complete (file_of print_row rows ++ torn) ≡ file_of print_row rows
unfolding file_of
complete-file_of print_row [] torn h = complete-torn torn h
complete-file_of print_row (row ∷ rows) torn h = simp append_assoc (
    complete-line (print_row row) (file_of print_row rows ++ torn)
    ∙ ap (λ t. print_row row ++ lf ∷ t) (complete-file_of print_row rows torn h))

module _ (is_utf8 : List ℕ → Bool) (parse_row : List ℕ → Option Row)
    (print_row : Row → List ℕ) where
  lines_from-file_of :
      (rows : List Row)
      → IsJson parse_row print_row rows
      → lines_from [] (file_of print_row rows) ≡ map print_row rows
  unfolding file_of lines_from
  lines_from-file_of [] json = refl
  lines_from-file_of (row ∷ rows) (j, json) =
      lines_from-line [] (print_row row) (file_of print_row rows) j.printed_line
      ∙ ap (λ t. print_row row ∷ t) (lines_from-file_of rows json)

  read_line-cons :
      (n b : ℕ) (bs : List ℕ) (row : Row)
      → parse_row (b ∷ bs) ≡ some row
      → read_line is_utf8 parse_row n (b ∷ bs) ≡ (if is_event n row then ok row else err none)
  unfolding read_line
  read_line-cons n b bs row e = rw (e, read_line)

  read_line-print :
      (n : ℕ) (row : Row)
      → IsJsonRow parse_row print_row row
      → read_line is_utf8 parse_row n (print_row row)
        ≡ (if is_event n row then ok row else err none)
  read_line-print n row j =
      let (b, bs, e) = j.printed_some in
      subst
        (λ line. read_line is_utf8 parse_row n line ≡ (if is_event n row then ok row else err none))
        (sym e)
        (read_line-cons n b bs row (subst (λ line. parse_row line ≡ some row) e j.parse-print))

  -- The rows of a numbered ledger with proper types are read back.
  read_lines-print :
      (n : ℕ) (rows : List Row)
      → IsJson parse_row print_row rows
      → IsNumberedFrom n rows
      → All (λ row. is_row_type row.type ≡ true) rows
      → read_lines is_utf8 parse_row n (map print_row rows) ≡ ok rows
  unfolding read_lines is_event
  read_lines-print n [] json h k = refl
  read_lines-print n (row ∷ rows) (j, json) (here, rest) (typed, types) =
      let event : is_event n row ≡ true = ground arith in
      let first : read_line is_utf8 parse_row n (print_row row) ≡ ok row =
        read_line-print n row j ∙ (rw event) in
      rw (first, read_lines-print (n + 1) rows json rest types)

  -- What is read back, if anything is, is numbered.
  read_lines-numbered :
      (n : ℕ) (rows rows' : List Row)
      → IsJson parse_row print_row rows
      → read_lines is_utf8 parse_row n (map print_row rows) ≡ ok rows'
      → IsNumberedFrom n rows
  unfolding read_lines is_event
  read_lines-numbered n [] rows' json h = tt
  read_lines-numbered n (row ∷ rows) rows' (j, json) h = elim (Bool-cases (is_event n row)) [
    | inr bad ↦
        let first : read_line is_utf8 parse_row n (print_row row) ≡ err none =
          read_line-print n row j ∙ (rw bad) in
        absurd (cc (rw (first, read_lines) at h))
    | inl event ↦
        let first : read_line is_utf8 parse_row n (print_row row) ≡ ok row =
          read_line-print n row j ∙ (rw event) in
        (
          ground arith,
          rest (λ found. read_lines-numbered (n + 1) rows found json)
              (read_lines is_utf8 parse_row (n + 1) (map print_row rows)) refl
              (rw (first, read_lines) at h),
        )
  ]
    where
      rest :
          ((found : List Row)
            → read_lines is_utf8 parse_row (n + 1) (map print_row rows) ≡ ok found
            → IsNumberedFrom (n + 1) rows)
          → (r : Outcome (List Row)) → read_lines is_utf8 parse_row (n + 1) (map print_row rows) ≡ r
          → (r >>= λ found. ok (row ∷ found)) ≡ ok rows'
          → IsNumberedFrom (n + 1) rows
      rest ih (ok found) e k = ih found e
      rest ih (err code) e k = absurd (cc)

-- After a crash the store starts with every row whose line was finished, and the file is cut to them: of a
-- private file of 64 MiB at most, with a numbered ledger whose types have the shape of one, under the laws of
-- JSON lines.
pub init-file_of :
    (is_utf8 : List ℕ → Bool) (parse_row : List ℕ → Option Row) (print_row : Row → List ℕ)
    (rows : List Row) (torn : List ℕ)
    → IsJson parse_row print_row rows
    → is_utf8 (file_of print_row rows) ≡ true
    → IsNumbered rows
    → All (λ row. is_row_type row.type ≡ true) rows
    → is_line torn ≡ true
    → leb (length (file_of print_row rows ++ torn)) max_ledger_bytes ≡ true
    → init is_utf8 parse_row (kept_file true (file_of print_row rows ++ torn))
      ≡ ok (rows, file_of print_row rows)
unfolding init read_back
init-file_of is_utf8 parse_row print_row rows torn json readable numbered typed cut small = rw (
  small,
  complete-file_of print_row rows torn cut,
  readable,
  lines_from-file_of is_utf8 parse_row print_row rows json,
  read_lines-print is_utf8 parse_row print_row 1 rows json numbered typed,
)

init-reads :
    (is_utf8 : List ℕ → Bool) (parse_row : List ℕ → Option Row) (bytes : List ℕ)
    (found : List Row × List ℕ)
    → read_back is_utf8 parse_row bytes ≡ ok found
    → read_lines is_utf8 parse_row 1 (lines_from [] (complete bytes)) ≡ ok found.0
unfolding read_back
init-reads is_utf8 parse_row bytes found h =
    go (read_lines is_utf8 parse_row 1 (lines_from [] (complete bytes))) (ground arith)
  where
    go :
        (r : Outcome (List Row))
        → (r >>= λ rows. ok (rows, complete bytes)) ≡ ok found
        → r ≡ ok found.0
    go (ok rows) e = ground arith
    go (err code) e = absurd (cc)

-- A ledger whose rows are not numbered from 1 on refuses the start: `init` gives no rows for it.
pub init-refuses :
    (is_utf8 : List ℕ → Bool) (parse_row : List ℕ → Option Row) (print_row : Row → List ℕ)
    (is_owned : Bool) (rows : List Row) (torn : List ℕ) (found : List Row × List ℕ)
    → IsJson parse_row print_row rows
    → is_line torn ≡ true
    → ¬ (IsNumbered rows)
    → init is_utf8 parse_row (kept_file is_owned (file_of print_row rows ++ torn)) ≢ ok found
unfolding init
init-refuses is_utf8 parse_row print_row is_owned rows torn found json cut broken h = broken (
    read_lines-numbered is_utf8 parse_row print_row 1 rows found.0 json (
      subst (λ lines. read_lines is_utf8 parse_row 1 lines ≡ ok found.0)
        (ap (lines_from []) (complete-file_of print_row rows torn cut)
          ∙ lines_from-file_of is_utf8 parse_row print_row rows json)
        (init-reads is_utf8 parse_row (file_of print_row rows ++ torn) found (ground arith))))
