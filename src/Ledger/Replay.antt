-- ===== src/Ledger/Replay.antt =====
-- `EventStore.init` (src/core/events.mjs): the ledger is read back from its file. A last line that
-- was cut short is dropped and cut from the file; anything else that is wrong refuses the start.
-- Parameters: `is_utf8`, the fatal text decoder; `parse_row`, `JSON.parse` of one line together with
-- the tests that need no ledger: an object, a number `seq`, a text `type`, a time `at`.
pub mod RoundTrip
use universal_peer_mcp.Prelude.{
  ℕ, suc, ◌+◌, ◌*◌, leb, length, ◌≡◌, Bool, true, false, ◌&&◌, Option, none, some, List, [], ◌∷◌,
  ◌++◌, ◌==◌, if◌then◌else◌, Outcome, ok, err, ◌>>=◌,
}
use universal_peer_mcp.Limits.{is_row_type}
use universal_peer_mcp.Ledger.{Row}

abbrev pub lf : ℕ
lf = 10

-- `bytes.subarray(0, bytes.lastIndexOf(10) + 1)`. A file that ends in a line feed is kept whole.
pub complete : List ℕ → List ℕ
complete [] = []
complete (b ∷ bs) = elim (complete bs) [
  | [] ↦ if b == lf then b ∷ [] else []
  | c ∷ cs ↦ b ∷ (c ∷ cs)
]

-- `text.split("\n")` without its last element. `line` holds the current line.
pub lines_from : List ℕ → List ℕ → List (List ℕ)
lines_from line [] = []
lines_from line (b ∷ bs) =
    let closed = line ∷ lines_from [] bs in
    let longer = lines_from (line ++ b ∷ []) bs in if b == lf then closed else longer

-- `isEvent`, for a row that `parse_row` gives.
pub is_event : ℕ → Row → Bool
is_event expected row = row.seq == expected && is_row_type row.type

-- The file of the ledger: missing; or its bytes, and whether it is a regular file of this user that no one else
-- may open.
pub data LedgerFile : Type 0 where
  no_file : LedgerFile
  kept_file : Bool → List ℕ → LedgerFile

abbrev pub max_ledger_bytes : ℕ
max_ledger_bytes = 64 * 1024 * 1024

-- `assertPrivateFile`
abbrev pub assert_private_file : Bool → ℕ → List ℕ → Bool
assert_private_file is_owned max_bytes bytes = is_owned && leb (length bytes) max_bytes

module _ (is_utf8 : List ℕ → Bool) (parse_row : List ℕ → Option Row) where
  -- One round of the loop.
  read_line : ℕ → List ℕ → Outcome Row
  read_line expected [] = err none
  read_line expected (b ∷ bs) = elim (parse_row (b ∷ bs)) [
    | none ↦ err none
    | some row ↦ if is_event expected row then ok row else err none
  ]

  pub read_lines : ℕ → List (List ℕ) → Outcome (List Row)
  unfolding read_line
  read_lines expected [] = ok []
  read_lines expected (line ∷ lines) = do
    row ← read_line expected line
    rows ← read_lines (expected + 1) lines
    ok (row ∷ rows)

  -- The rows, and what is left of the file. A missing file is made, with nothing in it.
  unfoldable pub read_back : List ℕ → Outcome (List Row × List ℕ)
  unfolding complete lines_from read_lines is_event
  read_back bytes =
      let kept = complete bytes in
      if is_utf8 kept
      then (read_lines 1 (lines_from [] kept) >>= λ rows. ok (rows, kept))
      else err none

  unfoldable pub init : LedgerFile → Outcome (List Row × List ℕ)
  unfolding read_back
  init no_file = read_back []
  init (kept_file is_owned bytes) =
      if assert_private_file is_owned max_ledger_bytes bytes then read_back bytes else err none
