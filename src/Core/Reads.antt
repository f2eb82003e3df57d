-- ===== src/Core/Reads.antt =====
-- src/core/peer-core.mjs: `events`, a page of the ledger and the cursor to read on from.
use universal_peer_mcp.Prelude.{
  ℕ, ◌+◌, ◌*◌, Bool, not, ◌&&◌, Option, none, some, List, [], ◌∷◌, Text, leb, ltb, if◌then◌else◌,
  length, Outcome, ok, err, ◌>>=◌,
}
use universal_peer_mcp.Ledger.{Row}
use universal_peer_mcp.Ledger.Requests.{list}

abbrev pub max_page_bytes : ℕ
max_page_bytes = 512 * 1024

-- `afterSeq` is missing, a number, or something else.
pub data After : Type 0 where
  from_start : After
  after_seq : ℕ → After
  no_number : After

pub record Page : Type 0 where
  pub cursor : ℕ
  pub has_more : Bool
  pub events : List Row

abbrev pub after_number : After → Option ℕ
after_number from_start = some 0
after_number (after_seq n) = some n
after_number no_number = none

abbrev pub cursor_of : After → ℕ
cursor_of from_start = 0
cursor_of (after_seq n) = n
cursor_of no_number = 0

-- The rows of a page: as many as `limit`, of at most the bytes together.
unfoldable pub take_page : (Row → ℕ) → ℕ → ℕ → List Row → List Row
take_page size limit bytes [] = []
take_page size ℕ.zero bytes (row ∷ rows) = []
take_page size (ℕ.suc limit) bytes (row ∷ rows) =
    let rest = take_page size limit (bytes + (size row + 1)) rows in
    if ltb max_page_bytes (bytes + (size row + 1)) then [] else row ∷ rest

-- `at(-1)?.seq`
unfoldable pub end_seq : ℕ → List Row → ℕ
end_seq n [] = n
end_seq n (row ∷ rows) = end_seq row.seq rows

abbrev pub page_of : (Row → ℕ) → ℕ → ℕ → List Row → List Row → Page
page_of size limit after events matching =
    let taken = take_page size limit 0 matching in
    let has_more = ltb (length taken) (length matching) in
    record {
      cursor = if has_more then end_seq after taken else end_seq 0 events;
      has_more = has_more;
      events = taken;
    }

abbrev pub limit_or : Option ℕ → ℕ
limit_or none = 100
limit_or (some limit) = limit

-- `events`. A limit that is no natural number is refused, as 0 is.
unfoldable pub events_page : (Row → ℕ) → Option ℕ → After → Option Text → List Row → Outcome Page
unfolding take_page end_seq
events_page size limit after id events =
    if not (leb 1 (limit_or limit) && leb (limit_or limit) 1000)
    then err none
    else list events (after_number after) id >>= λ matching.
        ok (page_of size (limit_or limit) (cursor_of after) events matching)
