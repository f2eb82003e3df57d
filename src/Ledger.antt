-- ===== src/Ledger.antt =====
-- src/core/events.mjs: the event store. Every write passes through the store's promise chain, so an
-- operation of the chain is one function from store to store; what its caller does before and after
-- is a step of its own. The answers of the disk and of the clock at a write are its `Moment`.
mod Rows
pub mod Requests
pub mod Replay
pub mod Sequence
pub mod Reserve
mod Tests
pub use Rows.*
use universal_peer_mcp.Prelude.{
  ℕ, suc, ◌+◌, ◌≡◌, Bool, true, false, ◌&&◌, ◌||◌, Option, none, some, List, [], ◌∷◌, ◌++◌, String,
  Text, ltb, str_eq, if◌then◌else◌, length, find?, filter, Outcome, ok, err, refuse,
}
use universal_peer_mcp.Limits.{max_event_bytes, same_uuid, is_code, is_row_type, reference_matches}

-- The disk's answer to opening, writing and syncing the file, and the clock's.
pub data Disk : Type 0 where
  synced : Disk
  fault : Option String → Disk

pub record Moment : Type 0 where
  pub now : ℕ
  pub disk : Disk

-- The fields of `EventStore`; the hooks' calls are recorded in the order in which they are made.
pub record Store : Type 0 where
  pub events : List Row
  pub poisoned : Option (Option String)
  pub last_append_at : Option ℕ
  pub last_error : Option (String × ℕ)
  pub told : List Row
  pub poison_reports : ℕ

-- `constructor`
abbrev pub fresh : Store
fresh = record {
  events = [];
  poisoned = none;
  last_append_at = none;
  last_error = none;
  told = [];
  poison_reports = 0;
}

-- `#failed`: the code is kept if it has the shape of one.
pub fault_code : Option String → String
fault_code none = "APPEND_FAILED"
fault_code (some code) = if is_code code then code else "APPEND_FAILED"

pub failed : ℕ → Option String → Store → Store
failed now code s = record s { last_error = some (fault_code code, now) }

-- `{ seq: this.events.length + 1, type, at, ...data }`: a `seq` among the data replaces the count.
abbrev pub own_or : Option ℕ → ℕ → ℕ
own_or none n = n
own_or (some seq) n = seq

unfoldable pub stamp : ℕ → String → ℕ → Fields → Row
stamp n type at fields = record {
  seq = own_or fields.own_seq n;
  type = type;
  at = at;
  fields = fields;
}

-- Parameters: the length in bytes of a row's line, `Buffer.byteLength(JSON.stringify(event) + "\n")`.
module _ (line_bytes : Row → ℕ) where
  -- The disk's part of `#write`. `onPoisoned` is called at the first fault; `onAppend` is told of
  -- the row after it is durable.
  store_row : Moment → Row → Store → Outcome Row × Store
  store_row m event s = elim m.disk [
    | synced ↦ (
      ok event,
      record s {
        events = s.events ++ event ∷ [];
        last_append_at = some m.now;
        told = s.told ++ event ∷ [];
      },
    )
    | fault code ↦ (
      err code,
      record (failed m.now code s) { poisoned = some code; poison_reports = s.poison_reports + 1 },
    )
  ]

  -- `#write`
  unfoldable pub append : Moment → String → Fields → Store → Outcome Row × Store
  unfolding store_row failed
  append m type fields s = elim s.poisoned [
    | some code ↦ (err code, s)
    | none ↦
        let event = stamp (length s.events + 1) type m.now fields in
        if ltb max_event_bytes (line_bytes event)
        then (refuse "EVENT_TOO_LARGE", failed m.now (some "EVENT_TOO_LARGE") s)
        else store_row m event s
  ]

  -- `appendChecked`: the check sees the ledger inside the chain.
  unfoldable pub append_checked :
      Moment → String → Fields → (List Row → Option String) → Store → Outcome Row × Store
  unfolding append
  append_checked m type fields conflict s = elim s.poisoned [
    | some code ↦ (err code, s)
    | none ↦ elim (conflict s.events) [
      | some code ↦ (refuse code, s)
      | none ↦ append m type fields s
    ]
  ]
