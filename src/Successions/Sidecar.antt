-- ===== src/Successions/Sidecar.antt =====
-- The two files that a succession writes: `rebindTargetSessionId` of src/core/target-config.mjs, and
-- src/core/rebind-sidecar.mjs, the switch and the history beside the target table.
use universal_peer_mcp.Prelude.{
  ℕ, ◌-◌, Bool, true, false, not, ◌||◌, Option, none, some, List, [], ◌∷◌, ◌++◌, String, Text, leb,
  ltb, str_eq, if◌then◌else◌, filter, length, drop, Outcome, ok, err, ◌>>=◌,
}
use universal_peer_mcp.Limits.{same_uuid, require_uuid}

-- A row of the table: the session, and the fields that are copied through.
pub record Entry : Type 0 where
  pub session : Option Text
  pub others : String

abbrev pub TargetTable : Type 0
TargetTable = List (String × Entry)

abbrev pub entry_of : String → TargetTable → Option Entry
entry_of alias [] = none
entry_of alias ((name, entry) ∷ table) =
    if str_eq name alias then some entry else entry_of alias table

abbrev pub with_session : String → Text → TargetTable → TargetTable
with_session alias next [] = []
with_session alias next ((name, entry) ∷ table) =
    let rest = with_session alias next table in
    if str_eq name alias
    then (name, record entry { session = some next }) ∷ table
    else (name, entry) ∷ rest

-- A file with the answers that a reading and a writing of it meet.
pub record TableFile : Type 0 where
  pub table : TargetTable
  pub read_fault : Option (Option String)
  pub write_fault : Option (Option String)

pub record Moved : Type 0 where
  pub changed : Bool
  pub now : Text
  pub previous : Option Text

abbrev pub fault_or {ℓ} : {A : Type ℓ} → Option (Option String) → A → Outcome A
fault_or none a = ok a
fault_or (some code) a = err code

abbrev pub entry_or_err : Option Entry → Outcome Entry
entry_or_err none = err none
entry_or_err (some entry) = ok entry

-- The file is replaced as a whole.
abbrev pub write_table : TableFile → TargetTable → Moved → Outcome Moved × TargetTable
write_table file next moved = elim file.write_fault [
  | none ↦ (ok moved, next)
  | some code ↦ (err code, file.table)
]

abbrev pub move_to : TableFile → String → Text → Text → Outcome Moved × TargetTable
move_to file alias held next =
    if same_uuid (some held) (some next)
    then (ok (record { changed = false; now = held; previous = none }), file.table)
    else write_table file (with_session alias next file.table)
        (record { changed = true; now = next; previous = some held })

abbrev pub moved_from : TableFile → String → Outcome (Text × Text) → Outcome Moved × TargetTable
moved_from file alias (err code) = (err code, file.table)
moved_from file alias (ok (held, next)) = move_to file alias held next

-- `rebindTargetSessionId`
unfoldable pub rebind_target_session_id : TableFile → String → Text → Outcome Moved × TargetTable
rebind_target_session_id file alias next_id = moved_from file alias (
    fault_or file.read_fault file.table >>= λ table.
    entry_or_err (entry_of alias table) >>= λ entry.
    require_uuid entry.session >>= λ held. require_uuid (some next_id) >>= λ next. ok (held, next))

-- The file beside the table, as it is parsed: a mode, if there is one, and the ids of each alias.
abbrev pub max_previous_session_ids : ℕ
max_previous_session_ids = 8

abbrev pub max_aliases : ℕ
max_aliases = 128

abbrev pub History : Type 0
History = List (String × List Text)

pub record SideState : Type 0 where
  pub mode : Option String
  pub history : History

pub data SideFile : Type 0 where
  absent : SideFile
  broken : Option String → SideFile
  present : SideState → SideFile

pub record RebindState : Type 0 where
  pub mode : String
  pub history : History
  pub is_present : Bool

abbrev pub absent_state : RebindState
absent_state = record { mode = "proof"; history = []; is_present = false }

abbrev pub is_mode : String → Bool
is_mode mode = str_eq mode "proof" || str_eq mode "off"

pub checked_ids : List Text → Outcome (List Text)
checked_ids [] = ok []
checked_ids (id ∷ ids) = require_uuid (some id) >>= λ i. checked_ids ids >>= λ rest. ok (i ∷ rest)

abbrev pub few_ids : List Text → Outcome (List Text)
few_ids ids = if ltb max_previous_session_ids (length ids) then err none else ok ids

pub checked_history : History → Outcome History
checked_history [] = ok []
checked_history ((alias, ids) ∷ history) = few_ids ids >>= checked_ids >>= λ is.
    checked_history history >>= λ rest. ok ((alias, is) ∷ rest)

abbrev pub mode_or_default : Option String → String
mode_or_default none = "proof"
mode_or_default (some mode) = mode

-- `readRebindState`
unfoldable pub read_rebind_state : SideFile → Outcome RebindState
unfolding checked_ids checked_history
read_rebind_state absent = ok absent_state
read_rebind_state (broken code) = err code
read_rebind_state (present state) =
    if not (is_mode (mode_or_default state.mode))
    then err none
    else if ltb max_aliases (length state.history)
    then err none
    else checked_history state.history >>= λ history.
        ok (record { mode = mode_or_default state.mode; history = history; is_present = true })

-- `previousSessionIdsFor`
unfoldable pub previous_session_ids_for : History → String → List Text
previous_session_ids_for [] alias = []
previous_session_ids_for ((name, ids) ∷ history) alias =
    let rest = previous_session_ids_for history alias in if str_eq name alias then ids else rest

-- `history[alias] = ids`: in its place, or at the end.
unfoldable pub set_ids : String → List Text → History → History
set_ids alias ids [] = (alias, ids) ∷ []
set_ids alias ids ((name, old) ∷ history) =
    let rest = set_ids alias ids history in
    if str_eq name alias then (name, ids) ∷ history else (name, old) ∷ rest

-- `slice(-n)`
abbrev pub last_of {ℓ} : {A : Type ℓ} → ℕ → List A → List A
last_of n xs = drop (length xs - n) xs

abbrev pub kept_ids : ℕ → List Text → Text → List Text
kept_ids kept ids held =
    last_of kept (filter (λ id. not (same_uuid (some id) (some held))) ids ++ held ∷ [])

abbrev pub at_most : ℕ → ℕ → ℕ
at_most a b = if leb a b then a else b

abbrev pub kept_count : ℕ → ℕ
kept_count max_previous =
    let n = at_most max_previous max_previous_session_ids in if leb 1 n then n else 1

abbrev pub state_or_absent : Outcome RebindState → RebindState
state_or_absent (ok state) = state
state_or_absent (err code) = absent_state

abbrev pub stored_mode : RebindState → Option String
stored_mode state = if state.is_present then some state.mode else none

-- What is written: the mode only if the file had one.
unfoldable pub next_state : ℕ → String → Text → SideFile → SideState
unfolding read_rebind_state previous_session_ids_for set_ids
next_state max_previous alias held file =
    let stored = state_or_absent (read_rebind_state file) in
    record {
      mode = stored_mode stored;
      history =
          set_ids alias
            (kept_ids (kept_count max_previous) (previous_session_ids_for stored.history alias)
              held)
            stored.history;
    }

abbrev pub write_side :
    Option (Option String) → SideFile → String → SideState → Outcome (List Text) × SideFile
write_side none file alias state =
    (ok (previous_session_ids_for state.history alias), present state)
write_side (some code) file alias state = (err code, file)

abbrev pub recorded_as :
    ℕ → Option (Option String) → SideFile → String → Outcome Text → Outcome (List Text) × SideFile
recorded_as max_previous fault file alias (err code) = (err code, file)
recorded_as max_previous fault file alias (ok held) =
    write_side fault file alias (next_state max_previous alias held file)

-- `recordSuccession`
unfoldable pub record_succession :
    ℕ → Option (Option String) → SideFile → String → Option Text → Outcome (List Text) × SideFile
unfolding next_state
record_succession max_previous fault file alias previous =
    recorded_as max_previous fault file alias (require_uuid previous)
