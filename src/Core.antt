-- ===== src/Core.antt =====
-- src/core/peer-core.mjs: sending. A `Line` is the ledger, the number of waits so far, and the messages that
-- were written to a session's socket; a `Net` answers for everything else: the targets, the resolver,
-- the socket, the disk and the clock, and what others do while a call waits.
pub mod Send
pub mod Owed
pub mod Transmits
pub mod Once
pub mod Reads
pub mod Ascending
pub mod Pages
mod Tests
use universal_peer_mcp.Prelude.{
  ℕ, ◌+◌, Bool, true, false, not, ◌&&◌, ◌||◌, Option, none, some, List, [], ◌∷◌, String, Text,
  lower, same_text, leb, ltb, str_eq, ◌==◌, if◌then◌else◌, any, all, length, Outcome, ok, err,
  refuse, ◌>>=◌,
}
use universal_peer_mcp.Limits.{
  max_body_bytes, is_digit, is_lower_letter, is_dash, head_then, same_uuid,
}
use universal_peer_mcp.Ledger.{Row, Fields, no_fields, is_type, Store, Moment, append}
use universal_peer_mcp.Receipts.{says}

-- A session that was found, as far as a snapshot and a send read it.
pub record Target : Type 0 where
  pub session : Option Text
  pub cwd : String
  pub socket_path : String
  pub pid : ℕ
  pub proc_start : String
  pub permission_mode : String
  pub permission_by : String

-- The answers of the resolver and of a succession: a session, or the reason that `resolveReason` or
-- `rebindReason` reads from the failure, with the number of the row that a failed succession wrote.
pub data Resolved : Type 0 where
  found : Target → Resolved
  lost : String → Option ℕ → Resolved

-- A message, its ids in lower case.
pub record Message : Type 0 where
  pub alias : String
  pub id : Text
  pub thread : Text
  pub reply : Option Text
  pub kind : Text
  pub body : Text

-- What goes into a socket: the first transport of a message, or the one of its recovery.
pub data Wire : Type 0 where
  first_wire : Text → Option Text → Wire
  second_wire : Text → Option Text → Wire

pub record Net : Type 0 where
  pub line_bytes : Row → ℕ
  pub utf8_length : Text → ℕ
  -- the JSON of a canonical message, and SHA-256
  pub json : Message → Text
  pub sha256 : Text → String
  pub moment : ℕ → Moment
  pub others : ℕ → Store → Store
  pub is_allowed : String → Bool
  pub resolver : ℕ → String → Resolved
  pub rebinder : Option (ℕ → String → Resolved)
  pub rendering : String
  -- the ids that are made at one moment, by their number
  pub random_id : ℕ → ℕ → Text
  -- the bytes that were written, or the code of the failure
  pub sender : ℕ → Outcome ℕ

pub record Line : Type 0 where
  pub store : Store
  pub waits : ℕ
  pub wires : List Wire

abbrev pub pause : Net → Line → Line
pause n l = record l { store = n.others l.waits l.store; waits = l.waits + 1 }

-- An operation of the ledger's chain, after others have run.
abbrev pub landed {ℓ} : {A : Type ℓ} → Line → Outcome A × Store → Outcome A × Line
landed l (o, s) = (o, record l { store = s; waits = l.waits + 1 })

abbrev pub append_line : Net → String → Fields → Line → Outcome Row × Line
append_line n type fields l =
    landed l (append n.line_bytes (n.moment l.waits) type fields (n.others l.waits l.store))

-- `canonicalSend` of src/core/dedupe.mjs, for ids that `requireUuid` has passed: the kind and the body.
abbrev pub is_kind : Text → Bool
is_kind =
    head_then is_lower_letter (λ c. is_lower_letter c || (is_digit c || (c == b'_' || is_dash c))) 1
      63

unfoldable pub canonical_send : Net → Message → Outcome Text
canonical_send n m =
    if not (is_kind m.kind)
    then err none
    else if length m.body == 0
        || (ltb max_body_bytes (n.utf8_length m.body) || any (λ c. c == 0) m.body)
    then err none
    else ok (n.json m)

-- `durableState`
abbrev has_status : String → String → List Row → Bool
has_status type status events = any (λ e. is_type type e && says e.status status) events

abbrev has_type : String → List Row → Bool
has_type type events = any (is_type type) events

unfoldable pub durable_state : List Row → String
durable_state events =
    if has_type "peer_terminal_failure" events
    then "terminal"
    else if has_type "peer_reply" events
    then "replied"
    else if has_type "peer_ack" events
    then "acknowledged"
    else if has_type "peer_idle_notice" events
    then "idle"
    else if has_status "peer_message_status" "delivered" events
    then "delivered"
    else if has_status "peer_message_status" "held" events
    then "held"
    else if has_type "send_failed" events
    then "uncertain_failure"
    else if has_type "socket_write_complete" events
    then "written"
    else if has_type "send_requested" events
    then "requested"
    else "unknown"

-- `#unavailable`: the row may fail, the refusal stands.
abbrev pub unavailable_fields : String → String → Option ℕ → Fields
unavailable_fields alias reason failed_seq = record no_fields {
  alias = some alias;
  reason = some reason;
  rebind_failed_seq = failed_seq;
}

abbrev pub unavailable : Net → String → String → Option ℕ → Line → Outcome Target × Line
unavailable n alias reason failed_seq l = (
  refuse "TARGET_UNAVAILABLE",
  (append_line n "target_resolve_failed" (unavailable_fields alias reason failed_seq) l).1,
)

-- The answer of a succession, after it has been waited for.
abbrev pub rebound : Net → String → Resolved → Line → Outcome Target × Line
rebound n alias (found t) l = (ok t, l)
rebound n alias (lost reason failed_seq) l = unavailable n alias reason failed_seq l

-- A failure of the resolver: only a session that is not live is looked for elsewhere.
abbrev pub after_lost : Net → String → String → Line → Outcome Target × Line
after_lost n alias reason l = elim n.rebinder [
  | none ↦ unavailable n alias reason none l
  | some rebind ↦
      if str_eq reason "no_live_session_for_session_id"
      then rebound n alias (rebind l.waits alias) (pause n l)
      else unavailable n alias reason none l
]

-- `#resolve`
unfoldable pub resolve : Net → String → Line → Outcome Target × Line
resolve n alias l = elim (n.resolver l.waits alias) [
  | found t ↦ (ok t, pause n l)
  | lost reason failed_seq ↦ after_lost n alias reason (pause n l)
]

-- `targetSnapshot`, as fields of a row
abbrev pub snapshot : Net → String → Target → Fields → Fields
snapshot n alias t fields = record fields {
  target_alias = some alias;
  target_session_id = t.session;
  target_cwd = some t.cwd;
  target_socket_path = some t.socket_path;
  target_pid = some t.pid;
  target_proc_start = some t.proc_start;
  target_proc_start_rendering = some n.rendering;
  target_permission_mode = some t.permission_mode;
  target_permission_verified_by = some t.permission_by;
}

-- `assertSnapshotRendering` and `assertSameSnapshot`
abbrev pub same_option_text : Option Text → Option Text → Bool
same_option_text none none = true
same_option_text none (some b) = false
same_option_text (some a) none = false
same_option_text (some a) (some b) = same_text a b

abbrev pub same_number : Option ℕ → ℕ → Bool
same_number none n = false
same_number (some m) n = m == n

unfoldable pub snapshot_fault : Net → Row → String → Target → Option String
snapshot_fault n prior alias t =
    if not (says prior.target_proc_start_rendering n.rendering)
    then some "SNAPSHOT_RENDERING_UNVERSIONED"
    else if not (says prior.target_alias alias)
        || (not (same_option_text prior.target_session_id t.session)
            || (not (says prior.target_cwd t.cwd)
                || (not (says prior.target_socket_path t.socket_path)
                    || (not (same_number prior.target_pid t.pid)
                        || (not (says prior.target_proc_start t.proc_start)
                            || (not (says prior.target_permission_mode t.permission_mode)
                                || not
                                    (says prior.target_permission_verified_by t.permission_by)))))))
    then some "RECOVERY_FORBIDDEN"
    else none
