-- ===== src/Doorbells.antt =====
-- src/core/doorbell-service.mjs: one ring for each accepted post. A `Bell` is the ledger, the number of
-- waits so far, and the rings that were sent out; a `Host` answers for everything else: the disk and the
-- clock, what others do while the service waits, the peer tables, and the transports, whose answers
-- are taken as they come (extensions/codex-queue and core/peer-core.mjs behind them are not modelled).
pub mod Ring
pub mod Sweep
pub mod Again
pub mod Counts
pub mod Bounds
pub mod Keeps
pub mod Reach
pub mod Aims
pub mod Sends
pub mod Targets
mod Tests
use universal_peer_mcp.Prelude.{
  ℕ, zero, suc, ◌+◌, Bool, true, false, not, ◌&&◌, ◌||◌, Option, none, some, List, [], ◌∷◌, ◌++◌,
  String, Text, codes, lower, same_text, ltb, str_eq, ◌==◌, if◌then◌else◌, any, find?, Outcome, ok,
  err,
}
use Prim.Native.Nat.{◌/◌, ◌%◌}
use universal_peer_mcp.Limits.{is_code, same_uuid}
use universal_peer_mcp.Ledger.{
  Row, Fields, no_fields, is_type, Store, Moment, append, append_checked,
}
use universal_peer_mcp.Ledger.Requests.{is_for}
use universal_peer_mcp.Receipts.{says, uuidv5}

-- What goes out: a wake of a thread under an attempt's key, one entry of the queue of a thread, or one
-- line into a session under an id.
pub data Sent : Type 0 where
  woke : Option Text → Text → Sent
  queued : Option Text → Sent
  wrote : Option Text → Text → Sent

-- The answers of the transports. `wake` says whether the doorbell is held behind a running turn;
-- `sendClaude` whether it replayed an earlier send, and then how far that one came.
pub data Woken : Type 0 where
  woken : Bool → Woken
  wake_failed : Option String → Woken

pub data Written : Type 0 where
  written : Written
  replayed : Option String → Written
  write_failed : Option String → Written

pub record Host : Type 0 where
  pub line_bytes : Row → ℕ
  pub sha1 : List ℕ → List ℕ
  pub moment : ℕ → Moment
  pub others : ℕ → Store → Store
  pub now : ℕ → ℕ
  pub codex_peer : ℕ → String → Option Text
  pub claude_peer : ℕ → String → Option Text
  pub is_running : ℕ → Text → Bool
  pub configured : Bool
  pub pinned_version : Option String
  pub cli_version : ℕ → Option String
  pub wake : ℕ → Woken
  pub enqueue : ℕ → Option (Option String)
  pub sends_claude : Bool
  pub send_claude : ℕ → Written
  -- some wording of the doorbell has the request hash of this reservation
  pub known_wording : Row → Bool
  pub is_live : ℕ → Text → Bool

pub record Bell : Type 0 where
  pub store : Store
  pub waits : ℕ
  pub sent : List Sent

-- Others run.
abbrev pub wait : Host → Bell → Bell
wait h b = record b { store = h.others b.waits b.store; waits = b.waits + 1 }

-- Something goes out, and the service waits for the answer.
abbrev pub send_out : Host → Sent → Bell → Bell
send_out h r b = wait h (record b { sent = r ∷ b.sent })

-- The answer of a write, with the ledger that it leaves.
abbrev pub written_to : Bell → Outcome Row × Store → Outcome Row × Bell
written_to b (o, s) = (o, record b { store = s; waits = b.waits + 1 })

abbrev pub append_row : Host → String → Fields → Bell → Outcome Row × Bell
append_row h type fields b =
    written_to b (append h.line_bytes (h.moment b.waits) type fields (h.others b.waits b.store))

abbrev pub append_claim :
    Host → String → Fields → (List Row → Option String) → Bell → Outcome Row × Bell
append_claim h type fields test b =
    written_to b
      (append_checked h.line_bytes (h.moment b.waits) type fields test (h.others b.waits b.store))

-- `code`
abbrev pub ring_code : Option String → String
ring_code none = "WAKE_FAILED"
ring_code (some c) = if is_code c then c else "WAKE_FAILED"

-- `post`, `outcome` and `processed`
abbrev pub post_of : Text → List Row → Option Row
post_of id = find? (is_for "peer_post" (some id))

abbrev pub outcome_of : Text → List Row → Option Row
outcome_of id = find? (is_for "doorbell_outcome" (some id))

abbrev pub is_done : Text → List Row → Bool
is_done id = any (is_for "peer_post_processed" (some id))

abbrev pub text_or_empty : Option Text → Text
text_or_empty none = []
text_or_empty (some t) = t

abbrev pub id_of : Row → Text
id_of post = text_or_empty post.message_id

abbrev pub is_codex : Row → Bool
is_codex post = says post.recipient_kind "codex"

abbrev pub has_session : Row → Bool
has_session post = is_codex post || says post.recipient_kind "claude"

-- `#relinks`: the last relink of a message, by the lower case of its id.
pub last_row : (Row → Bool) → Option Row → List Row → Option Row
last_row p found [] = found
last_row p found (row ∷ rows) = last_row p (if p row then some row else found) rows

abbrev pub is_relink_of : Text → Row → Bool
is_relink_of id row =
    is_type "peer_post_relinked" row
    && elim row.message_id [ none ↦ false | some m ↦ same_text (lower m) (lower id) ]

unfoldable pub relink_of : Row → List Row → Option Row
unfolding last_row
relink_of post events = last_row (is_relink_of (id_of post)) none events

-- `generationOf`
abbrev pub generation_of : Row → List Row → ℕ
generation_of post events = elim (relink_of post events) [ none ↦ 0 | some r ↦ r.seq ]

abbrev pub or_else : Option Text → Option Text → Option Text
or_else none other = other
or_else (some t) other = some t

abbrev pub bound_field : Row → Row → Option Text
bound_field post row = if is_codex post then row.recipient_thread_id else row.recipient_session_id

-- `bindingOf`
unfoldable pub binding_of : Row → List Row → Option Text
binding_of post events = elim (relink_of post events) [
  | none ↦ bound_field post post
  | some r ↦ or_else (bound_field post r) (bound_field post post)
]

-- A number in decimal, on as much fuel as the number itself.
digits : ℕ → ℕ → Text
digits zero n = (b'0' + n % 10) ∷ []
digits (suc f) n = elim (ltb n 10) [
  | true ↦ (b'0' + n) ∷ []
  | false ↦ digits f (n / 10) ++ (b'0' + n % 10) ∷ []
]

-- `attemptKeyOf` and `claudeTransportIdOf`
relink_key : (List ℕ → List ℕ) → Text → ℕ → Text
relink_key sha1 id g = uuidv5 sha1 (codes "doorbell:" ++ lower id ++ codes ":relink:" ++ digits g g)

-- `attemptOf`
pub record Attempt : Type 0 where
  pub generation : ℕ
  pub binding : Option Text
  pub attempt_key : Text
  pub claude_id : Text

unfoldable pub attempt_of : Host → Row → List Row → Attempt
unfolding relink_key digits binding_of relink_of
attempt_of h post events =
    let g = generation_of post events in
    record {
      generation = g;
      binding = binding_of post events;
      attempt_key = if g == 0 then id_of post else relink_key h.sha1 (id_of post) g;
      claude_id =
          if g == 0
          then uuidv5 h.sha1 (codes "doorbell:" ++ id_of post)
          else relink_key h.sha1 (id_of post) g;
    }

-- The session or thread that an alias names now.
abbrev pub current_peer : Host → ℕ → Row → String → Option Text
current_peer h k post alias = if is_codex post then h.codex_peer k alias else h.claude_peer k alias

abbrev pub is_some : Option Text → Bool
is_some none = false
is_some (some t) = true

-- `authorize`, for the attempt that a ring holds: `none` stands for true. First the end of it, for the
-- session or thread that the attempt is bound to.
unfoldable pub authorize_alias :
    Host → ℕ → Option String → Text → Option Text → List Row → Row → Option String
authorize_alias h k none id bound events post = some "WAKE_NOT_RECIPIENT"
authorize_alias h k (some a) id bound events post =
    if not (says post.recipient a) || (not (has_session post) || not (is_some bound))
    then some "WAKE_NOT_RECIPIENT"
    else if is_done id events
    then some "WAKE_ALREADY_PROCESSED"
    else if not (same_uuid (current_peer h k post a) bound)
    then some "WAKE_TARGET_MISMATCH"
    else none

unfoldable pub authorize : Host → ℕ → Option String → Text → Attempt → List Row → Option String
unfolding attempt_of authorize_alias
authorize h k alias id attempt events = elim (post_of id events) [
  | none ↦ some "WAKE_UNKNOWN_MESSAGE"
  | some post ↦
      if not (same_text attempt.attempt_key (attempt_of h post events).attempt_key)
      then some "WAKE_GENERATION_STALE"
      else if not (attempt.generation == generation_of post events)
      then some "WAKE_GENERATION_STALE"
      else authorize_alias h k alias id (or_else attempt.binding (binding_of post events)) events
          post
]
