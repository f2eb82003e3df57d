-- ===== src/Frames.antt =====
-- src/core/peer-core.mjs: what a peer writes into the daemon's socket. `acceptFrame` and its parts stand in
-- Accept, the handler around it in Observe. A `Station` answers for what the frames' code is given: the hooks,
-- the disk and the encoding of texts; `net` for the ledger, the clock and what others do.
pub mod Accept
pub mod Observe
pub mod Attested
pub mod Finds
pub mod Steps
pub mod Named
pub mod Sound
pub mod Evidence
mod Tests
use universal_peer_mcp.Prelude.{
  ℕ, ◌+◌, Bool, true, false, not, ◌&&◌, ◌||◌, Option, none, some, List, [], ◌∷◌, String, Text,
  lower, same_text, leb, ltb, str_eq, ◌==◌, if◌then◌else◌, any, filter, length, Outcome, ok, err,
  refuse,
}
use universal_peer_mcp.Limits.{same_uuid, reference_matches, is_dash, bare_hex, text_starts_with}
use universal_peer_mcp.Ledger.{Row, Fields, Header, no_fields, Store, Moment}
use universal_peer_mcp.Ledger.Requests.{
  request, Lookup, ambiguous, missing, unique, request_by_reference,
}
use universal_peer_mcp.Receipts.{says}
use universal_peer_mcp.Posts.{World, Who}
use universal_peer_mcp.Core.{Net, Line, pause, append_line}
use universal_peer_mcp.Protocol.{Marker}
use universal_peer_mcp.Protocol.Header.{protocol_header}
use universal_peer_mcp.Processes.{normalize_proc_start}

-- The process that the kernel names as the writer.
pub record Peer : Type 0 where
  pub pid : ℕ
  pub proc_start : Option String

-- A frame, as far as it is read; a field of another type than the code asks for is `none`.
pub record Frame : Type 0 where
  pub is_control : Bool
  pub action : Option String
  pub orig_msg_id : Option Text
  pub status : Option String
  pub state : Option String
  pub from : Option Text
  pub content : Option Text

-- The answer of `senderResolver`.
pub data Auth : Type 0 where
  authenticated : String → Text → Auth
  unauthenticated : String → Auth

-- `recipientFieldsOf`: a kind and a session or a thread.
pub record Bound : Type 0 where
  pub kind : Option String
  pub session : Option Text
  pub thread : Option Text

pub record Station : Type 0 where
  pub net : Net
  pub hidden_in : Text → Bool
  -- the UTF-8 bytes of a text and their number for a string
  pub encode : Text → List ℕ
  pub string_bytes : String → ℕ
  pub sha256 : List ℕ → String
  pub has_spool : Bool
  -- the name of the file and the failure of the write, if it fails
  pub spool_name : ℕ → String
  pub spool_fault : ℕ → Option (Option String)
  pub sender_resolver : Option (ℕ → Option Peer → Auth)
  pub recipient_fields : ℕ → String → Bound
  -- what `onCorrelatedReply` throws, if it is installed and throws
  pub reply_hook : Option (ℕ → Option (Option String))
  -- the moments and the others during `acceptPost`
  pub moment_in_post : ℕ → ℕ → Moment
  pub others_in_post : ℕ → ℕ → Store → Store

-- How `acceptFrame` ends: the frame is taken, or matches nothing for a reason, or is refused by an error
-- that may name a message.
pub data Ending : Type 0 where
  taken : Ending
  uncorrelated : String → Fields → Ending
  thrown : Option String → Option Text → Ending

-- The world of one body, while the call waits.
abbrev pub world_of : Station → ℕ → Option Text → World
world_of st k content = record {
  line_bytes = st.net.line_bytes;
  sha256 = st.sha256;
  protocol_header = λ bytes. protocol_header content;
  spool_name = st.spool_name k;
  spool_fault = st.spool_fault k;
  moment = st.moment_in_post k;
  others = st.others_in_post k;
}

-- `#assertPeer`
unfoldable pub peer_fault : Station → Row → Option Peer → Option String
peer_fault st request none =
    if not (says request.target_proc_start_rendering st.net.rendering)
    then some "SNAPSHOT_RENDERING_UNVERSIONED"
    else some "INBOUND_IDENTITY_MISMATCH"
peer_fault st request (some peer) =
    if not (says request.target_proc_start_rendering st.net.rendering)
    then some "SNAPSHOT_RENDERING_UNVERSIONED"
    else if not (elim request.target_pid [ none ↦ false | some pid ↦ peer.pid == pid ])
        || not (
            same_text (normalize_proc_start peer.proc_start)
              (normalize_proc_start request.target_proc_start))
    then some "INBOUND_IDENTITY_MISMATCH"
    else none

-- `#replyRequest`
pub data Replied : Type 0 where
  to_request : Row → Replied
  to_nothing : String → Replied
  lookup_failed : Option String → Replied

abbrev pub strict_request : Marker → Outcome (Option Row) → Replied
strict_request marker (err code) = lookup_failed code
strict_request marker (ok none) = to_nothing "unknown_reply_target"
strict_request marker (ok (some request)) =
    if same_uuid request.thread_id marker.thread
    then to_request request
    else to_nothing "unknown_reply_target"

abbrev pub inband_request : Marker → Lookup → Replied
inband_request marker ambiguous = to_nothing "ambiguous_reply_reference"
inband_request marker missing = to_nothing "unknown_reply_target"
inband_request marker (unique request) =
    if elim marker.thread [
      | none ↦ true
      | some thread ↦ reference_matches request.thread_id (some thread)
    ]
    then to_request request
    else to_nothing "reply_thread_mismatch"

unfoldable pub reply_request : List Row → Marker → Replied
reply_request events marker =
    if not marker.is_inband
    then strict_request marker (request events (some marker.reply_to))
    else inband_request marker (request_by_reference events (some marker.reply_to))

-- `selfReferencing`
unfoldable pub self_referencing : Marker → Bool
self_referencing marker =
    let own = bare_hex marker.message in
    let target = bare_hex (some marker.reply_to) in
    ltb 0 (length own) && (leb 8 (length target) && text_starts_with own target)

-- `senderFields`
abbrev pub auth_fields : Option Auth → Who → Who
auth_fields none who = who
auth_fields (some (authenticated alias session)) who = record who {
  sender_alias = some alias;
  sender_session_id = some session;
}
auth_fields (some (unauthenticated reason)) who = record who { sender_auth = some reason }

abbrev pub nobody : Who
nobody = record {
  sender_alias = none;
  sender_kind = none;
  sender_session_id = none;
  sender_thread_id = none;
  recipient_kind = none;
  recipient_session_id = none;
  recipient_thread_id = none;
  reply_to = none;
  expect_reply = false;
  receipt_for = none;
  sender_auth = none;
  peer_pid = none;
  peer_proc_start = none;
}

abbrev pub peer_fields : Option Peer → Who
peer_fields none = nobody
peer_fields (some peer) = record nobody {
  peer_pid = some peer.pid;
  peer_proc_start = peer.proc_start;
}

unfoldable pub sender_fields : Option Peer → Option Auth → Who
sender_fields peer auth = auth_fields auth (peer_fields peer)
