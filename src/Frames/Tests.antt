-- ===== src/Frames/Tests.antt =====
-- Frames that arrive (src/core/peer-core.mjs), at concrete inputs.
use universal_peer_mcp.Prelude.{
  ◌+◌, ◌≡◌, refl, true, false, none, some, [], ◌∷◌, List, String, Text, codes, lower, map, length,
  err, trim, first_line, cut, eat, words_by, take_exactly,
}
use universal_peer_mcp.Limits.{
  same_uuid, is_uuid_any, reference_hex, reference_matches, bare_hex, head_then, require_uuid,
}
use universal_peer_mcp.Ledger.{Row, no_fields, synced, append, fresh, stamp}
use universal_peer_mcp.Ledger.Requests.{request, collect, put, request_by_reference}
use universal_peer_mcp.Core.{Net, Line, lost}
use universal_peer_mcp.Processes.{normalize_proc_start}
use universal_peer_mcp.Protocol.{parse_marker, parse_reply_header}
use universal_peer_mcp.Protocol.Header.{protocol_header}
use universal_peer_mcp.Protocol.Envelope.{unwrap_envelope, opens_envelope}
use universal_peer_mcp.Frames.{
  Station, Frame, Peer, Ending, taken, thrown, peer_fault, reply_request, self_referencing,
  sender_fields,
}
use universal_peer_mcp.Frames.Accept.{accept_frame, read_marker}
use universal_peer_mcp.Frames.Observe.{Context, frame_observer, refusal_reason, run_observers}
use universal_peer_mcp.Frames.Attested.{Attested, Keeps-refl, plain-Shown}
use universal_peer_mcp.Frames.Evidence.{frame_observer-Attested}

runs : Unit {0}
unfolding append stamp request collect put request_by_reference normalize_proc_start parse_marker
    parse_reply_header protocol_header unwrap_envelope opens_envelope peer_fault reply_request
    self_referencing sender_fields accept_frame read_marker frame_observer refusal_reason
    run_observers same_uuid is_uuid_any reference_hex reference_matches bare_hex head_then
    require_uuid lower trim first_line cut eat words_by take_exactly
runs = tt

abbrev id_a : Text
id_a = codes "0a1b2c3d-1111-4111-8111-00000000000a"

abbrev asked : Row
asked = record {
  seq = 1;
  type = "send_requested";
  at = 1000;
  fields = record no_fields {
    message_id = some id_a;
    target_alias = some "my-claude";
    target_pid = some 7;
    target_proc_start = some "Mon Sep  7 10:00:00 2026";
    target_proc_start_rendering = some "utc0-c-squeezed";
  };
}

abbrev net : Net
net = record {
  line_bytes = λ row. 200;
  utf8_length = length;
  json = λ m. m.body;
  sha256 = λ t. "sha";
  moment = λ k. record { now = 1000 + k; disk = synced };
  others = λ k s. s;
  is_allowed = λ alias. true;
  resolver = λ k alias. lost "no_live_session_for_session_id" none;
  rebinder = none;
  rendering = "utc0-c-squeezed";
  random_id = λ k i. id_a;
  sender = λ k. err none;
}

abbrev station : Station
station = record {
  net = net;
  hidden_in = λ t. false;
  encode = λ t. t;
  string_bytes = λ s. 1;
  sha256 = λ bytes. "sha";
  has_spool = false;
  spool_name = λ k. "inbound/one.txt";
  spool_fault = λ k. none;
  sender_resolver = none;
  recipient_fields = λ k alias. record { kind = none; session = none; thread = none };
  reply_hook = none;
  moment_in_post = λ j k. record { now = 2000 + k; disk = synced };
  others_in_post = λ j k s. s;
}

abbrev start : Line
start = record { store = record fresh { events = asked ∷ [] }; waits = 0; wires = [] }

abbrev ack_frame : Frame
ack_frame = record {
  is_control = false;
  action = none;
  orig_msg_id = none;
  status = none;
  state = none;
  from = some (codes "uds:/a.sock");
  content = some (codes "PEER_ACK re=0a1b2c3d");
}

abbrev peer : Peer
peer = record { pid = 7; proc_start = some "Mon Sep 7 10:00:00 2026" }

abbrev context : Context
context = record { connection = 1; ordinal = 1 }

abbrev answered : Peer → Ending × Line
answered p = frame_observer station [] context ack_frame (some p) start

abbrev types_of : Ending × Line → List String
types_of r = map (λ (row : Row). row.type) r.1.store.events

-- The target's ack is evidence; the same line from another process is refused and named in a row.
acked :
    ((answered peer).0 ≡ taken) × (types_of (answered peer) ≡ "send_requested" ∷ "peer_ack" ∷ [])
unfolding runs
acked = (refl, refl)

refused :
    ((answered (record peer { pid = 8 })).0 ≡ thrown (some "INBOUND_IDENTITY_MISMATCH") (some id_a))
    × (types_of (answered (record peer { pid = 8 })) ≡ "send_requested" ∷ "peer_frame_refused" ∷ [])
    × (map (λ (row : Row). row.reason) (answered (record peer { pid = 8 })).1.store.events
        ≡ none ∷ some "inbound_identity_mismatch" ∷ [])
unfolding runs
refused = (refl, refl, refl)

frame_observer-Attested_example : Attested "utc0-c-squeezed" (answered peer).1.store.events
frame_observer-Attested_example =
    frame_observer-Attested station [] context ack_frame (some peer) start
      (λ k s. Keeps-refl "utc0-c-squeezed" s, λ j k s. Keeps-refl "utc0-c-squeezed" s)
      (plain-Shown "utc0-c-squeezed" "send_requested" asked.fields (asked ∷ []) refl, tt)
