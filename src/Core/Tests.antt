-- ===== src/Core/Tests.antt =====
-- Runs of `send` (src/core/peer-core.mjs) at concrete inputs.
use universal_peer_mcp.Prelude.{
  List, ◌+◌, ◌≡◌, refl, true, false, none, some, [], ◌∷◌, Text, arith, codes, lower, map, Outcome,
  ok, refuse, ◌==◌, if◌then◌else◌,
}
use universal_peer_mcp.Limits.{same_uuid, is_uuid_any, require_uuid, head_then}
use universal_peer_mcp.Ledger.{Row, no_fields, synced, append, fresh, stamp}
use universal_peer_mcp.Ledger.Requests.{request, list, reserve_request, reserve_recovery}
use universal_peer_mcp.Core.{
  Net, Line, found, canonical_send, durable_state, resolve, snapshot_fault, first_wire,
}
use universal_peer_mcp.Core.Send.{
  outside, Sent, sent, replay, transmit, recover_send, send_once, send,
}
use universal_peer_mcp.Core.Owed.{Owed}
use universal_peer_mcp.Core.Reads.{Page, after_seq, take_page, end_seq, events_page}
use universal_peer_mcp.Core.Pages.{ReadsOn, events_page-ReadsOn}
use universal_peer_mcp.Core.Once.{send-Owed}

runs : Unit {0}
unfolding append stamp request list reserve_request reserve_recovery canonical_send durable_state
    resolve snapshot_fault transmit recover_send send_once send same_uuid is_uuid_any require_uuid
    head_then lower
runs = tt

abbrev id_a : Text
id_a = codes "0a1b2c3d-1111-4111-8111-00000000000a"

abbrev id_b : Text
id_b = codes "0a1b2c3d-1111-4111-8111-00000000000b"

abbrev session_x : Text
session_x = codes "0a1b2c3d-2222-4222-8222-000000000001"

-- One session that takes every line.
abbrev net : Net
net = record {
  line_bytes = λ row. 200;
  utf8_length = λ t. 2;
  json = λ m. m.body;
  sha256 = λ t. elim t [ [] ↦ "none" | c ∷ rest ↦ if c == 104 then "h" else "other" ];
  moment = λ k. record { now = 1000 + k; disk = synced };
  others = λ k s. s;
  is_allowed = λ alias. true;
  resolver = λ k alias. found (record {
    session = some session_x;
    cwd = "/work";
    socket_path = "/s.sock";
    pid = 7;
    proc_start = "start";
    permission_mode = "default";
    permission_by = "argv";
  });
  rebinder = none;
  rendering = "utc0-c-squeezed";
  random_id = λ k i. id_b;
  sender = λ k. ok 64;
}

abbrev start : Line
start = record { store = fresh; waits = 0; wires = [] }

abbrev send_hi : Line → Outcome Sent × Line
send_hi =
    send net false outside "my-claude" (some id_a) (some id_b) none (codes "note") (codes "hi")

abbrev first : Outcome Sent × Line
first = send_hi start

-- The first send writes one line and two rows; the same send again is a replay, another body a conflict.
first_rows :
    (first.0 ≡ ok (sent id_a id_b))
    × (first.1.wires ≡ first_wire id_a (some session_x) ∷ [])
    × (map (λ (r : Row). r.type) first.1.store.events
        ≡ "send_requested" ∷ "socket_write_complete" ∷ [])
unfolding runs
first_rows = (refl, refl, refl)

second_answer :
    ((send_hi first.1).0 ≡ ok (replay "written")) × ((send_hi first.1).1.wires ≡ first.1.wires)
unfolding runs
second_answer = (refl, refl)

conflict :
    (send net false outside "my-claude"
      (some id_a)
      (some id_b)
      none
      (codes "note")
      (codes "no")
      first.1).0
    ≡ refuse "MESSAGE_ID_CONFLICT"
unfolding runs
conflict = refl

start-Owed : Owed id_a 0 0 start
unfolding Owed
start-Owed = (omega arith, omega arith, omega arith, omega arith)

send-Owed_example : Owed id_a 0 0 first.1
send-Owed_example =
    send-Owed net id_a (λ k s. (omega arith, λ h. h, omega arith, λ h. h)) false outside "my-claude"
      (some id_a) (some id_b) none (codes "note") (codes "hi") start start-Owed

-- Three rows, of which a page takes one after the first.
abbrev three_rows : List Row
three_rows =
    stamp 1 "daemon_started" 1000 no_fields
    ∷ stamp 2 "peer_ack" 2000 (record no_fields { message_id = some id_b })
    ∷ stamp 3 "daemon_stopping" 3000 no_fields
    ∷ []

abbrev middle_page : Page
middle_page = record {
  cursor = 2;
  has_more = true;
  events = stamp 2 "peer_ack" 2000 (record no_fields { message_id = some id_b }) ∷ [];
}

takes_one : events_page (λ row. 200) (some 1) (after_seq 1) none three_rows ≡ ok middle_page
unfolding runs take_page end_seq events_page
takes_one = refl

-- A row that is longer than a page may be is on no page.
passes_none :
    events_page (λ row. 600000) (some 1) (after_seq 1) none three_rows
    ≡ ok (record { cursor = 1; has_more = true; events = [] })
unfolding runs take_page end_seq events_page
passes_none = refl

events_page-ReadsOn_example : ReadsOn three_rows none 1 middle_page
unfolding runs
events_page-ReadsOn_example =
    events_page-ReadsOn (λ row. 200) (some 1) (after_seq 1) none three_rows middle_page
      (refl, (refl, (refl, tt))) takes_one
