-- ===== src/Successions/Tests.antt =====
-- Successions (src/core/session-rebind.mjs) at concrete inputs.
use universal_peer_mcp.Prelude.{
  ◌+◌, ◌≡◌, refl, true, none, some, [], ◌∷◌, List, Text, codes, lower, eat, map, ◌==◌,
  if◌then◌else◌, ok, err, trim,
}
use universal_peer_mcp.Limits.{same_uuid, is_uuid_any, require_uuid}
use universal_peer_mcp.Ledger.{Row, synced, append, fresh, stamp}
use universal_peer_mcp.Core.{Net, lost}
use universal_peer_mcp.Processes.{normalize_proc_start, squeeze, prove_permission_mode}
use universal_peer_mcp.Registry.{
  SessionRow, Registry, Expected, Verified, live_rows, verify_candidate, proven_rows,
  resolve_successor,
}
use universal_peer_mcp.Successions.{
  Kernel, has_receipt, carries_receipt, walk, prove_resume_succession,
}
use universal_peer_mcp.Successions.Sidecar.{
  present, rebind_target_session_id, read_rebind_state, previous_session_ids_for, set_ids,
  next_state, record_succession,
}
use universal_peer_mcp.Successions.Rebind.{
  previous_generation_of, Desk, Rebinder, rebound_to, not_rebound, rest, rebind,
}
use universal_peer_mcp.Successions.Safe.{IsOn, IsWarranted, IsTabled, asked_of, rebind-Warranted}

runs : Unit {0}
unfolding append stamp normalize_proc_start squeeze trim prove_permission_mode live_rows
    verify_candidate proven_rows resolve_successor has_receipt carries_receipt walk
    prove_resume_succession rebind_target_session_id read_rebind_state previous_session_ids_for
    set_ids next_state record_succession previous_generation_of rebind same_uuid is_uuid_any
    require_uuid lower eat
runs = tt

abbrev old_session : Text
old_session = codes "0a1b2c3d-1111-4111-8111-00000000000a"

abbrev new_session : Text
new_session = codes "0a1b2c3d-2222-4222-8222-00000000000b"

abbrev session_row : SessionRow
session_row = record {
  session = some new_session;
  pid = 70;
  name = some "work";
  cwd = "/work";
  proc_start = some "Mon Sep 7 10:00:00 2026";
  peer_protocol = some 1;
  peer_features = "notify_idle" ∷ "reply_across_default_dirs" ∷ [];
  socket = "/s.sock";
}

-- Process 70 is the session; its parent 60 is a shell.
abbrev argv_of : List Text → Kernel
argv_of argv = record {
  argv = λ pid. if pid == 70 then ok argv else err none;
  parent = λ pid. if pid == 70 then ok (some 60) else ok (some 1);
}

abbrev registry : List Text → Registry
registry argv = record {
  kernel = argv_of argv;
  directory = ok (record { is_numbered = true; is_private = true; row = ok session_row } ∷ []);
  is_ours = λ pid. ok true;
  start_of = λ k pid. ok "Mon Sep  7 10:00:00 2026";
  realpath = λ path. ok path;
  socket_is_private = λ path. ok true;
  key_of = λ row. ok (record { is_private = true; key_start = row.proc_start; token_length = 32 });
  self_pid = 9;
}

abbrev net : Net
net = record {
  line_bytes = λ row. 200;
  utf8_length = λ t. 2;
  json = λ m. m.body;
  sha256 = λ t. "sha";
  moment = λ k. record { now = 1000 + k; disk = synced };
  others = λ k s. s;
  is_allowed = λ alias. true;
  resolver = λ k alias. lost "no_live_session_for_session_id" none;
  rebinder = none;
  rendering = "utc0-c-squeezed";
  random_id = λ k i. old_session;
  sender = λ k. err none;
}

abbrev rebinder : List Text → Rebinder
rebinder argv = record {
  net = net;
  registry = λ k. registry argv;
  max_previous = 8;
  read_fault = λ k. none;
  write_fault = λ k. none;
  side_fault = λ k. none;
  table_edit = λ k table. table;
  side_edit = λ k side. side;
}

abbrev expected : Expected
expected = record { session = old_session; cwd = some "/work"; permission_mode = "prompting" }

abbrev desk : Desk
desk = record {
  line = record { store = fresh; waits = 0; wires = [] };
  table = ("my-claude", record { session = some old_session; others = "{}" }) ∷ [];
  side = some (present (record { mode = some "proof"; history = [] }));
}

abbrev resumed : List Text
resumed =
    codes "claude" ∷ codes "--resume" ∷ old_session ∷ codes "--permission-mode" ∷ codes "plan" ∷ []

abbrev successor : Verified
successor = record {
  session = some new_session;
  cwd = "/work";
  pid = 70;
  proc_start = codes "Mon Sep 7 10:00:00 2026";
  socket = "/s.sock";
  permission = "prompting";
}

moves : (rebind (rebinder resumed) "my-claude" expected desk).0 ≡ rebound_to successor
unfolding runs
moves = refl

-- The table, the history and the ledger after it.
moved_files :
    (map (λ pair. pair.1.session) (rebind (rebinder resumed) "my-claude" expected desk).1.table
      ≡ some new_session ∷ [])
    × ((rebind (rebinder resumed) "my-claude" expected desk).1.side
        ≡ some (
            present
              (record { mode = some "proof"; history = ("my-claude", old_session ∷ []) ∷ [] })))
    × (map
          (λ (row : Row). row.type)
          (rebind (rebinder resumed) "my-claude" expected desk).1.line.store.events
        ≡ "target_rebound" ∷ [])
unfolding runs
moved_files = (refl, refl, refl)

-- A fork of the session is no successor.
fork_stays :
    (rebind (rebinder (codes "--fork-session" ∷ resumed)) "my-claude" expected desk).0
    ≡ not_rebound "rebind_no_proof" (some 1)
unfolding runs
fork_stays = refl

rebind-Warranted_example :
    IsOn desk
    × IsWarranted
        (rebinder resumed)
        "my-claude"
        expected
        (asked_of (rebinder resumed) desk)
        successor
    × IsTabled
        (rebinder resumed)
        "my-claude"
        (rest (rebinder resumed) (asked_of (rebinder resumed) desk))
        successor
rebind-Warranted_example =
    rebind-Warranted (rebinder resumed) "my-claude" expected desk successor moves
