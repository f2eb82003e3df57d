-- ===== src/Senders/Tests.antt =====
-- Writers and threads (src/core/sender-auth.mjs, src/core/codex-identity.mjs) at concrete inputs.
use universal_peer_mcp.Prelude.{
  ℕ, ◌≤◌, ◌≡◌, refl, true, false, none, some, [], ◌∷◌, Text, codes, lower, trim, ◌==◌,
  if◌then◌else◌, ok, err,
}
use universal_peer_mcp.Limits.{same_uuid, is_uuid_any, is_uuid}
use universal_peer_mcp.Processes.{normalize_proc_start, squeeze}
use universal_peer_mcp.Frames.{Peer}
use universal_peer_mcp.Senders.{Host, proved, unproved, sender_walk, resolve_sender}
use universal_peer_mcp.Senders.Proved.{Nearest, IsProved, resolve_sender-IsProved}
use universal_peer_mcp.Senders.Threads.{
  CodexHost, proven, unproven, codex_walk, resolve_codex_thread,
}

runs : Unit {0}
unfolding normalize_proc_start squeeze trim lower same_uuid is_uuid_any is_uuid sender_walk
    resolve_sender codex_walk resolve_codex_thread
runs = tt

abbrev session_x : Text
session_x = codes "0a1b2c3d-2222-4222-8222-000000000001"

abbrev start : Text
start = codes "Mon Sep 7 10:00:00 2026"

-- A command 80 that the session 70 ran; the table knows the session.
abbrev host : Host
host = record {
  file_of = λ pid.
      if pid == 70
      then ok (record {
        is_private = true;
        pid = some 70;
        session = some session_x;
        proc_start = some "Mon Sep 7 10:00:00 2026";
        name = some "work";
      })
      else err none;
  start_of = λ pid. ok "Mon Sep  7 10:00:00 2026";
  parent = λ pid. if pid == 80 then ok (some 70) else ok (some 1);
  allowlist = ("my-claude", some session_x) ∷ [];
  self_pid = 9;
}

abbrev command : Peer
command = record { pid = 80; proc_start = some "Mon Sep 7 10:00:05 2026" }

walks : resolve_sender host (some command) true ≡ proved "my-claude" session_x 70 1
unfolding runs
walks = refl

-- A frame is checked at its writer only.
stands : resolve_sender host (some command) false ≡ unproved "no_session_row"
unfolding runs
stands = refl

resolve_sender-IsProved_example :
    (1 ≤ 8)
    × (true ≡ false → ◌≡◌ {A = ℕ} 1 0)
    × Nearest host 80 70 1
    × IsProved host command "my-claude" session_x 70 1
resolve_sender-IsProved_example =
    resolve_sender-IsProved host command true "my-claude" session_x 70 1 walks

abbrev codex : CodexHost
codex = record {
  image_of = λ pid.
      ok (record { thread = if pid == 80 then some session_x else none; is_codex = pid == 60 });
  parent = λ pid. if pid == 80 then ok (some 60) else ok (some 1);
  has_rollout = λ thread. true;
  start_before = λ pid. ok "Mon Sep  7 10:00:00 2026";
  start_after = λ pid. ok "Mon Sep 7 10:00:00 2026";
}

thread_found :
    resolve_codex_thread codex 80
    ≡ proven (record { thread = session_x; pid = 80; depth = 0 }) 1 start
unfolding runs
thread_found = refl

-- Without a Codex process above it the variable proves nothing.
no_host :
    resolve_codex_thread
      (record codex { image_of = λ pid. ok (record { thread = some session_x; is_codex = false }) })
      80
    ≡ unproven "codex_host_not_ancestor"
unfolding runs
no_host = refl
