-- ===== src/Doorbells/Tests.antt =====
-- Runs of the doorbell service (src/core/doorbell-service.mjs) at concrete inputs.
use universal_peer_mcp.Prelude.{
  ◌+◌, ◌≡◌, refl, true, false, none, some, [], ◌∷◌, Text, arith, codes, lower, map,
}
use universal_peer_mcp.Limits.{same_uuid, is_uuid_any}
use universal_peer_mcp.Ledger.{Row, synced, no_fields, append, append_checked, fresh, stamp}
use universal_peer_mcp.Ledger.Requests.{request}
use universal_peer_mcp.Posts.Accept.{Grows-refl}
use universal_peer_mcp.Doorbells.{
  Host, Bell, woken, written, attempt_of, authorize, authorize_alias, relink_of, binding_of,
}
use universal_peer_mcp.Doorbells.Ring.{
  first, ring, ring_mode, ring_attempt, ring_claude, record_outcome,
}
use universal_peer_mcp.Doorbells.Sweep.{on_append, sweep, sweep_posts, sweep_post, resume, alert}
use universal_peer_mcp.Doorbells.Again.{
  ring_again, ring_pending, pending_not_sent, eligible_again, ring_returned_claude, ring_aliases,
  lost_aliases,
}
use universal_peer_mcp.Doorbells.Counts.{Bounded}
use universal_peer_mcp.Doorbells.Reach.{Reach, Reach-Bounded, here, next, appended, swept, back}
use universal_peer_mcp.Doorbells.Targets.{Allowed, ring-Allowed}

runs : Unit {0}
unfolding append append_checked stamp ring ring_mode ring_attempt ring_claude record_outcome
    attempt_of authorize authorize_alias relink_of binding_of same_uuid lower on_append sweep
    sweep_posts sweep_post resume alert ring_again ring_pending pending_not_sent eligible_again
    ring_returned_claude ring_aliases lost_aliases is_uuid_any request
runs = tt

abbrev id_a : Text
id_a = codes "0a1b2c3d-1111-4111-8111-00000000000a"

abbrev session_x : Text
session_x = codes "0a1b2c3d-2222-4222-8222-000000000001"

-- The sessions of Claude are there, and take each line.
abbrev up : Host
up = record {
  line_bytes = λ row. 200;
  sha1 = λ bytes. bytes;
  moment = λ k. record { now = 1000 + k; disk = synced };
  others = λ k s. s;
  now = λ k. 1000 + k;
  codex_peer = λ k alias. none;
  claude_peer = λ k alias. some session_x;
  is_running = λ k id. false;
  configured = true;
  pinned_version = none;
  cli_version = λ k. none;
  wake = λ k. woken false;
  enqueue = λ k. none;
  sends_claude = true;
  send_claude = λ k. written;
  known_wording = λ row. true;
  is_live = λ k session. true;
}

abbrev post : Row
post = stamp 1 "peer_post" 900 (record no_fields {
  message_id = some id_a;
  recipient = some "my-claude";
  recipient_kind = some "claude";
  recipient_session_id = some session_x;
})

abbrev bell : Bell
bell = record { store = record fresh { events = post ∷ [] }; waits = 0; sent = [] }

abbrev rang : Bell
rang = (on_append up post bell).1

-- The hook of a post writes one intent and one outcome, and one line goes to the session of the post.
rang_rows :
    map (λ (r : Row). r.type) rang.store.events
    ≡ "peer_post" ∷ "doorbell_intent" ∷ "doorbell_outcome" ∷ []
unfolding runs
rang_rows = refl

rang_state : map (λ (r : Row). r.state) rang.store.events ≡ none ∷ none ∷ some "sent" ∷ []
unfolding runs
rang_state = refl

-- The sweep after it rings no more.
swept_sent : (sweep up rang).1.sent ≡ rang.sent
unfolding runs
swept_sent = refl

bell-Bounded : Bounded bell.store.events
unfolding Bounded stamp
bell-Bounded id = (omega arith, omega arith, λ g. omega arith)

abbrev after : Bell
after = (ring_again up "my-claude" none (sweep up rang).1).1

after-Reach : Reach up bell after
after-Reach =
    next (next (next here (appended post bell)) (swept rang))
      (back "my-claude" none (sweep up rang).1)

Reach-Bounded_example : Bounded after.store.events
Reach-Bounded_example = Reach-Bounded up (λ k s h. h) after-Reach bell-Bounded

ring-Allowed_example : Allowed up post bell (ring up id_a first none bell).1
unfolding runs
ring-Allowed_example = ring-Allowed up (λ k s. Grows-refl s) id_a first none bell post refl
