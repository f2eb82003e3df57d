-- ===== src/Posts/Tests.antt =====
-- Runs of the operations on messages (src/core/posts.mjs) at concrete inputs.
use universal_peer_mcp.Prelude.{
  ℕ, ◌+◌, ◌≤◌, ◌≡◌, ◌≢◌, ◌↔◌, refl, true, false, not, Option, none, some, List, [], ◌∷◌, ◌++◌, Text,
  arith, codes, lower, same_text, filter, count, Outcome, ok, err, find?, map, ◌==◌,
}
use universal_peer_mcp.Limits.{is_uuid, is_uuid_any, is_alias, same_uuid}
use universal_peer_mcp.Ledger.{Row, Store, synced, no_fields, append, append_checked, fresh, stamp}
use universal_peer_mcp.Ledger.Requests.{is_for}
use universal_peer_mcp.Ledger.Replay.{init, kept_file}
use universal_peer_mcp.Ledger.Replay.RoundTrip.{IsJson, file_of}
use universal_peer_mcp.Spool.{spool_fields}
use universal_peer_mcp.Posts.{
  World, Post, Who, Accepted, accepted, duplicate, accept_post, outcome_for, append_checked_in,
  post_fields, post_race,
}
use universal_peer_mcp.Posts.Inbox.{
  inbox, lower_id, edges, start, binding_key, claude, codex, session_lineage, has, post_binding,
  row_binding,
}
use universal_peer_mcp.Posts.Inbox.Lineage.{Reaches, session_lineage_iff}
use universal_peer_mcp.Posts.Accept.{Grows-refl}
use universal_peer_mcp.Posts.Accept.Once.{PostsOnce, accept_post_once}
use universal_peer_mcp.Posts.Accept.Repeats.{Repeated, accept_post-Repeated}
use universal_peer_mcp.Posts.Accept.Numbering.{accept_post-blocks_start}
use universal_peer_mcp.Posts.Acks.{
  ack_inbox, relink_post, link_unmatched, inner, same_key, is_linked_from, reply,
}
use universal_peer_mcp.Posts.Acks.Once.{ack_inbox_once, ack_inbox-again}
use universal_peer_mcp.Posts.Acks.Effect.{ack_inbox-inbox}
use universal_peer_mcp.Posts.Acks.Relinks.{relink_post-binding, link_unmatched_once}

runs : Unit {0}
unfolding accept_post ack_inbox relink_post link_unmatched inbox append append_checked is_uuid
    is_uuid_any is_alias same_uuid lower stamp spool_fields post_binding outcome_for row_binding
    session_lineage
runs = tt

abbrev id_a : Text
id_a = codes "0a1b2c3d-1111-4111-8111-00000000000a"

abbrev id_b : Text
id_b = codes "0a1b2c3d-1111-4111-8111-00000000000b"

abbrev session_x : Text
session_x = codes "0a1b2c3d-2222-4222-8222-000000000001"

abbrev session_y : Text
session_y = codes "0a1b2c3d-2222-4222-8222-000000000002"

-- Nothing else runs while a call waits, and the disk takes every line.
abbrev calm : World
calm = record {
  line_bytes = λ row. 200;
  sha256 = λ body. "e3b0";
  protocol_header = λ body. none;
  spool_name = "inbound/one.txt";
  spool_fault = none;
  moment = λ k. record { now = 1000 + k; disk = synced };
  others = λ k s. s;
}

abbrev sender : Who
sender = record {
  sender_alias = some "main-codex";
  sender_kind = some "codex";
  sender_session_id = none;
  sender_thread_id = some id_b;
  recipient_kind = some "claude";
  recipient_session_id = some session_x;
  recipient_thread_id = none;
  reply_to = none;
  expect_reply = false;
  receipt_for = none;
  sender_auth = none;
  peer_pid = none;
  peer_proc_start = none;
}

abbrev hello : Post
hello = record {
  id = id_a;
  to = "my-claude";
  body = 104 ∷ 105 ∷ [];
  who = sender;
  from = "control";
}

abbrev sent : Outcome Accepted × Store
sent = accept_post calm hello fresh

-- The first post is accepted as row 1, the second one of that id is a duplicate of it.
accepted_then_duplicate :
    (sent.0 ≡ ok (accepted 1)) × ((accept_post calm hello sent.1).0 ≡ ok (duplicate 1 2))
unfolding runs
accepted_then_duplicate = (refl, refl)

sent-PostsOnce : PostsOnce sent.1
sent-PostsOnce = accept_post_once calm hello fresh (λ k t h. h) (λ id. omega arith)

accept_post_once_example : PostsOnce (accept_post calm hello sent.1).1
accept_post_once_example = accept_post_once calm hello sent.1 (λ k t h. h) sent-PostsOnce

abbrev first_row : Row
first_row = stamp 1 "peer_post" 1001 (post_fields calm hello)

accept_post-Repeated_example :
    Repeated calm hello first_row sent.1.events (accept_post calm hello sent.1)
unfolding runs
accept_post-Repeated_example = accept_post-Repeated calm hello sent.1 first_row refl refl refl

abbrev acked : Store
acked = (ack_inbox calm id_a sent.1).1

ack_inbox_once_example :
    count (is_for "peer_post_processed" (some id_a)) (ack_inbox calm id_a acked).1.events ≤ 1
unfolding runs
ack_inbox_once_example = ack_inbox_once calm id_a acked (some id_a) (omega arith) (omega arith)

ack_inbox-again_example :
    ack_inbox calm id_a acked ≡ (ok (record { acked_seq = 2; already = true }), acked)
unfolding runs
ack_inbox-again_example = ack_inbox-again calm calm id_a sent.1 2 acked [] [] refl refl refl refl

ack_inbox-inbox_example :
    inbox acked.events "my-claude" 0 none
    ≡ filter (λ e. not (same_text id_a (lower_id e))) (inbox sent.1.events "my-claude" 0 none)
unfolding runs
ack_inbox-inbox_example = ack_inbox-inbox calm id_a sent.1 2 acked "my-claude" 0 none refl

-- The message was in the inbox, and is not any more.
acked_is_gone :
    (inbox sent.1.events "my-claude" 0 none ≡ first_row ∷ [])
    × (inbox acked.events "my-claude" 0 none ≡ [])
unfolding runs
acked_is_gone = (refl, refl)

-- The owner moves the message to session y.
relink_post-binding_example :
    (post_binding (relink_post calm id_a (claude (some session_y)) sent.1).1.events id_a
      ≡ some (binding_key "claude" (some session_y)))
    × (same_key (inner (post_binding sent.1.events id_a)) (binding_key "claude" (some session_y))
        ≡ false)
unfolding runs
relink_post-binding_example =
    relink_post-binding calm id_a (claude (some session_y)) sent.1
      (relink_post calm id_a (claude (some session_y)) sent.1).1 2 (some "my-claude") refl

abbrev unmatched_ledger : Store
unmatched_ledger = record fresh {
  events =
      record {
        seq = 1;
        type = "send_requested";
        at = 10;
        fields = record no_fields { message_id = some id_a };
      }
      ∷ record {
        seq = 2;
        type = "peer_frame_uncorrelated";
        at = 20;
        fields = record no_fields { body_file = some "inbound/two.txt" };
      }
      ∷ [];
}

link_unmatched_once_example :
    count
      (is_linked_from 2)
      (link_unmatched calm 2 id_a reply (some "pass") unmatched_ledger).1.events
    ≤ 1
unfolding runs
link_unmatched_once_example =
    link_unmatched_once calm 2 id_a reply (some "pass") unmatched_ledger 2 (omega arith)
      (omega arith)

-- The link is written, and a second one is refused.
linked_then_refused :
    let (r, s) = link_unmatched calm 2 id_a reply (some "pass") unmatched_ledger in
    (r ≡ ok 3) × ((link_unmatched calm 2 id_a reply none s).0 ≡ err (some "LINK_REFUSED"))
unfolding runs
linked_then_refused = (refl, refl)

abbrev resumed : Row
resumed = record {
  seq = 1;
  type = "target_rebound";
  at = 10;
  fields = record no_fields {
    alias = some "my-claude";
    observed_session_id = some session_y;
    expected_session_id = some session_x;
  };
}

session_lineage_iff_example :
    ((lineage : List Text) × (session_lineage (resumed ∷ []) "my-claude" (claude (some session_y))
        ≡ some lineage)
      × ((key : Text)
          → (has key lineage ≡ true)
            ↔ Reaches
                (edges (resumed ∷ []) "my-claude")
                (start (binding_key "claude" (some session_y)))
                key))
    × (session_lineage (resumed ∷ []) "my-claude" (codex (some session_y))
        ≡ some (start (binding_key "codex" (some session_y))))
session_lineage_iff_example = session_lineage_iff (resumed ∷ []) "my-claude" (some session_y)

-- A frame in quarantine with the digest of `hello`.
abbrev suspect : Row
suspect = record {
  seq = 1;
  type = "peer_frame_quarantined";
  at = 5;
  fields = record no_fields { body_sha256 = some "e3b0" };
}

abbrev guarded : Store
guarded = record fresh { events = suspect ∷ [] }

abbrev posted : Row
posted = stamp 2 "peer_post" 1001 (post_fields calm hello)

abbrev after_post : Store
after_post =
    (append_checked_in calm 1 "peer_post" (post_fields calm hello) (post_race id_a) guarded).1

abbrev linked_ledger : Store
linked_ledger = (accept_post calm hello guarded).1

-- The link row is the third, and says that it is the second.
link_row_number : map (λ r. r.seq) linked_ledger.events ≡ 1 ∷ (2 ∷ (2 ∷ []))
unfolding runs
link_row_number = refl

-- The rows of that ledger told apart by their time, each on a line of one number.
abbrev print_row : Row → List ℕ
print_row row = (row.at + 100) ∷ []

abbrev parse_row : List ℕ → Option Row
parse_row [] = none
parse_row (n ∷ line) = find? (λ row. row.at + 100 == n) linked_ledger.events

linked_ledger-IsJson : IsJson parse_row print_row linked_ledger.events
unfolding runs
linked_ledger-IsJson = (
  record { printed_line = refl; printed_some = (105, [], refl); parse-print = refl },
  (
    record { printed_line = refl; printed_some = (1101, [], refl); parse-print = refl },
    (record { printed_line = refl; printed_some = (1102, [], refl); parse-print = refl }, tt),
  ),
)

accept_post-blocks_start_example :
    init (λ bytes. true) parse_row (kept_file true (file_of print_row linked_ledger.events ++ []))
    ≢ ok (linked_ledger.events, [])
unfolding runs
accept_post-blocks_start_example =
    accept_post-blocks_start (λ bytes. true) parse_row print_row calm hello guarded after_post
      linked_ledger posted suspect [] 2 [] true (linked_ledger.events, []) (λ k t. Grows-refl t)
      refl refl refl refl linked_ledger-IsJson refl
