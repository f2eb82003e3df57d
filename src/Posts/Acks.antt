-- ===== src/Posts/Acks.antt =====
-- `ackInbox`, `relinkPost` and `linkUnmatched` (src/core/posts.mjs).
pub mod Once
pub mod Relinks
pub mod Effect
use universal_peer_mcp.Prelude.{
  ℕ, ◌≡◌, Bool, true, false, not, ◌&&◌, ◌||◌, Option, none, some, List, [], ◌∷◌, String, Text,
  same_text, str_eq, ◌==◌, if◌then◌else◌, any, find?, Outcome, ok, err, refuse,
}
use universal_peer_mcp.Limits.{is_uuid, same_uuid}
use universal_peer_mcp.Ledger.{Row, Fields, no_fields, is_type, Store, append_checked}
use universal_peer_mcp.Ledger.Requests.{is_for, request}
use universal_peer_mcp.Posts.{World, first_post, append_checked_in}
use universal_peer_mcp.Posts.Inbox.{
  Identity, claude, codex, binding_key, post_binding, key_or_empty,
}

-- `{ processed, seq, already }`, where `processed` is always true.
pub record Ack : Type 0 where
  pub acked_seq : ℕ
  pub already : Bool

abbrev pub processed_before : Text → List Row → Option String
processed_before id events =
    if any (is_for "peer_post_processed" (some id)) events then some "ALREADY_PROCESSED" else none

abbrev pub processed_fields : Text → Fields
processed_fields id = record no_fields { message_id = some id }

-- The `try` and `catch` of `ackInbox`.
pub ack_result : Text → Outcome Row × Store → Outcome Ack × Store
ack_result id (ok row, s) = (ok (record { acked_seq = row.seq; already = false }), s)
ack_result id (err none, s) = (err none, s)
ack_result id (err (some code), s) =
    if str_eq code "ALREADY_PROCESSED"
    then elim (find? (is_for "peer_post_processed" (some id)) s.events) [
      | some prior ↦ (ok (record { acked_seq = prior.seq; already = true }), s)
      | none ↦ (err none, s)
    ]
    else (err (some code), s)

-- `ackInbox`. The reader's fields name its process; nothing reads them.
unfoldable pub ack_inbox : World → Text → Store → Outcome Ack × Store
unfolding ack_result
ack_inbox w id s =
    if not (is_uuid id)
    then (refuse "INVALID_CONTROL_ARGUMENTS", s)
    else elim (first_post s.events id) [
      | none ↦ (refuse "POST_UNKNOWN", s)
      | some post ↦ ack_result id (
          append_checked_in w 0 "peer_post_processed" (processed_fields id) (processed_before id) s)
    ]

abbrev pub identity_key : Identity → Option Text
identity_key (claude session) = binding_key "claude" session
identity_key (codex thread) = binding_key "codex" thread

abbrev pub identity_fields : Identity → Fields → Fields
identity_fields (claude session) f = record f { recipient_session_id = session }
identity_fields (codex thread) f = record f { recipient_thread_id = thread }

abbrev pub inner : Option (Option Text) → Option Text
inner none = none
inner (some key) = key

-- `current && current === target`
abbrev pub same_key : Option Text → Option Text → Bool
same_key (some current) (some target) = same_text current target
same_key _ _ = false

-- The check of `relinkPost`, inside the chain.
unfoldable pub relink_check : Text → Identity → List Row → Option String
unfolding binding_key post_binding
relink_check id identity events =
    if any (is_for "peer_post_processed" (some id)) events
    then some "ALREADY_PROCESSED"
    else if same_key (inner (post_binding events id)) (identity_key identity)
    then some "ALREADY_BOUND"
    else none

abbrev pub relink_fields : Text → Identity → Option String → List Row → Fields
relink_fields id identity recipient events = identity_fields identity (record no_fields {
  message_id = some id;
  recipient = recipient;
  previous = inner (post_binding events id);
})

-- The seq and the recipient of a relinked post.
abbrev pub relinked : Option String → Outcome Row × Store → Outcome (ℕ × Option String) × Store
relinked recipient (ok row, s) = (ok (row.seq, recipient), s)
relinked recipient (err code, s) = (err code, s)

-- `relinkPost`
unfoldable pub relink_post : World → Text → Identity → Store → Outcome (ℕ × Option String) × Store
unfolding relink_check
relink_post w id identity s =
    if not (is_uuid id)
    then (refuse "INVALID_CONTROL_ARGUMENTS", s)
    else elim (first_post s.events id) [
      | none ↦ (refuse "POST_UNKNOWN", s)
      | some post ↦
          if any (is_for "peer_post_processed" (some id)) s.events
          then (refuse "ALREADY_PROCESSED", s)
          else relinked post.recipient (
              append_checked_in w 0 "peer_post_relinked"
                (relink_fields id identity post.recipient s.events) (relink_check id identity) s)
    ]

-- `as`
pub data LinkKind : Type 0 where
  ack reply : LinkKind

abbrev pub link_type : LinkKind → String
link_type ack = "peer_ack"
link_type reply = "peer_reply"

-- The verdict is none, pass or fail, and an ack has none.
abbrev pub verdict_ok : LinkKind → Option String → Bool
verdict_ok kind none = true
verdict_ok ack (some v) = false
verdict_ok reply (some v) = str_eq v "pass" || str_eq v "fail"

abbrev pub is_linked_from : ℕ → Row → Bool
is_linked_from seq e = elim e.linked_from_seq [ none ↦ false | some n ↦ n == seq ]

-- The check of `linkUnmatched`, inside the chain.
unfoldable pub link_check : ℕ → LinkKind → Option Text → List Row → Option String
link_check seq kind id events =
    if any (is_linked_from seq) events
    then some "LINK_REFUSED"
    else if any (is_for (link_type kind) id) events
    then some "LINK_REFUSED"
    else none

abbrev pub linked : Outcome Row × Store → Outcome ℕ × Store
linked (ok row, s) = (ok row.seq, s)
linked (err code, s) = (err code, s)

abbrev pub is_kept_unmatched : Row → Bool
is_kept_unmatched row =
    is_type "peer_frame_uncorrelated" row && elim row.body_file [ none ↦ false | some _ ↦ true ]

abbrev pub link_fields : ℕ → Option String → Row → Row → Fields
link_fields seq verdict source req = record no_fields {
  message_id = req.message_id;
  thread_id = req.thread_id;
  verdict = verdict;
  evidence = some "manual_link";
  linked_from_seq = some seq;
  body_file = source.body_file;
  body_sha256 = source.body_sha256;
  body_bytes = source.body_bytes;
}

-- `linkUnmatched`
unfoldable pub link_unmatched :
    World → ℕ → Text → LinkKind → Option String → Store → Outcome ℕ × Store
unfolding link_check request
link_unmatched w seq id kind verdict s =
    if not (is_uuid id && verdict_ok kind verdict)
    then (refuse "INVALID_CONTROL_ARGUMENTS", s)
    else elim (find? (λ e. e.seq == seq) s.events) [
      | none ↦ (refuse "LINK_REFUSED", s)
      | some source ↦
          if not (is_kept_unmatched source)
          then (refuse "LINK_REFUSED", s)
          else elim (request s.events (some id)) [
            | err code ↦ (err code, s)
            | ok none ↦ (refuse "LINK_REFUSED", s)
            | ok (some req) ↦ linked (
                append_checked_in w 0 (link_type kind) (link_fields seq verdict source req)
                  (link_check seq kind req.message_id) s)
          ]
    ]
