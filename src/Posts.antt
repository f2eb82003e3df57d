-- ===== src/Posts.antt =====
-- src/core/posts.mjs: independent messages, accepted once for each id. A call that waits lets other
-- operations run; its `World` says what they do to the store, and what the disk and clock answer.
pub mod Inbox
pub mod Acks
pub mod Accept
pub mod Quarantine
mod Tests
use universal_peer_mcp.Prelude.{
  ℕ, suc, ◌+◌, ◌≡◌, Bool, true, false, not, ◌&&◌, ◌||◌, Option, none, some, List, [], ◌∷◌, ◌++◌,
  String, Text, length, leb, ltb, str_eq, ◌==◌, if◌then◌else◌, any, find?, filter, take, Outcome,
  ok, err, refuse,
}
use universal_peer_mcp.Limits.{is_uuid, is_alias}
use universal_peer_mcp.Spool.{max_inbound_body_bytes, utf8_bound, spool_fields}
use universal_peer_mcp.Ledger.{
  Row, Fields, Header, no_fields, is_type, Store, Moment, append, append_checked,
}
use universal_peer_mcp.Ledger.Requests.{is_for}

-- `others k` is what the rest of the daemon does to the store while the call waits the `k`th time.
pub record World : Type 0 where
  pub line_bytes : Row → ℕ
  pub sha256 : List ℕ → String
  pub protocol_header : List ℕ → Option Header
  pub spool_name : String
  pub spool_fault : Option (Option String)
  pub moment : ℕ → Moment
  pub others : ℕ → Store → Store

-- `{ bodyBytes, bodySha256, bodyCapped }` of `bodyDigest`
pub record Digest : Type 0 where
  pub size : ℕ
  pub sha : String
  pub capped : Bool

unfoldable pub body_digest : World → List ℕ → Digest
body_digest w body =
    let end = utf8_bound body max_inbound_body_bytes in
    record { size = length body; sha = w.sha256 (take end body); capped = ltb end (length body) }

abbrev pub first_post : List Row → Text → Option Row
first_post events id = find? (is_for "peer_post" (some id)) events

-- `who`: the sender and recipient fields that the caller has proved.
pub record Who : Type 0 where
  pub sender_alias : Option String
  pub sender_kind : Option String
  pub sender_session_id : Option Text
  pub sender_thread_id : Option Text
  pub recipient_kind : Option String
  pub recipient_session_id : Option Text
  pub recipient_thread_id : Option Text
  pub reply_to : Option Text
  pub expect_reply : Bool
  pub receipt_for : Option Text
  pub sender_auth : Option String
  pub peer_pid : Option ℕ
  pub peer_proc_start : Option String

-- `...who`
abbrev pub with_who : Who → Fields → Fields
with_who who f = record f {
  sender_alias = who.sender_alias;
  sender_kind = who.sender_kind;
  sender_session_id = who.sender_session_id;
  sender_thread_id = who.sender_thread_id;
  recipient_kind = who.recipient_kind;
  recipient_session_id = who.recipient_session_id;
  recipient_thread_id = who.recipient_thread_id;
  reply_to = who.reply_to;
  expect_reply = who.expect_reply;
  receipt_for = who.receipt_for;
  sender_auth = who.sender_auth;
  peer_pid = who.peer_pid;
  peer_proc_start = who.peer_proc_start;
}

pub record Post : Type 0 where
  pub id : Text
  pub to : String
  pub body : List ℕ
  pub who : Who
  pub from : String

pub data Accepted : Type 0 where
  accepted : ℕ → Accepted
  duplicate conflict : ℕ → ℕ → Accepted

-- `prior.bodySha256 === digest.bodySha256`
abbrev pub has_sha : String → Row → Bool
has_sha sha row = elim row.body_sha256 [ none ↦ false | some known ↦ str_eq known sha ]

abbrev pub answered : (ℕ → Accepted) → Outcome Row × Store → Outcome Accepted × Store
answered f (ok row, s) = (ok (f row.seq), s)
answered f (err code, s) = (err code, s)

-- Waits `k` and writes: what others write first is in the ledger when the chain reaches this write.
abbrev pub append_in : World → ℕ → String → Fields → Store → Outcome Row × Store
append_in w k type fields s = append w.line_bytes (w.moment k) type fields (w.others k s)

abbrev pub append_checked_in :
    World → ℕ → String → Fields → (List Row → Option String) → Store → Outcome Row × Store
append_checked_in w k type fields test s =
    append_checked w.line_bytes (w.moment k) type fields test (w.others k s)

-- The data of the rows for a repeated id.
abbrev pub repeat_fields : World → Post → Row → Fields
repeat_fields w p prior = with_who p.who (record no_fields {
  message_id = some p.id;
  first_seq = some prior.seq;
  body_sha256 = some (body_digest w p.body).sha;
  source = some p.from;
})

abbrev pub conflict_fields : World → Post → Row → Fields
conflict_fields w p prior = record (repeat_fields w p prior) {
  body_bytes = some (body_digest w p.body).size;
  body_capped = (body_digest w p.body).capped;
}

-- `outcomeFor`
unfoldable pub outcome_for : World → ℕ → Post → Row → Store → Outcome Accepted × Store
unfolding body_digest
outcome_for w k p prior s =
    if has_sha (body_digest w p.body).sha prior
    then answered (duplicate prior.seq)
        (append_in w k "peer_post_duplicate" (repeat_fields w p prior) s)
    else answered (conflict prior.seq)
        (append_in w k "peer_post_conflict" (conflict_fields w p prior) s)

-- The data of the `peer_post` row.
abbrev pub post_fields : World → Post → Fields
post_fields w p = with_who p.who (
    spool_fields w.sha256 w.protocol_header w.spool_name p.body (record no_fields {
      message_id = some p.id;
      recipient = some p.to;
      header = some (record {
        verb = "PEER_POST";
        v = some "1";
        header_message_id = some p.id;
        header_thread_id = none;
        header_reply_to = none;
        header_verdict = none;
        inherited = [];
      });
      source = some p.from;
    }))

abbrev pub post_race : Text → List Row → Option String
post_race id events = elim (first_post events id) [ none ↦ none | some _ ↦ some "POST_RACE" ]

abbrev pub is_link_of : ℕ → Row → Bool
is_link_of seq row =
    is_type "quarantine_linked" row && elim row.quarantine_seq [ none ↦ false | some n ↦ n == seq ]

-- The data of a link row names `seq`.
abbrev pub link_fields : ℕ → ℕ → Text → Fields
link_fields quarantined seq id = record no_fields {
  quarantine_seq = some quarantined;
  own_seq = some seq;
  message_id = some id;
}

-- The loop over the quarantined frames with the digest of the accepted post.
unfoldable pub link_all : World → ℕ → ℕ → Text → List Row → Store → Outcome Accepted × Store
link_all w k seq id [] s = (ok (accepted seq), s)
link_all w k seq id (q ∷ qs) s =
    let skipped = link_all w k seq id qs s in
    let linked =
      link_all w (k + 1) seq id qs
        (append_in w k "quarantine_linked" (link_fields q.seq seq id) s).1 in
    if any (is_link_of q.seq) s.events
    then skipped
    else elim (append_in w k "quarantine_linked" (link_fields q.seq seq id) s).0 [
      | ok row ↦ linked
      | err code ↦ (err code, (append_in w k "quarantine_linked" (link_fields q.seq seq id) s).1)
    ]

-- `e.bodySha256 === row.bodySha256`, where both may be missing.
abbrev pub same_sha : Option String → Option String → Bool
same_sha none none = true
same_sha (some a) (some b) = str_eq a b
same_sha _ _ = false

abbrev pub is_quarantined_copy : Row → Row → Bool
is_quarantined_copy row q =
    is_type "peer_frame_quarantined" q && same_sha q.body_sha256 row.body_sha256

-- After the checked write: the rest of `acceptPost`. On an error the spooled file is discarded, which
-- waits; a lost race then finds the row that won.
unfoldable pub after_write : World → Post → Outcome Row × Store → Outcome Accepted × Store
unfolding link_all outcome_for
after_write w p (ok row, s) =
    link_all w 2 row.seq p.id (filter (is_quarantined_copy row) s.events) s
after_write w p (err none, s) = (err none, w.others 2 s)
after_write w p (err (some code), s) =
    if str_eq code "POST_RACE"
    then elim (first_post (w.others 2 s).events p.id) [
      | some prior ↦ outcome_for w 3 p prior (w.others 2 s)
      | none ↦ (err none, w.others 2 s)
    ]
    else (err (some code), w.others 2 s)

-- `acceptPost`
unfoldable pub accept_post : World → Post → Store → Outcome Accepted × Store
unfolding after_write
accept_post w p s =
    if not (is_uuid p.id)
    then (refuse "INVALID_CONTROL_ARGUMENTS", s)
    else if not (str_eq p.to "*" || is_alias p.to)
    then (refuse "INVALID_CONTROL_ARGUMENTS", s)
    else elim (first_post s.events p.id) [
      | some prior ↦ outcome_for w 0 p prior s
      | none ↦ elim w.spool_fault [
        | some code ↦ (err code, w.others 0 s)
        | none ↦
            after_write w p
              (append_checked_in w 1 "peer_post" (post_fields w p) (post_race p.id) (w.others 0 s))
      ]
    ]
