-- ===== src/Frames/Accept.antt =====
-- `acceptFrame` of src/core/peer-core.mjs, with `#spool` and `#correlatedReply`.
use universal_peer_mcp.Prelude.{
  ℕ, ◌+◌, Bool, true, false, not, ◌&&◌, Option, none, some, [], ◌∷◌, String, Text, codes, same_text,
  ltb, str_eq, if◌then◌else◌, any, Outcome, ok, err,
}
use universal_peer_mcp.Spool.{spool_fields}
use universal_peer_mcp.Ledger.{Row, Fields, Header, no_fields, Store}
use universal_peer_mcp.Ledger.Requests.{request_by_transport, request_by_subscription}
use universal_peer_mcp.Posts.{Who, Post, Accepted, with_who, accept_post}
use universal_peer_mcp.Posts.Quarantine.{quarantine, post_recipient}
use universal_peer_mcp.Core.{Line, pause, append_line}
use universal_peer_mcp.Protocol.{Marker, parse_marker, parse_reply_header}
use universal_peer_mcp.Protocol.Envelope.{unwrap_envelope}
use universal_peer_mcp.Protocol.Header.{protocol_header}
use universal_peer_mcp.Frames.{
  Peer, Frame, Auth, authenticated, unauthenticated, Station, Ending, taken, uncorrelated, thrown,
  world_of, peer_fault, Replied, to_request, to_nothing, lookup_failed, reply_request,
  self_referencing, sender_fields,
}

-- A row that is written, and what the handler answers then.
abbrev pub wrote : Outcome Row × Line → Ending × Line
wrote (ok row, l) = (taken, l)
wrote (err code, l) = (thrown code none, l)

-- `#spool`: the fields of a body that is kept, put over those of a row.
abbrev pub spooled : Station → ℕ → Option Text → Fields → Fields
spooled st k none base = base
spooled st k (some []) base = base
spooled st k (some (c ∷ t)) base =
    if st.has_spool
    then elim (st.spool_fault k) [
      | none ↦
          spool_fields st.sha256 (λ bytes. protocol_header (some (c ∷ t))) (st.spool_name k)
            (st.encode (c ∷ t)) base
      | some code ↦ record base { body_storage_omitted = some "write_failed" }
    ]
    else base

-- A body that matches nothing.
abbrev pub unmatched : Station → String → Option Text → Who → Line → Ending × Line
unmatched st reason content who l =
    (uncorrelated reason (with_who who (spooled st l.waits content no_fields)), pause st.net l)

abbrev pub is_status : String → Bool
is_status status =
    any (str_eq status) ("held" ∷ "delivered" ∷ "denied" ∷ "expired" ∷ "refused" ∷ "dropped" ∷ [])

abbrev pub is_terminal : String → Bool
is_terminal status = any (str_eq status) ("denied" ∷ "expired" ∷ "refused" ∷ "dropped" ∷ [])

-- The fields that name the writer of a row of evidence, and how it was proved.
abbrev pub evidence_fields : String → Row → Peer → Fields → Fields
evidence_fields evidence request peer base = record base {
  message_id = request.message_id;
  evidence = some evidence;
  peer_pid = some peer.pid;
  peer_proc_start = peer.proc_start;
}

-- A `peer_message_status` of a message, after its writer has been proved.
abbrev pub status_fields : Frame → String → Row → Peer → Fields
status_fields frame status request peer =
    evidence_fields "message_status" request peer (record no_fields {
      transport_message_id = frame.orig_msg_id;
      status = some status;
      source_address = frame.from;
    })

abbrev pub take_status : Station → Frame → Row → Peer → Line → Ending × Line
take_status st frame request peer l = elim frame.status [
  | none ↦ (thrown none none, l)
  | some status ↦
      if not (is_status status)
      then (thrown none none, l)
      else wrote (
          append_line st.net
            (if is_terminal status then "peer_terminal_failure" else "peer_message_status")
            (status_fields frame status request peer) l)
]

abbrev pub idle_fields : Frame → String → Row → Peer → Fields
idle_fields frame state request peer =
    evidence_fields "idle_notice" request peer
      (record no_fields { subscription_id = frame.orig_msg_id; state = some state })

abbrev pub take_idle : Station → Frame → Row → Peer → Line → Ending × Line
take_idle st frame request peer l = elim frame.state [
  | none ↦ (thrown none none, l)
  | some state ↦
      if ltb 256 (st.string_bytes state)
      then (thrown none none, l)
      else wrote (append_line st.net "peer_idle_notice" (idle_fields frame state request peer) l)
]

-- The request must be there, and the writer must be its target.
abbrev pub from_target :
    Station → Row → Option Peer → (Peer → Line → Ending × Line) → Line → Ending × Line
from_target st request peer go l = elim (peer_fault st request peer) [
  | some code ↦ (thrown (some code) request.message_id, l)
  | none ↦ elim peer [ none ↦ (thrown none none, l) | some p ↦ go p l ]
]

abbrev pub notice :
    Station
    → String
    → Option Peer
    → (Row → Peer → Line → Ending × Line)
    → Outcome (Option Row)
    → Line
    → Ending × Line
notice st reason peer go (err code) l = (thrown code none, l)
notice st reason peer go (ok none) l = (uncorrelated reason no_fields, l)
notice st reason peer go (ok (some request)) l = from_target st request peer (go request) l

-- `#correlatedReply`: what the hook throws is recorded, if that succeeds.
abbrev pub hook_fields : Row → Option String → Fields
hook_fields request code = record no_fields {
  message_id = request.message_id;
  alias = request.target_alias;
  error_code = elim code [ none ↦ some "CORRELATED_REPLY_HOOK_FAILED" | some c ↦ some c ];
}

abbrev pub correlated_reply : Station → Row → Line → Line
correlated_reply st request l = elim st.reply_hook [
  | none ↦ pause st.net l
  | some hook ↦ elim (hook l.waits) [
    | none ↦ pause st.net l
    | some code ↦
        (append_line st.net "peer_reply_hook_failed" (hook_fields request code) (pause st.net l)).1
  ]
]

abbrev pub hooked : Station → Row → Outcome Row × Line → Ending × Line
hooked st request (ok row, l) = (taken, correlated_reply st request l)
hooked st request (err code, l) = (thrown code none, l)

-- The row of an answer: the strict marker names the message in its own spelling.
abbrev pub verdict_of : Text → String
verdict_of v = if same_text v (codes "pass") then "pass" else "fail"

abbrev pub answer_fields : Marker → Row → Peer → Fields
answer_fields marker request peer =
    let base =
      evidence_fields (if marker.is_inband then "inband_header" else "application_ack") request peer
        (record no_fields {
          response_message_id = marker.message;
          thread_id = request.thread_id;
          verdict = elim marker.verdict [ none ↦ none | some v ↦ some (verdict_of v) ];
        }) in
    if marker.is_inband then base else record base { message_id = some marker.reply_to }

abbrev pub take_answer : Station → Marker → Option Text → Who → Row → Peer → Line → Ending × Line
take_answer st marker content who request peer l =
    if self_referencing marker
    then unmatched st "self_referencing_response" content who l
    else hooked st request (
        append_line st.net (if marker.is_ack then "peer_ack" else "peer_reply")
          (spooled st l.waits content (answer_fields marker request peer)) (pause st.net l))

-- A body that is not kept: the writer is none of the sessions.
abbrev pub quarantined : Station → String → Option Text → Option Header → Who → Line → Ending × Line
quarantined st reason content header who l = wrote (
  (quarantine (world_of st l.waits content) 0 reason
      (elim content [ none ↦ [] | some t ↦ st.encode t ]) header who l.store).0,
  record l {
    store =
        (quarantine (world_of st l.waits content) 0 reason
          (elim content [ none ↦ [] | some t ↦ st.encode t ]) header who l.store).1;
    waits = l.waits + 1;
  },
)

abbrev pub is_unauthenticated : Option Auth → Bool
is_unauthenticated none = false
is_unauthenticated (some (authenticated alias session)) = false
is_unauthenticated (some (unauthenticated reason)) = true

-- `{ ...who, ...postRecipientFields(recipient) }`
abbrev pub bound_who : Station → ℕ → String → Who → Who
bound_who st k recipient who = if str_eq recipient "*" then who else record who {
  recipient_kind = (st.recipient_fields k recipient).kind;
  recipient_session_id = (st.recipient_fields k recipient).session;
  recipient_thread_id = (st.recipient_fields k recipient).thread;
}

abbrev pub post_of_frame : Station → ℕ → Text → Text → Who → Post
post_of_frame st k id content who = record {
  id = id;
  to = post_recipient (some content);
  body = st.encode content;
  who = bound_who st k (post_recipient (some content)) who;
  from = "frame";
}

abbrev pub after_post : Line → Outcome Accepted × Store → Ending × Line
after_post l (ok a, s) = (taken, record l { store = s; waits = l.waits + 1 })
after_post l (err code, s) = (thrown code none, record l { store = s; waits = l.waits + 1 })

-- The id of a post's header, if the body is one.
abbrev pub posted_id : Option Header → Option Text
posted_id none = none
posted_id (some h) = if str_eq h.verb "PEER_POST" then h.header_message_id else none

abbrev pub take_post : Station → Option Text → Option Text → Who → Line → Ending × Line
take_post st (some body) (some id) who l =
    after_post l
      (accept_post (world_of st l.waits (some body)) (post_of_frame st l.waits id body who) l.store)
take_post st (some body) none who l = unmatched st "no_reply_marker" (some body) who l
take_post st none id who l = unmatched st "no_reply_marker" none who l

-- A body without a marker: a post, or nothing that is waited for.
abbrev pub take_unmarked : Station → Option Text → Bool → Who → Line → Ending × Line
take_unmarked st content unproved who l =
    if unproved
    then quarantined st "sender_unauthenticated" content (protocol_header content) who l
    else take_post st content (posted_id (protocol_header content)) who l

abbrev pub take_marked :
    Station → Marker → Option Text → Option Peer → Bool → Who → Replied → Line → Ending × Line
take_marked st marker content peer unproved who (lookup_failed code) l = (thrown code none, l)
take_marked st marker content peer unproved who (to_nothing reason) l =
    if unproved
    then quarantined st reason content (protocol_header content) who l
    else unmatched st reason content who l
take_marked st marker content peer unproved who (to_request request) l =
    from_target st request peer (take_answer st marker content who request) l

-- The strict reader first.
unfoldable pub read_marker : Station → Option Text → Option Marker
read_marker st content = elim (parse_marker st.net.utf8_length content) [
  | some marker ↦ some marker
  | none ↦ parse_reply_header st.net.utf8_length content
]

abbrev pub take_body :
    Station → Option Text → Option Peer → Option Marker → Option Auth → Line → Ending × Line
take_body st content peer none auth l =
    take_unmarked st content (is_unauthenticated auth) (sender_fields peer auth) l
take_body st content peer (some marker) auth l =
    take_marked st marker content peer (is_unauthenticated auth) (sender_fields peer auth)
      (reply_request l.store.events marker) l

-- The resolver is waited for, if there is one.
abbrev pub with_auth : Station → Option Text → Option Peer → Line → Ending × Line
with_auth st content peer l = elim st.sender_resolver [
  | none ↦ take_body st content peer (read_marker st content) none l
  | some resolve ↦
      take_body st content peer (read_marker st content) (some (resolve l.waits peer))
        (pause st.net l)
]

-- A control frame of one action that names a message.
abbrev pub is_action : String → Frame → Bool
is_action action frame =
    frame.is_control
    && (elim frame.action [ none ↦ false | some a ↦ str_eq a action ]
        && elim frame.orig_msg_id [ none ↦ false | some id ↦ true ])

-- `acceptFrame`
unfoldable pub accept_frame : Station → Frame → Option Peer → Line → Ending × Line
unfolding read_marker
accept_frame st frame peer l =
    if is_action "peer_message_status" frame
    then notice st "unknown_message_status" peer (take_status st frame)
        (request_by_transport l.store.events frame.orig_msg_id) l
    else if is_action "peer_idle_notice" frame
    then notice st "unknown_idle_notice" peer (take_idle st frame)
        (request_by_subscription l.store.events frame.orig_msg_id) l
    else with_auth st (unwrap_envelope st.hidden_in frame.content frame.from) peer l
