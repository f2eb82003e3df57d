-- ===== src/Frames/Sound.antt =====
-- `acceptFrame` and the handler around it (src/core/peer-core.mjs) keep every row of evidence proved.
use universal_peer_mcp.Prelude.{
  ℕ, ◌≡◌, refl, Bool, false, inl, inr, Option, none, some, [], String, Text, if◌then◌else◌, Outcome,
  ok, err, ap, Option-cases,
}
use universal_peer_mcp.Ledger.{Row, Fields, Store, Header}
use universal_peer_mcp.Ledger.Requests.{request_by_transport, request_by_subscription}
use universal_peer_mcp.Posts.{
  Who, Post, Accepted, append_in, append_checked_in, post_fields, post_race, accept_post,
}
use universal_peer_mcp.Posts.Accept.Steps.{IsMark, accept_post_inv}
use universal_peer_mcp.Posts.Quarantine.{quarantine, quarantine_fields}
use universal_peer_mcp.Core.{Line, pause, append_line}
use universal_peer_mcp.Protocol.{Marker}
use universal_peer_mcp.Protocol.Header.{protocol_header}
use universal_peer_mcp.Protocol.Envelope.{unwrap_envelope}
use universal_peer_mcp.Frames.{
  Peer, Frame, Auth, Station, Ending, world_of, Replied, to_request, to_nothing, lookup_failed,
  reply_request, self_referencing, sender_fields,
}
use universal_peer_mcp.Frames.Accept.{
  spooled, take_status, take_idle, hook_fields, correlated_reply, hooked, answer_fields,
  take_answer, quarantined, is_unauthenticated, post_of_frame, after_post, posted_id, take_post,
  take_marked, read_marker, take_body, with_auth, is_action, accept_frame,
}
use universal_peer_mcp.Frames.Attested.{
  is_evidence_type, Keeps, Keeps-refl, Keeps-trans, Memᴰ-Grows, plain-Shown, append-Keeps,
  append_checked-Keeps,
}
use universal_peer_mcp.Frames.Finds.{
  IsRequest, request_by_transport-IsRequest, request_by_subscription-IsRequest,
}
use universal_peer_mcp.Frames.Steps.{
  IsTarget, Fair, From, pause-From, append_plain-From, append_evidence-From, wrote-From, pick-From,
  stay, take_status-From, take_idle-From, from_target-From, notice-From,
}
use universal_peer_mcp.Frames.Named.{
  Answers, RepliedTo, reply_request-RepliedTo, spooled-IsTargetOf, answer_fields-IsTargetOf,
}

module _ (st : Station) (fair : Fair st) where
  trans :
      (l : Line) (s : Line) (t : Line)
      → Keeps st.net.rendering l.store s.store
      → Keeps st.net.rendering s.store t.store
      → Keeps st.net.rendering l.store t.store
  trans l s t = Keeps-trans st.net.rendering l.store s.store t.store

  correlated_reply-From :
      (r : Row) (l : Line) → Keeps st.net.rendering l.store (correlated_reply st r l).store
  correlated_reply-From r l = elim (Option-cases st.reply_hook) [
    | inl none_installed ↦ rw (correlated_reply, none_installed) (pause-From st fair l)
    | inr (hook, installed) ↦ elim (Option-cases (hook l.waits)) [
      | inl passed ↦ rw (correlated_reply, installed, passed) (pause-From st fair l)
      | inr (code, failed) ↦
          rw (correlated_reply, installed, failed)
            (trans l (pause st.net l)
              (append_line st.net "peer_reply_hook_failed" (hook_fields r code) (pause st.net l)).1
              (pause-From st fair l)
              (append_plain-From st fair "peer_reply_hook_failed" (hook_fields r code)
                (pause st.net l) refl))
    ]
  ]

  hooked-From :
      (r : Row) (l : Line) (o : Outcome Row × Line) → From st l o → From st l (hooked st r o)
  hooked-From r l (ok row, l') h =
      trans l l' (correlated_reply st r l') h (correlated_reply-From r l')
  hooked-From r l (err code, l') h = h

  take_answer-From :
      (marker : Marker) (content : Option Text) (who : Who) (r : Row) (p : Peer) (l : Line)
      → Answers l.store.events marker r
      → IsTarget st.net.rendering r p
      → From st l (take_answer st marker content who r p l)
  take_answer-From marker content who r p l answers target =
      pick-From st fair l (self_referencing marker) _ _ (pause-From st fair l) (
        hooked-From r l written (
          trans l (pause st.net l) written.1 (pause-From st fair l) (
            append_evidence-From st fair type kept (pause st.net l) r (grown answers.0) (
              spooled-IsTargetOf st l.waits content r (answer_fields marker r p) (
                answer_fields-IsTargetOf st.net.rendering marker l.store.events r p answers
                  target)))))
    where
      type : String
      type = if marker.is_ack then "peer_ack" else "peer_reply"

      kept : Fields
      kept = spooled st l.waits content (answer_fields marker r p)

      written : Outcome Row × Line
      written = append_line st.net type kept (pause st.net l)

      grown : IsRequest l.store.events r → IsRequest (pause st.net l).store.events r
      grown (here, typed) = (
        Memᴰ-Grows st.net.rendering r l.store (pause st.net l).store (pause-From st fair l).0 here,
        typed,
      )

  append_in-Keeps :
      (j : ℕ) (content : Option Text) (k : ℕ) (kind : String) (fields : Fields) (t : Store)
      → is_evidence_type kind ≡ false
      → Keeps st.net.rendering t (append_in (world_of st j content) k kind fields t).1
  append_in-Keeps j content k kind fields t plain =
      Keeps-trans st.net.rendering t (st.others_in_post j k t)
        (append_in (world_of st j content) k kind fields t).1 (fair.1 j k t)
        (append-Keeps st.net.rendering st.net.line_bytes (st.moment_in_post j k) kind fields
          (st.others_in_post j k t) (plain-Shown st.net.rendering kind fields _ plain))

  quarantined-From :
      (reason : String) (content : Option Text) (header : Option Header) (who : Who) (l : Line)
      → From st l (quarantined st reason content header who l)
  unfolding quarantine
  quarantined-From reason content header who l = wrote-From st fair l _ (
      append_in-Keeps l.waits content 0 "peer_frame_quarantined"
        (quarantine_fields (world_of st l.waits content) reason
          (elim content [ none ↦ [] | some t ↦ st.encode t ]) header who)
        l.store refl)

  after_post-From :
      (l : Line) (o : Outcome Accepted × Store)
      → Keeps st.net.rendering l.store o.1
      → From st l (after_post l o)
  after_post-From l (ok a, s) h = h
  after_post-From l (err code, s) h = h

  -- While a post is taken, no row of evidence is written.
  post-Keeps :
      (j : ℕ) (content : Option Text) (p : Post) (s : Store)
      → Keeps st.net.rendering s (accept_post (world_of st j content) p s).1
  post-Keeps j content p s =
      accept_post_inv (world_of st j content) (Keeps st.net.rendering s)
        (λ k t h. Keeps-trans st.net.rendering s t (st.others_in_post j k t) h (fair.1 j k t))
        (λ k kind fields t mark h.
          Keeps-trans st.net.rendering s t (append_in (world_of st j content) k kind fields t).1 h
            (append_in-Keeps j content k kind fields t (no_evidence kind mark)))
        p s
        (λ t h.
          Keeps-trans st.net.rendering s t
            (append_checked_in (world_of st j content) 1 "peer_post"
              (post_fields (world_of st j content) p) (post_race p.id) t).1
            h (posted t))
        (Keeps-refl st.net.rendering s)
    where
      no_evidence : (kind : String) → IsMark kind → is_evidence_type kind ≡ false
      no_evidence kind (inl e) = ap is_evidence_type e
      no_evidence kind (inr (inl e)) = ap is_evidence_type e
      no_evidence kind (inr (inr e)) = ap is_evidence_type e

      posted :
          (t : Store)
          → Keeps st.net.rendering t
              (append_checked_in
                (world_of st j content)
                1
                "peer_post"
                (post_fields (world_of st j content) p)
                (post_race p.id)
                t).1
      posted t =
          Keeps-trans st.net.rendering t (st.others_in_post j 1 t)
            (append_checked_in (world_of st j content) 1 "peer_post"
              (post_fields (world_of st j content) p) (post_race p.id) t).1
            (fair.1 j 1 t)
            (append_checked-Keeps st.net.rendering st.net.line_bytes (st.moment_in_post j 1)
              "peer_post" (post_fields (world_of st j content) p) (post_race p.id)
              (st.others_in_post j 1 t)
              (plain-Shown st.net.rendering "peer_post" (post_fields (world_of st j content) p)
                (st.others_in_post j 1 t).events refl))

  take_post-From :
      (content id : Option Text) (who : Who) (l : Line) → From st l (take_post st content id who l)
  take_post-From (some body) (some id) who l =
      after_post-From l
        (accept_post (world_of st l.waits (some body)) (post_of_frame st l.waits id body who)
          l.store)
        (post-Keeps l.waits (some body) (post_of_frame st l.waits id body who) l.store)
  take_post-From (some body) none who l = pause-From st fair l
  take_post-From none id who l = pause-From st fair l

  take_marked-From :
      (marker : Marker) (content : Option Text) (peer : Option Peer) (unproved : Bool) (who : Who)
      (replied : Replied) (l : Line)
      → RepliedTo l.store.events marker replied
      → From st l (take_marked st marker content peer unproved who replied l)
  take_marked-From marker content peer unproved who (lookup_failed code) l h = stay st fair l
  take_marked-From marker content peer unproved who (to_nothing reason) l h =
      pick-From st fair l unproved _ _
        (quarantined-From reason content (protocol_header content) who l) (pause-From st fair l)
  take_marked-From marker content peer unproved who (to_request r) l h =
      from_target-From st fair r peer (take_answer st marker content who r) l
        (λ p target. take_answer-From marker content who r p l h target)

  take_body-From :
      (content : Option Text) (peer : Option Peer) (marker : Option Marker) (auth : Option Auth)
      (l : Line)
      → From st l (take_body st content peer marker auth l)
  take_body-From content peer none auth l =
      pick-From st fair l (is_unauthenticated auth) _ _
        (quarantined-From "sender_unauthenticated" content (protocol_header content)
          (sender_fields peer auth) l)
        (take_post-From content (posted_id (protocol_header content)) (sender_fields peer auth) l)
  take_body-From content peer (some marker) auth l =
      take_marked-From marker content peer (is_unauthenticated auth) (sender_fields peer auth)
        (reply_request l.store.events marker) l (reply_request-RepliedTo l.store.events marker)

  with_auth-From :
      (content : Option Text) (peer : Option Peer) (l : Line)
      → From st l (with_auth st content peer l)
  with_auth-From content peer l = go st.sender_resolver
    where
      go :
          (o : Option (ℕ → Option Peer → Auth))
          → From st l (elim o as (λ q. Ending × Line) [
            | none ↦ take_body st content peer (read_marker st content) none l
            | some resolve ↦
                take_body st content peer
                  (read_marker st content)
                  (some (resolve l.waits peer))
                  (pause st.net l)
          ])
      go none = take_body-From content peer (read_marker st content) none l
      go (some resolve) =
          trans l (pause st.net l)
            (take_body st content peer (read_marker st content) (some (resolve l.waits peer))
              (pause st.net l)).1
            (pause-From st fair l)
            (take_body-From content peer (read_marker st content) (some (resolve l.waits peer))
              (pause st.net l))

  pub accept_frame-From :
      (frame : Frame) (peer : Option Peer) (l : Line) → From st l (accept_frame st frame peer l)
  unfolding accept_frame
  accept_frame-From frame peer l =
      pick-From st fair l (is_action "peer_message_status" frame) _ _
        (notice-From st fair "unknown_message_status" peer (take_status st frame)
          (request_by_transport l.store.events frame.orig_msg_id) l
          (request_by_transport-IsRequest l.store.events frame.orig_msg_id)
          (λ r p request target. take_status-From st fair frame r p l request target))
        (pick-From st fair l (is_action "peer_idle_notice" frame) _ _
          (notice-From st fair "unknown_idle_notice" peer (take_idle st frame)
            (request_by_subscription l.store.events frame.orig_msg_id) l
            (request_by_subscription-IsRequest l.store.events frame.orig_msg_id)
            (λ r p request target. take_idle-From st fair frame r p l request target))
          (with_auth-From (unwrap_envelope st.hidden_in frame.content frame.from) peer l))
