-- ===== src/Frames/Named.antt =====
-- The request that an answer names, and the row that names its writer (src/core/peer-core.mjs).
use universal_peer_mcp.Prelude.{
  ℕ, ◌≡◌, refl, arith, Bool, true, false, not, inl, inr, Option, none, some, List, [], ◌∷◌, String,
  Text, if◌then◌else◌, Outcome, ok, err, Bool-cases,
}
use universal_peer_mcp.Limits.{same_uuid}
use universal_peer_mcp.Ledger.{Row, Fields, Header}
use universal_peer_mcp.Ledger.Requests.{
  request, Lookup, ambiguous, missing, unique, request_by_reference,
}
use universal_peer_mcp.Spool.{spool_fields}
use universal_peer_mcp.Protocol.{Marker}
use universal_peer_mcp.Protocol.Header.{protocol_header}
use universal_peer_mcp.Frames.{
  Peer, Station, Replied, to_request, to_nothing, lookup_failed, strict_request, inband_request,
  reply_request,
}
use universal_peer_mcp.Frames.Accept.{spooled, answer_fields}
use universal_peer_mcp.Frames.Attested.{IsTargetOf}
use universal_peer_mcp.Frames.Finds.{IsRequest, request-IsRequest, request_by_reference-IsRequest}
use universal_peer_mcp.Frames.Steps.{IsTarget}

-- A request that a marker names: a strict marker names it in its own spelling.
abbrev pub Answers : List Row → Marker → Row → Type 0
Answers events marker r =
    IsRequest events r
    × (marker.is_inband ≡ false → same_uuid r.message_id (some marker.reply_to) ≡ true)

abbrev pub RepliedTo : List Row → Marker → Replied → Type 0
RepliedTo events marker (to_request r) = Answers events marker r
RepliedTo events marker (to_nothing reason) = Unit
RepliedTo events marker (lookup_failed code) = Unit

pub reply_request-RepliedTo :
    (events : List Row) (marker : Marker) → RepliedTo events marker (reply_request events marker)
unfolding reply_request
reply_request-RepliedTo events marker = go marker.is_inband refl
  where
    keep :
        (b : Bool) (r : Row) (reason : String)
        → Answers events marker r
        → RepliedTo events marker (if b then to_request r else to_nothing reason)
    keep true r reason h = h
    keep false r reason h = tt

    by_reference :
        (found : Lookup)
        → request_by_reference events (some marker.reply_to) ≡ found
        → marker.is_inband ≡ true
        → RepliedTo events marker (inband_request marker found)
    by_reference ambiguous e inband = tt
    by_reference missing e inband = tt
    by_reference (unique r) e inband = keep _ r "reply_thread_mismatch" (
      request_by_reference-IsRequest events (some marker.reply_to) r e,
      λ strict. absurd (ground (arith, inband, strict)),
    )

    by_id :
        (found : Outcome (Option Row))
        → request events (some marker.reply_to) ≡ found
        → RepliedTo events marker (strict_request marker found)
    by_id (err code) e = tt
    by_id (ok none) e = tt
    by_id (ok (some r)) e =
        let (m, same) = request-IsRequest events (some marker.reply_to) r e in
        keep (same_uuid r.thread_id marker.thread) r "unknown_reply_target" (m, λ strict. same)

    go :
        (b : Bool)
        → marker.is_inband ≡ b
        → RepliedTo events marker (
            if not b
            then strict_request marker (request events (some marker.reply_to))
            else inband_request marker (request_by_reference events (some marker.reply_to)))
    go true inband = by_reference (request_by_reference events (some marker.reply_to)) refl inband
    go false strict = by_id (request events (some marker.reply_to)) refl

-- A kept body changes none of the fields that name the message and the writer.
spool_fields-IsTargetOf :
    (sha256 : List ℕ → String) (header : List ℕ → Option Header) (name rendering : String)
    (body : List ℕ) (r : Row) (base : Fields)
    → IsTargetOf rendering r base
    → IsTargetOf rendering r (spool_fields sha256 header name body base)
unfolding spool_fields
spool_fields-IsTargetOf sha256 header name rendering [] r base h = h
spool_fields-IsTargetOf sha256 header name rendering (b ∷ body) r base h = h

pub spooled-IsTargetOf :
    (st : Station) (k : ℕ) (content : Option Text) (r : Row) (base : Fields)
    → IsTargetOf st.net.rendering r base
    → IsTargetOf st.net.rendering r (spooled st k content base)
spooled-IsTargetOf st k none r base h = h
spooled-IsTargetOf st k (some []) r base h = h
spooled-IsTargetOf st k (some (c ∷ t)) r base h = go st.has_spool (st.spool_fault k)
  where
    go :
        (b : Bool) (o : Option (Option String))
        → IsTargetOf st.net.rendering r (
            if b
            then elim o as (λ q. Fields) [
              | none ↦
                  spool_fields st.sha256
                    (λ bytes. protocol_header (some (c ∷ t)))
                    (st.spool_name k)
                    (st.encode (c ∷ t))
                    base
              | some code ↦ record base { body_storage_omitted = some "write_failed" }
            ]
            else base)
    go false o = h
    go true none =
        spool_fields-IsTargetOf st.sha256 (λ bytes. protocol_header (some (c ∷ t)))
          (st.spool_name k) st.net.rendering (st.encode (c ∷ t)) r base h
    go true (some code) = h

pub answer_fields-IsTargetOf :
    (rendering : String) (marker : Marker) (events : List Row) (r : Row) (p : Peer)
    → Answers events marker r
    → IsTarget rendering r p
    → IsTargetOf rendering r (answer_fields marker r p)
answer_fields-IsTargetOf rendering marker events r p ((_, typed), named) (rendered, pid, start) =
    elim (Bool-cases marker.is_inband) [
      | inl inband ↦ rw inband (typed, inl refl, rendered, (p.pid, refl, pid), start)
      | inr strict ↦ rw strict (typed, inr (named strict), rendered, (p.pid, refl, pid), start)
    ]
