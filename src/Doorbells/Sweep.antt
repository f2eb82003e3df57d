-- ===== src/Doorbells/Sweep.antt =====
-- `onAppend` and `sweep` of src/core/doorbell-service.mjs.
use universal_peer_mcp.Prelude.{
  ℕ, ◌+◌, ◌*◌, Bool, not, ◌&&◌, ◌||◌, none, some, List, [], ◌∷◌, ltb, if◌then◌else◌, any, filter,
  Outcome, ok, err,
}
use universal_peer_mcp.Ledger.{Row, Fields, no_fields, is_type}
use universal_peer_mcp.Ledger.Requests.{is_for}
use universal_peer_mcp.Receipts.{says}
use universal_peer_mcp.Doorbells.{
  Host, Bell, wait, append_row, outcome_of, is_done, id_of, has_session, attempt_of,
}
use universal_peer_mcp.Doorbells.Ring.{Rung, first, retry, record_outcome, ring}

-- A step of the service that others wait for: it may throw.
abbrev pub done_with : Outcome Rung × Bell → Outcome (Unit {0}) × Bell
done_with (ok rung, b) = (ok tt, b)
done_with (err code, b) = (err code, b)

abbrev pub done_row : Outcome Row × Bell → Outcome (Unit {0}) × Bell
done_row (ok row, b) = (ok tt, b)
done_row (err code, b) = (err code, b)

abbrev pub stale_fields : Row → Row → Fields
stale_fields row out = record no_fields { message_id = row.message_id; recipient = out.recipient }

-- A queued doorbell whose message is processed first is recorded as stale, once.
abbrev pub note_stale : Host → Row → Bell → Outcome (Unit {0}) × Bell
note_stale h row b = elim (outcome_of (id_of row) b.store.events) [
  | none ↦ (ok tt, b)
  | some out ↦
      if says out.state "held" && not (any (is_for "doorbell_stale" row.message_id) b.store.events)
      then done_row (append_row h "doorbell_stale" (stale_fields row out) b)
      else (ok tt, b)
]

-- `onAppend`
unfoldable pub on_append : Host → Row → Bell → Outcome (Unit {0}) × Bell
on_append h row b =
    if is_type "peer_post_processed" row
    then note_stale h row b
    else if is_type "peer_post" row && has_session row
    then done_with (ring h (id_of row) first none b)
    else (ok tt, b)

-- `UNKNOWN_ALERT_AFTER_MS`
abbrev pub unknown_alert_after_ms : ℕ
unknown_alert_after_ms = 30 * 60 * 1000

abbrev pub alert_fields : Row → Row → Fields
alert_fields post outcome = record no_fields {
  message_id = post.message_id;
  recipient = post.recipient;
  state = outcome.state;
  error_code = elim outcome.error_code [ none ↦ some "UNKNOWN" | some c ↦ some c ];
}

-- An alarm is raised, which waits; a fault of it is dropped.
abbrev pub after_alert : Host → Outcome Row × Bell → Outcome (Unit {0}) × Bell
after_alert h (ok row, b) = (ok tt, wait h b)
after_alert h (err code, b) = (err code, b)

abbrev pub is_young : Host → ℕ → Row → Bool
is_young h k outcome = ltb (h.now k) (outcome.at + unknown_alert_after_ms)

-- The alarm of an outcome that needs a hand.
unfoldable pub alert : Host → Row → Row → Bell → Outcome (Unit {0}) × Bell
alert h post outcome b =
    if not (says outcome.state "not_sent") && not (says outcome.state "unknown")
    then (ok tt, b)
    else if says outcome.state "unknown" && is_young h b.waits outcome
    then (ok tt, b)
    else if any (is_for "doorbell_alerted" post.message_id) b.store.events
    then (ok tt, b)
    else after_alert h (append_row h "doorbell_alerted" (alert_fields post outcome) b)

-- An intent with no outcome: one retry, and then `unknown`.
unfoldable pub resume : Host → Row → Bell → Outcome (Unit {0}) × Bell
resume h post b =
    if any (is_for "doorbell_retry" post.message_id) b.store.events
    then done_with (
        record_outcome h post (attempt_of h post b.store.events) "unknown" (some "RETRY_EXHAUSTED")
          b)
    else done_with (ring h (id_of post) retry none b)

-- The body of the loop of `sweep`.
unfoldable pub sweep_post : Host → Row → Bell → Outcome (Unit {0}) × Bell
unfolding resume alert
sweep_post h post b =
    if is_done (id_of post) b.store.events || h.is_running b.waits (id_of post)
    then (ok tt, b)
    else if not (any (is_for "doorbell_intent" post.message_id) b.store.events)
    then done_with (ring h (id_of post) first none b)
    else elim (outcome_of (id_of post) b.store.events) [
      | none ↦ resume h post b
      | some outcome ↦ alert h post outcome b
    ]

unfoldable pub sweep_posts : Host → List Row → Bell → Outcome (Unit {0}) × Bell
unfolding sweep_post
sweep_posts h [] b = (ok tt, b)
sweep_posts h (post ∷ posts) b =
    let next = sweep_posts h posts (sweep_post h post b).1 in
    elim (sweep_post h post b).0 [ ok u ↦ next | err code ↦ (err code, (sweep_post h post b).1) ]

abbrev pub is_ringable : Row → Bool
is_ringable row = is_type "peer_post" row && has_session row

-- `sweep`, over the posts that were there when it began. The counts of its report are not kept.
unfoldable pub sweep : Host → Bell → Outcome (Unit {0}) × Bell
unfolding sweep_posts
sweep h b = sweep_posts h (filter is_ringable b.store.events) b
