-- ===== src/Doorbells/Ring.antt =====
-- `ring` of src/core/doorbell-service.mjs, with `#record`, `#ringClaude` and `#queueFallback`.
use universal_peer_mcp.Prelude.{
  ℕ, Bool, true, false, not, ◌||◌, Option, none, some, List, String, Text, str_eq, ◌==◌,
  if◌then◌else◌, any, Outcome, ok, err,
}
use universal_peer_mcp.Ledger.{Row, Fields, no_fields}
use universal_peer_mcp.Ledger.Requests.{is_for, request}
use universal_peer_mcp.Receipts.{says}
use universal_peer_mcp.Doorbells.{
  Host, Bell, wait, send_out, woke, queued, wrote, woken, wake_failed, Written, written, replayed,
  write_failed, append_row, append_claim, ring_code, post_of, id_of, has_session, generation_of,
  binding_of, Attempt, attempt_of, authorize,
}

-- How a ring ends: with a state that a row records, or before any row.
pub data Rung : Type 0 where
  recorded : String → ℕ → Rung
  joined not_applicable duplicate_intent stale_generation : Rung

-- `#record`. The extras of the answer (`mode`, `turnId`, `replay`, `via`, `reason`) are not kept.
abbrev pub outcome_fields : Row → String → Option String → Attempt → Fields
outcome_fields post state error attempt = record no_fields {
  message_id = post.message_id;
  recipient = post.recipient;
  recipient_kind = post.recipient_kind;
  thread_id = attempt.binding;
  state = some state;
  relink_seq = if attempt.generation == 0 then none else some attempt.generation;
  error_code = error;
}

abbrev pub with_state : String → Outcome Row × Bell → Outcome Rung × Bell
with_state state (ok row, b) = (ok (recorded state row.seq), b)
with_state state (err code, b) = (err code, b)

unfoldable pub record_outcome :
    Host → Row → Attempt → String → Option String → Bell → Outcome Rung × Bell
record_outcome h post attempt state error b =
    with_state state (append_row h "doorbell_outcome" (outcome_fields post state error attempt) b)

-- After the line was written, or was not.
abbrev pub claude_state : Written → String × Option String
claude_state written = ("sent", none)
claude_state (replayed none) = ("unknown", some "REPLAY_NOT_WRITTEN")
claude_state (replayed (some status)) =
    if str_eq status "written"
      || (str_eq status "delivered"
          || (str_eq status "held"
              || (str_eq status "idle"
                  || (str_eq status "acknowledged" || str_eq status "replied"))))
    then ("sent", none)
    else ("unknown", some "REPLAY_NOT_WRITTEN")
claude_state (write_failed error) =
    if str_eq (ring_code error) "DELIVERY_UNCERTAIN"
      || str_eq (ring_code error) "MESSAGE_ID_CONFLICT"
    then ("unknown", some (ring_code error))
    else ("not_sent", some (ring_code error))

-- The reservation under the derived id, if there is exactly one; its wording must be a known one.
abbrev pub wording_ok : Host → Attempt → List Row → Bool
wording_ok h attempt events = elim (request events (some attempt.claude_id)) [
  | ok none ↦ true
  | ok (some prior) ↦ h.known_wording prior
  | err code ↦ true
]

-- `#ringClaude`
unfoldable pub ring_claude : Host → Row → Attempt → Bell → Outcome Rung × Bell
unfolding record_outcome
ring_claude h post attempt b =
    if not h.sends_claude
    then record_outcome h post attempt "not_sent" (some "DOORBELL_NOT_CONFIGURED") b
    else if not (wording_ok h attempt b.store.events)
    then record_outcome h post attempt "unknown" (some "DOORBELL_ENVELOPE_UNKNOWN") b
    else elim (authorize h b.waits post.recipient (id_of post) attempt b.store.events) [
      | some verdict ↦ record_outcome h post attempt "not_sent" (some verdict) b
      | none ↦
          let (state, error) = claude_state (h.send_claude b.waits) in
          record_outcome h post attempt state error
            (send_out h (wrote attempt.binding attempt.claude_id) b)
    ]

abbrev pub same_version : Option String → String → Bool
same_version none pin = false
same_version (some v) pin = str_eq v pin

-- `#queueFallback`: the version of the command line is asked for, which waits.
unfoldable pub queue_fallback : Host → Row → Attempt → Bell → Outcome Rung × Bell
unfolding record_outcome
queue_fallback h post attempt b = elim h.pinned_version [
  | none ↦ record_outcome h post attempt "not_sent" (some "VERSION_UNKNOWN") b
  | some pin ↦
      let c = wait h b in
      if not (same_version (h.cli_version b.waits) pin)
      then record_outcome h post attempt "not_sent" (some "VERSION_MISMATCH") c
      else elim (authorize h c.waits post.recipient (id_of post) attempt c.store.events) [
        | some verdict ↦ record_outcome h post attempt "not_sent" (some verdict) c
        | none ↦
            let d = send_out h (queued attempt.binding) c in
            elim (h.enqueue c.waits) [
              | none ↦ record_outcome h post attempt "held" none d
              | some error ↦
                  record_outcome h post attempt
                    (if str_eq (ring_code error) "INVALID_QUEUE_CALL"
                      then "not_sent"
                      else "unknown")
                    (some (ring_code error)) d
            ]
      ]
]

-- The wake of a Codex thread, and what is done with its answer.
unfoldable pub ring_codex : Host → Row → Attempt → Bell → Outcome Rung × Bell
unfolding queue_fallback
ring_codex h post attempt b =
    let c = send_out h (woke attempt.binding attempt.attempt_key) b in
    if not h.configured
    then record_outcome h post attempt "not_sent" (some "DOORBELL_NOT_CONFIGURED") b
    else elim (h.wake b.waits) [
      | woken held ↦ record_outcome h post attempt (if held then "held" else "sent") none c
      | wake_failed error ↦
          if str_eq (ring_code error) "DELIVERY_UNCERTAIN"
          then record_outcome h post attempt "unknown" (some (ring_code error)) c
          else if str_eq (ring_code error) "TARGET_UNAVAILABLE"
          then queue_fallback h post attempt c
          else record_outcome h post attempt "not_sent" (some (ring_code error)) c
    ]

-- The part of a ring after the intent or the retry is on the ledger.
unfoldable pub ring_attempt : Host → Row → ℕ → Bell → Outcome Rung × Bell
unfolding ring_claude ring_codex
ring_attempt h post expected b =
    let attempt = attempt_of h post b.store.events in
    if not (attempt.generation == expected)
    then (ok stale_generation, b)
    else elim (authorize h b.waits post.recipient (id_of post) attempt b.store.events) [
      | some verdict ↦ record_outcome h post attempt "not_sent" (some verdict) b
      | none ↦
          if says post.recipient_kind "claude"
          then ring_claude h post attempt b
          else ring_codex h post attempt b
    ]

pub data Mode : Type 0 where
  first retry plain : Mode

abbrev pub intent_fields : Row → List Row → Fields
intent_fields post events = record no_fields {
  message_id = post.message_id;
  recipient = post.recipient;
  recipient_kind = post.recipient_kind;
  thread_id = binding_of post events;
}

-- One intent for each message, decided inside the chain.
abbrev pub intent_dup : Text → List Row → Option String
intent_dup id events = if any (is_for "doorbell_intent" (some id)) events then some "DUP" else none

abbrev pub after_claim : Host → Row → ℕ → Outcome Row × Bell → Outcome Rung × Bell
after_claim h post expected (ok row, b) = ring_attempt h post expected b
after_claim h post expected (err none, b) = (err none, b)
after_claim h post expected (err (some code), b) =
    if str_eq code "DUP" then (ok duplicate_intent, b) else (err (some code), b)

abbrev pub after_retry : Host → Row → ℕ → Outcome Row × Bell → Outcome Rung × Bell
after_retry h post expected (ok row, b) = ring_attempt h post expected b
after_retry h post expected (err code, b) = (err code, b)

abbrev pub retry_fields : Row → Fields
retry_fields post = record no_fields { message_id = post.message_id }

unfoldable pub ring_mode : Host → Text → Mode → Row → ℕ → Bell → Outcome Rung × Bell
unfolding ring_attempt
ring_mode h id first post expected b =
    after_claim h post expected
      (append_claim h "doorbell_intent" (intent_fields post b.store.events) (intent_dup id) b)
ring_mode h id retry post expected b =
    after_retry h post expected (append_row h "doorbell_retry" (retry_fields post) b)
ring_mode h id plain post expected b = ring_attempt h post expected b

abbrev pub expected_generation : Option ℕ → Text → List Row → ℕ
expected_generation (some g) id events = g
expected_generation none id events = elim (post_of id events) [
  | none ↦ 0
  | some post ↦ generation_of post events
]

-- `ring`: a ring of the same message and generation that runs already is joined.
unfoldable pub ring : Host → Text → Mode → Option ℕ → Bell → Outcome Rung × Bell
unfolding ring_mode
ring h id mode generation b =
    if h.is_running b.waits id then (ok joined, wait h b) else elim (post_of id b.store.events) [
      | none ↦ (ok not_applicable, b)
      | some post ↦
          if has_session post
          then ring_mode h id mode post (expected_generation generation id b.store.events) b
          else (ok not_applicable, b)
    ]
