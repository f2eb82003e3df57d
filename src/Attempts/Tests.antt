-- ===== src/Attempts/Tests.antt =====
-- Runs of `trace_attempt` (src/core/attempts.mjs) at concrete inputs.
use universal_peer_mcp.Prelude.{
  ℕ, ◌≡◌, refl, map, lower, some, [], ◌∷◌, String, codes, arith, refuse,
}
use universal_peer_mcp.Limits.{is_uuid, is_alias, is_code, is_uuid_any, same_uuid}
use universal_peer_mcp.Ledger.{Row, Store, Moment, synced, fresh, stamp, append, append_checked}
use universal_peer_mcp.Attempts.{Args, intent_fields, attempt_row, attempt_conflict, record_attempt}
use universal_peer_mcp.Attempts.Once.{Kept, record_attempt-Kept}
use universal_peer_mcp.Attempts.Repeat.{record_attempt-again}

runs : Unit {0}
unfolding record_attempt attempt_row attempt_conflict append_checked append stamp is_uuid is_alias
    is_code same_uuid is_uuid_any lower
runs = tt

abbrev message_a : String
message_a = "0a1b2c3d-1111-4111-8111-00000000000a"

abbrev attempt_1 : String
attempt_1 = "0a1b2c3d-1111-4111-8111-0000000000a1"

abbrev queue_it : Args
queue_it =
    ("phase", "intent")
    ∷ ("messageId", message_a)
    ∷ ("attemptId", attempt_1)
    ∷ ("path", "codex_queue")
    ∷ ("receiverAlias", "reviewer")
    ∷ []

abbrev queued : Args
queued =
    ("phase", "outcome")
    ∷ ("messageId", message_a)
    ∷ ("attemptId", attempt_1)
    ∷ ("outcome", "queued")
    ∷ []

abbrev at_noon : Moment
at_noon = record { now = 1200; disk = synced }

abbrev bytes : Row → ℕ
bytes row = 300

abbrev queuing : Store
queuing = (record_attempt bytes at_noon (some queue_it) fresh).1

-- An outcome with no intent, an outcome after its intent, and arguments with a text field.
unknown_attempt : (record_attempt bytes at_noon (some queued) fresh).0 ≡ refuse "ATTEMPT_UNKNOWN"
unfolding runs
unknown_attempt = refl

outcome_types :
    map (λ (r : Row). r.type) (record_attempt bytes at_noon (some queued) queuing).1.events
    ≡ "attempt_intent" ∷ "attempt_outcome" ∷ []
unfolding runs
outcome_types = refl

no_text : attempt_row (some (("text", "hello") ∷ queue_it)) ≡ refuse "INVALID_CONTROL_ARGUMENTS"
unfolding runs
no_text = refl

record_attempt-Kept_example :
    Kept (some (codes attempt_1)) (record_attempt bytes at_noon (some queued) queuing).1.events
unfolding runs
record_attempt-Kept_example =
    record_attempt-Kept bytes at_noon (some queued) queuing (some (codes attempt_1))
      (omega arith, omega arith)

record_attempt-again_example :
    record_attempt bytes at_noon (some queue_it) queuing ≡ (refuse "ATTEMPT_DUPLICATE", queuing)
unfolding runs
record_attempt-again_example =
    record_attempt-again bytes at_noon at_noon (some queue_it) fresh queuing queuing
      (stamp 1 "attempt_intent" 1200 (intent_fields queue_it)) [] refl refl refl
