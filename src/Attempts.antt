-- ===== src/Attempts.antt =====
-- src/core/attempts.mjs: `trace_attempt`, by which a path outside the daemon records what it is about
-- to do with a message and then how that ended. The arguments are an object of strings, as a list of
-- keys and values; `none` is a value that is not an object.
pub mod Once
pub mod Repeat
mod Tests
use universal_peer_mcp.Prelude.{
  Bool, true, false, not, ◌&&◌, ◌||◌, Option, none, some, List, [], ◌∷◌, String, Text, codes,
  same_text, str_eq, if◌then◌else◌, ltb, length, any, find?, filter, Outcome, ok, err, refuse, ℕ,
}
use universal_peer_mcp.Limits.{is_uuid, is_alias, is_code, same_uuid}
use universal_peer_mcp.Ledger.{Row, Fields, no_fields, is_type, Store, Moment, append_checked}

abbrev pub Args : Type 0
Args = List (String × String)

abbrev pub arg : String → Args → Option String
arg key [] = none
arg key ((k, v) ∷ rest) = if str_eq k key then some v else arg key rest

abbrev pub member : String → List String → Bool
member s [] = false
member s (t ∷ ts) = str_eq s t || member s ts

-- `ATTEMPT_PATHS` and `ATTEMPT_OUTCOMES`
abbrev pub attempt_paths : List String
attempt_paths = "codex_queue" ∷ "fallback_file" ∷ "peer_send" ∷ "manual" ∷ []

abbrev pub attempt_outcomes : List String
attempt_outcomes = "queued" ∷ "written" ∷ "failed" ∷ "unknown" ∷ []

-- `allowed`
abbrev pub intent_keys : List String
intent_keys =
    "phase" ∷ "messageId" ∷ "attemptId" ∷ "path" ∷ "receiverAlias" ∷ "receiverThreadId" ∷ []

abbrev pub outcome_keys : List String
outcome_keys = "phase" ∷ "messageId" ∷ "attemptId" ∷ "outcome" ∷ "returnedId" ∷ "errorCode" ∷ []

abbrev only_keys : List String → Args → Bool
only_keys allowed [] = true
only_keys allowed ((k, v) ∷ rest) = member k allowed && only_keys allowed rest

-- A value that must be there, and one that may be missing.
abbrev needs : (String → Bool) → Option String → Bool
needs p none = false
needs p (some v) = p v

abbrev admits : (String → Bool) → Option String → Bool
admits p none = true
admits p (some v) = p v

abbrev present : Option String → Bool
present none = false
present (some v) = true

abbrev uuid_string : String → Bool
uuid_string v = is_uuid (codes v)

abbrev pub text_of : Option String → Option Text
text_of none = none
text_of (some v) = some (codes v)

-- The guards of the two phases, and the data that is kept: the arguments without `phase`.
abbrev pub valid_ids : Args → Bool
valid_ids args =
    needs uuid_string (arg "messageId" args) && needs uuid_string (arg "attemptId" args)

abbrev pub valid_intent : Args → Bool
valid_intent args =
    only_keys intent_keys args
    && (valid_ids args
        && (needs (λ v. member v attempt_paths) (arg "path" args)
            && ((present (arg "receiverAlias" args) || present (arg "receiverThreadId" args))
                && (admits is_alias (arg "receiverAlias" args)
                    && admits uuid_string (arg "receiverThreadId" args)))))

abbrev pub valid_outcome : Args → Bool
valid_outcome args =
    only_keys outcome_keys args
    && (valid_ids args
        && (needs (λ v. member v attempt_outcomes) (arg "outcome" args)
            && (admits uuid_string (arg "returnedId" args)
                && admits is_code (arg "errorCode" args))))

abbrev pub intent_fields : Args → Fields
intent_fields args = record no_fields {
  message_id = text_of (arg "messageId" args);
  attempt_id = text_of (arg "attemptId" args);
  path = arg "path" args;
  receiver_alias = arg "receiverAlias" args;
  receiver_thread_id = text_of (arg "receiverThreadId" args);
}

abbrev pub outcome_fields : Args → Fields
outcome_fields args = record no_fields {
  message_id = text_of (arg "messageId" args);
  attempt_id = text_of (arg "attemptId" args);
  outcome = arg "outcome" args;
  returned_id = text_of (arg "returnedId" args);
  error_code = arg "errorCode" args;
}

abbrev pub in_phase : String → Args → Bool
in_phase phase args = needs (λ v. str_eq v phase) (arg "phase" args)

-- `{ type, data }`
pub data Kind : Type 0 where
  intent outcome_kind : Kind

abbrev pub kind_type : Kind → String
kind_type intent = "attempt_intent"
kind_type outcome_kind = "attempt_outcome"

-- `attemptRow`: every refusal has the same code.
unfoldable pub attempt_row : Option Args → Outcome (Kind × Fields)
attempt_row none = refuse "INVALID_CONTROL_ARGUMENTS"
attempt_row (some args) =
    if in_phase "intent" args && valid_intent args
    then ok (intent, intent_fields args)
    else if in_phase "outcome" args && valid_outcome args
    then ok (outcome_kind, outcome_fields args)
    else refuse "INVALID_CONTROL_ARGUMENTS"

-- `===` on two ids that may be missing.
abbrev pub same_id : Option Text → Option Text → Bool
same_id none none = true
same_id (some a) (some b) = same_text a b
same_id _ _ = false

-- `same`
abbrev pub is_same_attempt : Fields → Row → Bool
is_same_attempt data' row =
    same_id row.attempt_id data'.attempt_id
    && (is_type "attempt_intent" row || is_type "attempt_outcome" row)

abbrev pub outcome_conflict : Fields → List Row → Option String
outcome_conflict data' same = elim (find? (is_type "attempt_intent") same) [
  | none ↦ some "ATTEMPT_UNKNOWN"
  | some recorded ↦
      if not (same_uuid recorded.message_id data'.message_id)
      then some "ATTEMPT_UNKNOWN"
      else if any (is_type "attempt_outcome") same
      then some "ATTEMPT_DUPLICATE"
      else none
]

-- `attemptConflict`
unfoldable pub attempt_conflict : Kind → Fields → List Row → Option String
attempt_conflict intent data' events =
    if ltb 0 (length (filter (is_same_attempt data') events))
    then some "ATTEMPT_DUPLICATE"
    else none
attempt_conflict outcome_kind data' events =
    outcome_conflict data' (filter (is_same_attempt data') events)

-- `recordAttempt`, on the store as the chain reaches its write.
unfoldable pub record_attempt : (Row → ℕ) → Moment → Option Args → Store → Outcome Row × Store
unfolding attempt_row
record_attempt line_bytes m args s = elim (attempt_row args) [
  | err code ↦ (err code, s)
  | ok (kind, data') ↦
      append_checked line_bytes m (kind_type kind) data' (attempt_conflict kind data') s
]
