-- ===== src/Trace.antt =====
-- src/core/trace.mjs: the stage that a row stands for, the pairing of the two rows of a failed succession, and
-- the daily counts; with `dayOf` of src/core/days.mjs, a day being its number from the first of the calendar.
pub mod Once
mod Tests
use universal_peer_mcp.Prelude.{
  ℕ, ◌+◌, ◌*◌, Bool, true, false, not, ◌&&◌, ◌||◌, Option, none, some, List, [], ◌∷◌, ◌++◌, String,
  Text, lower, same_text, leb, str_eq, ◌==◌, if◌then◌else◌, any, find?, take, count,
}
use Prim.Native.Nat.{◌/◌}
use universal_peer_mcp.Ledger.{Row, is_type}

-- `DAY_OFFSET_MINUTES` and `dayOf`
abbrev pub day_offset_minutes : ℕ
day_offset_minutes = 9 * 60

unfoldable pub day_of : ℕ → ℕ
day_of at = (at + day_offset_minutes * 60000) / 86400000

-- A name in a table of names.
pub lookup : String → List (String × String) → Option String
lookup name [] = none
lookup name ((key, value) ∷ rest) = if str_eq name key then some value else lookup name rest

-- `SEND_STAGE`
abbrev pub stages : List (String × String)
stages =
    ("send_requested", "recorded")
    ∷ ("send_recovery_reserved", "recovery_reserved")
    ∷ ("socket_write_complete", "written")
    ∷ ("send_failed", "failed")
    ∷ ("peer_message_status", "status")
    ∷ ("peer_terminal_failure", "failed")
    ∷ ("peer_idle_notice", "observed")
    ∷ ("peer_ack", "acked")
    ∷ ("peer_reply", "replied")
    ∷ ("peer_wait_timed_out", "wait_timed_out")
    ∷ ("peer_frame_refused", "refused")
    ∷ []

-- The outcomes that a row of an attempt can have.
abbrev pub attempt_stages : List (String × String)
attempt_stages =
    ("queued", "queued")
    ∷ ("written", "attempt_written")
    ∷ ("failed", "attempt_failed")
    ∷ ("unknown", "attempt_unknown")
    ∷ []

-- `stageOf`
unfoldable pub stage_of : Row → Option String
unfolding lookup
stage_of row =
    if is_type "attempt_intent" row
    then some "intended"
    else if is_type "attempt_outcome" row
    then elim row.outcome [ none ↦ none | some o ↦ lookup o attempt_stages ]
    else if is_type "inbound_body_read" row
    then some "read"
    else lookup row.type stages

-- `pairedResolveRows`: the numbers of the paired rows, and of the rows that they are paired with.
pub record Pairing : Type 0 where
  pub paired : List ℕ
  pub used : List ℕ

abbrev pub same_option : Option String → Option String → Bool
same_option none none = true
same_option none (some b) = false
same_option (some a) none = false
same_option (some a) (some b) = str_eq a b

-- The earlier row that a row may be paired with.
abbrev pub is_cause : Row → List ℕ → Row → Bool
is_cause row used prior =
    is_type "target_rebind_failed" prior
    && (not (any (λ n. n == prior.seq) used)
        && (same_option prior.alias row.alias
            && (same_option prior.reason row.reason && leb row.at (prior.at + 5000))))

abbrev pub pair : Row → ℕ → Pairing → Pairing
pair row cause p = record { paired = row.seq ∷ p.paired; used = cause ∷ p.used }

-- One row, with the rows before it, the last one first.
abbrev pub pair_row : List Row → Row → Pairing → Pairing
pair_row before row p =
    if not (is_type "target_resolve_failed" row) then p else elim row.rebind_failed_seq [
      | some cause ↦ pair row cause p
      | none ↦ elim (find? (is_cause row p.used) (take 8 before)) [
        | none ↦ p
        | some prior ↦ pair row prior.seq p
      ]
    ]

pub pair_rows : List Row → List Row → Pairing → Pairing
pair_rows before [] p = p
pair_rows before (row ∷ rows) p = pair_rows (row ∷ before) rows (pair_row before row p)

unfoldable pub paired_resolve_rows : List Row → List ℕ
unfolding pair_rows
paired_resolve_rows events = (pair_rows [] events (record { paired = []; used = [] })).paired

-- One `bump`: the day, the count, and the part of it.
pub record Bump : Type 0 where
  pub day : ℕ
  pub key : String
  pub part : Option String

-- The ids that were counted before.
pub record Seen : Type 0 where
  pub acks : List Text
  pub replies : List Text
  pub timeouts : List Text

abbrev pub not_empty : Text → Option Text
not_empty [] = none
not_empty (c ∷ t) = some (c ∷ t)

abbrev pub row_id : Row → Option Text
row_id row = elim row.message_id [ none ↦ none | some m ↦ not_empty (lower m) ]

abbrev pub is_new : Option Text → List Text → Bool
is_new none seen = false
is_new (some id) seen = not (any (same_text id) seen)

abbrev pub add_new : Option Text → List Text → List Text
add_new none seen = seen
add_new (some id) seen = if any (same_text id) seen then seen else id ∷ seen

-- The counts that every row of a type adds to.
abbrev pub plain_counts : List (String × String)
plain_counts =
    ("send_requested", "sends")
    ∷ ("socket_write_complete", "written")
    ∷ ("send_failed", "sendFailed")
    ∷ ("target_rebound", "rebound")
    ∷ ("inbound_body_read", "bodyReads")
    ∷ ("inbound_body_expired", "bodiesExpired")
    ∷ ("daemon_started", "daemonStarts")
    ∷ ("daemon_stopping", "daemonStops")
    ∷ ("ledger_archived", "archived")
    ∷ []

abbrev pub or_unknown : Option String → Option String
or_unknown none = some "unknown"
or_unknown (some s) = some s

abbrev pub one : Row → String → Option String → List Bump
one row key part = record { day = day_of row.at; key = key; part = part } ∷ []

abbrev pub if_new : Row → String → List Text → List Bump
if_new row key seen = if is_new (row_id row) seen then one row key none else []

abbrev pub plain : Row → Option String → List Bump
plain row none = []
plain row (some key) = one row key none

-- What one row adds. The cases of the `switch` exclude one another.
unfoldable pub bumps_of : List ℕ → Seen → Row → List Bump
unfolding day_of lookup
bumps_of paired seen row =
    if is_type "peer_ack" row
    then if_new row "acked" seen.acks
    else if is_type "peer_reply" row
    then if_new row "replied" seen.replies
    else if is_type "peer_wait_timed_out" row
    then if_new row "waitTimedOut" seen.timeouts
    else if is_type "peer_frame_uncorrelated" row
    then one row "unpaired" (or_unknown row.reason)
    else if is_type "peer_frame_refused" row
    then one row "refused" (or_unknown row.reason)
    else if is_type "target_resolve_failed" row
    then (if any (λ n. n == row.seq) paired
        then []
        else one row "resolveFailed" (or_unknown row.reason))
    else if is_type "target_rebind_failed" row
    then one row "rebindFailed" (or_unknown row.reason)
    else if is_type "attempt_intent" row
    then one row "attempts" (or_unknown row.path)
    else if is_type "attempt_outcome" row
    then one row "attemptOutcomes" (or_unknown row.outcome)
    else plain row (lookup row.type plain_counts)

abbrev pub seen_after : Seen → Row → Seen
seen_after seen row = record {
  acks = if is_type "peer_ack" row then add_new (row_id row) seen.acks else seen.acks;
  replies = if is_type "peer_reply" row then add_new (row_id row) seen.replies else seen.replies;
  timeouts =
      if is_type "peer_wait_timed_out" row
      then add_new (row_id row) seen.timeouts
      else seen.timeouts;
}

unfoldable pub bumps_from : List ℕ → Seen → List Row → List Bump
unfolding bumps_of
bumps_from paired seen [] = []
bumps_from paired seen (row ∷ rows) =
    bumps_of paired seen row ++ bumps_from paired (seen_after seen row) rows

-- `dailyStats`, from a first day on if there is one.
abbrev pub none_seen : Seen
none_seen = record { acks = []; replies = []; timeouts = [] }

unfoldable pub daily_bumps : List Row → List Bump
unfolding bumps_from paired_resolve_rows
daily_bumps events = bumps_from (paired_resolve_rows events) none_seen events

abbrev pub is_counted : Option ℕ → ℕ → String → Option String → Bump → Bool
is_counted since day key part b =
    (b.day == day && (str_eq b.key key && same_option b.part part))
    && elim since [ none ↦ true | some first ↦ leb first b.day ]

unfoldable pub daily_stats : List Row → Option ℕ → ℕ → String → Option String → ℕ
unfolding daily_bumps
daily_stats events since day key part = count (is_counted since day key part) (daily_bumps events)
