-- ===== src/Successions/Rebind.antt =====
-- `createSessionRebinder` and `previousGenerationOf` of src/core/session-rebind.mjs. The sentences that a
-- row holds for a person (`recovery`, the list of candidates) are left out.
use universal_peer_mcp.Prelude.{
  ℕ, Bool, true, false, ◌&&◌, Option, none, some, List, [], ◌∷◌, String, Text, str_eq,
  if◌then◌else◌, Outcome, ok, err, ◌>>=◌,
}
use universal_peer_mcp.Limits.{same_uuid}
use universal_peer_mcp.Ledger.{Row, Fields, no_fields, is_type}
use universal_peer_mcp.Core.{Net, Line, pause, append_line}
use universal_peer_mcp.Receipts.{says}
use universal_peer_mcp.Registry.{
  Registry, Expected, Verified, Generation, Succession, succeeded, refused, failed,
  resolve_successor,
}
use universal_peer_mcp.Successions.Sidecar.{
  TargetTable, TableFile, Moved, rebind_target_session_id, SideFile, read_rebind_state,
  previous_session_ids_for, record_succession,
}

-- `previousGenerationOf`: the latest send to the session under the alias.
abbrev pub sent_to : String → Option Text → Row → Bool
sent_to alias session row =
    is_type "send_requested" row
    && (elim row.target_alias [ none ↦ says row.alias alias | some a ↦ str_eq a alias ]
        && (same_uuid row.target_session_id session
            && elim row.target_pid [ none ↦ false | some pid ↦ true ]))

abbrev pub last_sent : String → Option Text → List Row → Option Row
last_sent alias session [] = none
last_sent alias session (row ∷ rows) =
    let later = last_sent alias session rows in
    elim later [ some r ↦ some r | none ↦ if sent_to alias session row then some row else none ]

abbrev pub generation : Option Row → Option Generation
generation none = none
generation (some row) = elim row.target_pid [
  | none ↦ none
  | some pid ↦ some (record { pid = pid; proc_start = row.target_proc_start })
]

unfoldable pub previous_generation_of : List Row → String → Option Text → Option Generation
previous_generation_of events alias session = generation (last_sent alias session events)

-- The ledger and the two files; the files' faults and what others write into them come with the waits.
pub record Desk : Type 0 where
  pub line : Line
  pub table : TargetTable
  pub side : Option SideFile

pub record Rebinder : Type 0 where
  pub net : Net
  pub registry : ℕ → Registry
  pub max_previous : ℕ
  pub read_fault : ℕ → Option (Option String)
  pub write_fault : ℕ → Option (Option String)
  pub side_fault : ℕ → Option (Option String)
  pub table_edit : ℕ → TargetTable → TargetTable
  pub side_edit : ℕ → Option SideFile → Option SideFile

abbrev pub rest : Rebinder → Desk → Desk
rest r d = record {
  line = pause r.net d.line;
  table = r.table_edit d.line.waits d.table;
  side = r.side_edit d.line.waits d.side;
}

-- A session that has succeeded, or the reason why none is found and the number of the row that says so.
pub data Rebound : Type 0 where
  rebound_to : Verified → Rebound
  not_rebound : String → Option ℕ → Rebound

-- `record`: a row that cannot be written is not there.
abbrev pub seq_of : Outcome Row → Option ℕ
seq_of (ok row) = some row.seq
seq_of (err code) = none

abbrev pub noted : Rebinder → String → Fields → Desk → Option ℕ × Desk
noted r type fields d =
    let written = append_line r.net type fields d.line in
    (seq_of written.0, record (rest r d) { line = written.1 })

abbrev pub failed_fields : String → Expected → String → ℕ → Option String → Fields
failed_fields alias expected reason count mode = record no_fields {
  alias = some alias;
  expected_session_id = some expected.session;
  reason = some reason;
  candidate_count = some count;
  rebind = mode;
}

abbrev pub refusal : String → Option ℕ × Desk → Rebound × Desk
refusal reason (seq, d) = (not_rebound reason seq, d)

abbrev pub give_up : Rebinder → String → Fields → Desk → Rebound × Desk
give_up r reason fields d = refusal reason (noted r "target_rebind_failed" fields d)

-- The switch: without a file it is on.
abbrev pub mode_of : Option SideFile → Outcome String
mode_of none = ok "proof"
mode_of (some file) = read_rebind_state file >>= λ state. ok state.mode

abbrev pub history_of : Option SideFile → String → List Text
history_of none alias = []
history_of (some file) alias = elim (read_rebind_state file) [
  | err code ↦ []
  | ok state ↦ previous_session_ids_for state.history alias
]

abbrev pub cwd_check_of : Expected → String
cwd_check_of expected = elim expected.cwd [ none ↦ "skipped" | some cwd ↦ "enforced" ]

-- The history after a table that changed or did not, and whether it was recorded.
abbrev pub write_failed_fields : String → Expected → Verified → Fields
write_failed_fields alias expected t =
    record (failed_fields alias expected "rebind_write_failed" 1 (some "proof")) {
      observed_session_id = t.session;
      cwd_check = some (cwd_check_of expected);
      proof = some "resume_argv";
    }

abbrev pub rebound_fields : String → Expected → Verified → Bool → Outcome (List Text) → Fields
rebound_fields alias expected t changed history = record no_fields {
  alias = some alias;
  expected_session_id = some expected.session;
  observed_session_id = t.session;
  candidate_count = some 1;
  proof = some "resume_argv";
  cwd_check = some (cwd_check_of expected);
  rebind = some "proof";
  table_changed = changed;
  history_recorded = elim history [ ok ids ↦ true | err code ↦ false ];
  previous_session_ids = elim history [ ok ids ↦ ids | err code ↦ [] ];
}

abbrev pub finish :
    Rebinder → String → Expected → Verified → Bool → Outcome (List Text) → Desk → Rebound × Desk
finish r alias expected t changed history d = (
  rebound_to t,
  (noted r "target_rebound" (rebound_fields alias expected t changed history) (rest r d)).1,
)

-- What the file beside the table answers, and what is in it then.
abbrev pub side_history :
    Rebinder → String → Moved → ℕ → Option SideFile → Outcome (List Text) × Option SideFile
side_history r alias moved k none = (ok [], none)
side_history r alias moved k (some file) =
    if moved.changed
    then (
      (record_succession r.max_previous (r.side_fault k) file alias moved.previous).0,
      some (record_succession r.max_previous (r.side_fault k) file alias moved.previous).1,
    )
    else (
      (read_rebind_state file >>= λ state. ok (previous_session_ids_for state.history alias)),
      some file,
    )

abbrev pub after_move :
    Rebinder → String → Expected → Verified → Outcome Moved → Desk → Rebound × Desk
after_move r alias expected t (err code) d =
    give_up r "rebind_write_failed" (write_failed_fields alias expected t) d
after_move r alias expected t (ok moved) d =
    let answer = side_history r alias moved d.line.waits d.side in
    finish r alias expected t moved.changed answer.0 (record (rest r d) { side = answer.1 })

abbrev pub text_or_empty : Option Text → Text
text_or_empty none = []
text_or_empty (some t) = t

-- The table is written before the row.
abbrev pub move_table : Rebinder → String → Expected → Verified → Desk → Rebound × Desk
move_table r alias expected t d =
    let file : TableFile = record {
      table = d.table;
      read_fault = r.read_fault d.line.waits;
      write_fault = r.write_fault d.line.waits;
    } in
    after_move r alias expected t (rebind_target_session_id file alias (text_or_empty t.session)).0
      (record (rest r d) {
        table = (rebind_target_session_id file alias (text_or_empty t.session)).1;
      })

-- `targetDiagnostic`, and what the caller reads from another failure.
abbrev pub read_reason : Option String → String
read_reason none = "no_live_session_for_session_id"
read_reason (some reason) = reason

abbrev pub resolved : Rebinder → String → Expected → Succession → Desk → Rebound × Desk
resolved r alias expected (succeeded t found) d = move_table r alias expected t d
resolved r alias expected (refused reason count) d =
    give_up r reason
      (record (failed_fields alias expected reason count (some "proof")) {
        cwd_check = some (cwd_check_of expected);
      })
      d
resolved r alias expected (failed code) d =
    give_up r (read_reason code)
      (failed_fields alias expected "unrecognised_resolver_failure" 0 (some "proof")) d

-- The history is read if there is a file, and then the registry is asked.
abbrev pub ask : Rebinder → String → Expected → Desk → Rebound × Desk
ask r alias expected d =
    let asked = rest r d in
    resolved r alias expected
      (resolve_successor (r.registry asked.line.waits) expected
        (previous_generation_of asked.line.store.events alias (some expected.session))
        (history_of d.side alias))
      (rest r asked)

abbrev pub by_mode : Rebinder → String → Expected → Outcome String → Desk → Rebound × Desk
by_mode r alias expected (err code) d =
    give_up r "rebind_disabled" (failed_fields alias expected "rebind_disabled" 0 none) d
by_mode r alias expected (ok mode) d =
    if str_eq mode "off"
    then give_up r "rebind_disabled" (failed_fields alias expected "rebind_disabled" 0 (some mode))
        d
    else ask r alias expected d

-- `rebind`
unfoldable pub rebind : Rebinder → String → Expected → Desk → Rebound × Desk
unfolding previous_generation_of
rebind r alias expected d = by_mode r alias expected (mode_of d.side) (rest r d)
