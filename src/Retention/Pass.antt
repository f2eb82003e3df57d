-- ===== src/Retention/Pass.antt =====
-- `expireInboundBodies` and `disposeInboundBody` of src/core/retention.mjs. The pass runs over the
-- rows that were there when it began; its row takes four waits at most.
use universal_peer_mcp.Prelude.{
  ℕ, ◌+◌, ◌*◌, Bool, true, false, not, ◌&&◌, ◌||◌, Option, none, some, List, [], ◌∷◌, String, leb,
  ltb, ◌==◌, str_eq, if◌then◌else◌, find?, Outcome, ok, err, refuse,
}
use universal_peer_mcp.Ledger.{Row, is_type}
use universal_peer_mcp.Retention.{
  Site, Rest, State, Deletion, expired, missing, passed_over, ledger_append_failed, unlink_failed,
  Deleted, one_of, is_source, is_concluded, concluded_state, expired_body_files, has_seq, append_at,
  source_fields, delete_body, names_file,
}

-- `EXCEEDED_ALERTS_PER_RUN`
abbrev pub exceeded_alerts_per_run : ℕ
exceeded_alerts_per_run = 5

-- The alarms that a pass raises: one for a body, or one that counts the rest.
pub data Alarm : Type 0 where
  body_alarm batch_alarm : ℕ → Alarm

pub data Stop : Type 0 where
  append_failed : Stop
  thrown : Option String → Stop

-- The variables of the pass: the sets that it keeps, its result, and how it was stopped.
pub record Pass : Type 0 where
  pub site : Site
  pub done : List String
  pub state : State
  pub expired_count : ℕ
  pub skipped_count : ℕ
  pub missing_count : ℕ
  pub unprocessed : ℕ
  pub newly_exceeded : ℕ
  pub alerted : ℕ
  pub unalerted : ℕ
  pub alarms : List Alarm
  pub stopped_by : Option Stop

pub record Settings : Type 0 where
  pub has_alerts : Bool
  pub now : ℕ
  pub days : ℕ
  pub limit : ℕ

-- `Date.parse(row.at) < now - days * 86_400_000`
abbrev pub is_old : Settings → Row → Bool
is_old cfg row = ltb (row.at + cfg.days * 86400000) cfg.now

-- The alarm of one body, if the cap is not reached. Raising it waits; a fault of it is dropped.
abbrev pub alarm : Rest → Settings → ℕ → ℕ → Pass → Pass
alarm w cfg k seq p =
    if cfg.has_alerts && ltb p.alerted exceeded_alerts_per_run
    then record p {
      site = w.others k p.site;
      alerted = p.alerted + 1;
      alarms = body_alarm seq ∷ p.alarms;
    }
    else record p { unalerted = p.unalerted + 1 }

abbrev pub after_exceeded : Rest → Settings → ℕ → Row → Pass → Outcome Row × Site → Pass
after_exceeded w cfg k row p (err code, site) = record p {
  site = site;
  stopped_by = some append_failed;
}
after_exceeded w cfg k row p (ok event, site) = alarm w cfg k row.seq (record p {
  site = site;
  state = record p.state { exceeded = row.seq ∷ p.state.exceeded };
  newly_exceeded = p.newly_exceeded + 1;
})

-- A body past the age whose message is not concluded: it is kept and recorded once.
unfoldable pub keep_unprocessed : Rest → Settings → ℕ → Row → Pass → Pass
keep_unprocessed w cfg k row p =
    let counted : Pass = record p { unprocessed = p.unprocessed + 1 } in
    if has_seq row.seq p.state.exceeded
    then counted
    else after_exceeded w cfg (k + 1) row counted (
        append_at w k "inbound_body_retention_exceeded"
          (record (source_fields row) { message_id = row.message_id }) p.site)

abbrev pub after_deletion : String → Pass → Deleted → Pass
after_deletion f p d =
    let next : Pass = record p {
      site = d.left;
      state = record p.state { skipped = d.skipped_seqs };
    } in
    elim d.deletion [
      | expired ↦ record next { done = f ∷ p.done; expired_count = p.expired_count + 1 }
      | missing ↦ record next { missing_count = p.missing_count + 1 }
      | passed_over ↦ record next { skipped_count = p.skipped_count + 1 }
      | ledger_append_failed ↦ record next { stopped_by = some append_failed }
      | unlink_failed code ↦ record next { stopped_by = some (thrown code) }
    ]

-- The body of the loop.
unfoldable pub expire_row : Rest → Settings → ℕ → Row → Pass → Pass
unfolding keep_unprocessed
expire_row w cfg k row p = elim row.body_file [
  | none ↦ p
  | some f ↦
      if not (is_source row) || (one_of p.done f || not (is_old cfg row))
      then p
      else if not (is_concluded row p.state)
      then keep_unprocessed w cfg k row p
      else after_deletion f p (delete_body w k row f "retention" p.state.skipped p.site)
]

abbrev pub is_stopped : Pass → Bool
is_stopped p = elim p.stopped_by [ none ↦ false | some stop ↦ true ]

unfoldable pub expire_rows : Rest → Settings → ℕ → List Row → Pass → Pass
unfolding expire_row
expire_rows w cfg k [] p = p
expire_rows w cfg k (row ∷ rows) p =
    let rest = expire_rows w cfg (k + 4) rows (expire_row w cfg k row p) in
    if is_stopped p || leb cfg.limit p.expired_count then p else rest

abbrev pub begin : Site → Pass
begin site = record {
  site = site;
  done = expired_body_files site.store.events;
  state = concluded_state site.store.events;
  expired_count = 0;
  skipped_count = 0;
  missing_count = 0;
  unprocessed = 0;
  newly_exceeded = 0;
  alerted = 0;
  unalerted = 0;
  alarms = [];
  stopped_by = none;
}

abbrev pub last_alarm : Settings → Pass → Pass
last_alarm cfg p =
    if not (is_stopped p) && (cfg.has_alerts && ltb 0 p.unalerted)
    then record p { alarms = batch_alarm p.unalerted ∷ p.alarms }
    else p

-- `expireInboundBodies`: off unless `days` is more than 0.
unfoldable pub expire_inbound_bodies : Rest → Settings → Site → Pass
unfolding expire_rows
expire_inbound_bodies w cfg site =
    if ltb 0 cfg.days
    then last_alarm cfg (expire_rows w cfg 0 site.store.events (begin site))
    else begin site

-- What `disposeInboundBody` returns as `state`.
pub data Disposed : Type 0 where
  already_expired recorded : Disposed
  deleted : Deletion → Disposed

abbrev pub is_disposition : ℕ → String → Row → Bool
is_disposition seq disposition row =
    is_type "inbound_body_disposition" row
    && (elim row.source_seq [ none ↦ false | some n ↦ n == seq ]
        && names_file row.disposition disposition)

-- After the disposition is recorded.
unfoldable pub after_disposition :
    Rest → Row → String → String → Outcome (Unit {0}) × Site → Outcome Disposed × Site
after_disposition w row f disposition (err code, site) = (err code, site)
after_disposition w row f disposition (ok u, site) =
    let d = delete_body w 1 row f "discarded" (concluded_state site.store.events).skipped site in
    if str_eq disposition "processed"
    then (ok recorded, site)
    else elim d.deletion as (λ _. Outcome Disposed × Site) [
      | expired ↦ (ok (deleted expired), d.left)
      | missing ↦ (ok (deleted missing), d.left)
      | passed_over ↦ (ok (deleted passed_over), d.left)
      | ledger_append_failed ↦ (ok (deleted ledger_append_failed), d.left)
      | unlink_failed code ↦ (err code, d.left)
    ]

abbrev pub written_or_not : Outcome Row × Site → Outcome (Unit {0}) × Site
written_or_not (ok row, site) = (ok tt, site)
written_or_not (err code, site) = (err code, site)

abbrev pub record_disposition : Rest → Row → ℕ → String → Site → Outcome (Unit {0}) × Site
record_disposition w row seq disposition site =
    elim (find? (is_disposition seq disposition) site.store.events) [
      | some prior ↦ (ok tt, site)
      | none ↦ written_or_not (
          append_at w 0 "inbound_body_disposition"
            (record (source_fields row) {
              source_seq = some seq;
              disposition = some disposition;
              message_id = row.message_id;
            })
            site)
    ]

-- `disposeInboundBody`
unfoldable pub dispose_inbound_body : Rest → ℕ → String → Site → Outcome Disposed × Site
unfolding after_disposition
dispose_inbound_body w seq disposition site =
    if ltb seq 1
    then (refuse "INVALID_CONTROL_ARGUMENTS", site)
    else if not (one_of ("processed" ∷ "discard" ∷ []) disposition)
    then (refuse "INVALID_CONTROL_ARGUMENTS", site)
    else elim (find? (λ r. r.seq == seq) site.store.events) [
      | none ↦ (refuse "BODY_UNKNOWN", site)
      | some row ↦ elim row.body_file [
        | none ↦ (refuse "BODY_UNKNOWN", site)
        | some f ↦
            if not (is_source row)
            then (refuse "BODY_UNKNOWN", site)
            else if one_of (expired_body_files site.store.events) f
            then (ok already_expired, site)
            else after_disposition w row f disposition
                (record_disposition w row seq disposition site)
      ]
    ]
