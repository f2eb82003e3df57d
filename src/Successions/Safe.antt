-- ===== src/Successions/Safe.antt =====
-- A succession of src/core/session-rebind.mjs: when an alias goes over to another session.
use universal_peer_mcp.Prelude.{
  ℕ, ◌≡◌, refl, subst, true, false, inl, inr, some, List, String, str_eq, Outcome, ok, err,
  Bool-cases,
}
use universal_peer_mcp.Ledger.{Row}
use universal_peer_mcp.Registry.{
  SessionFile, Expected, Verified, Succession, succeeded, refused, failed, live_rows,
  resolve_successor,
}
use universal_peer_mcp.Successions.Sidecar.{TableFile, Moved, rebind_target_session_id}
use universal_peer_mcp.Successions.Rebind.{
  previous_generation_of, Desk, Rebinder, rest, Rebound, rebound_to, not_rebound, mode_of,
  history_of, text_or_empty, after_move, move_table, resolved, ask, by_mode, rebind,
}
use universal_peer_mcp.Successions.Named.{IsNamed, rebind_target_session_id-IsNamed}
use universal_peer_mcp.Successions.Warrant.{Warranted, Chosen, resolve_successor-Chosen}

-- The registry that the desk asks next warrants the session, against the ledger of the desk.
abbrev pub IsWarranted : Rebinder → String → Expected → Desk → Verified → Type 0
IsWarranted r alias expected d t =
    let registry = r.registry d.line.waits in
    (files : List SessionFile) × (registry.directory ≡ ok files)
    × Warranted registry expected
        (previous_generation_of d.line.store.events alias (some expected.session))
        (live_rows registry (λ row. true) files) t

abbrev pub table_file : Rebinder → Desk → TableFile
table_file r d = record {
  table = d.table;
  read_fault = r.read_fault d.line.waits;
  write_fault = r.write_fault d.line.waits;
}

-- The target table of the desk, rewritten or not, names the session under the alias.
abbrev pub IsTabled : Rebinder → String → Desk → Verified → Type 0
IsTabled r alias d t =
    IsNamed alias (text_or_empty t.session)
      (rebind_target_session_id (table_file r d) alias (text_or_empty t.session)).1

-- The desk after the switch was read, and after the history was read.
abbrev pub asked_of : Rebinder → Desk → Desk
asked_of r d = rest r (rest r d)

abbrev pub IsOn : Desk → Type 0
IsOn d = (mode : String) × (mode_of d.side ≡ ok mode) × (str_eq mode "off" ≡ false)

abbrev Only : (Verified → Type 0) → Rebound → Type 0
Only P (rebound_to t) = P t
Only P (not_rebound reason seq) = Unit

module _ (r : Rebinder) (alias : String) (expected : Expected) where
  move_table-Only :
      (P : Verified → Type 0) (t : Verified) (d : Desk)
      → (IsTabled r alias d t → P t)
      → Only P (move_table r alias expected t d).0
  move_table-Only P t d h =
      go (rebind_target_session_id file alias (text_or_empty t.session)).0 refl
    where
      file : TableFile
      file = table_file r d

      after : Desk
      after = record (rest r d) {
        table = (rebind_target_session_id file alias (text_or_empty t.session)).1;
      }

      go :
          (o : Outcome Moved)
          → (rebind_target_session_id file alias (text_or_empty t.session)).0 ≡ o
          → Only P (after_move r alias expected t o after).0
      go (err code) e = tt
      go (ok moved) e =
          h (rebind_target_session_id-IsNamed file alias (text_or_empty t.session) moved e)

  resolved-Only :
      (P : Verified → Type 0) (s : Succession) (d : Desk)
      → Chosen (λ t. IsTabled r alias d t → P t) s
      → Only P (resolved r alias expected s d).0
  resolved-Only P (succeeded t found) d h = move_table-Only P t d h
  resolved-Only P (refused reason count) d h = tt
  resolved-Only P (failed code) d h = tt

  Chosen-map :
      (P Q : Verified → Type 0) (s : Succession)
      → ((t : Verified) → P t → Q t)
      → Chosen P s
      → Chosen Q s
  Chosen-map P Q (succeeded t found) f h = f t h
  Chosen-map P Q (refused reason count) f h = tt
  Chosen-map P Q (failed code) f h = tt

  ask-Only :
      (d : Desk)
      → Only
          (λ t. IsWarranted r alias expected (rest r d) t × IsTabled r alias (rest r (rest r d)) t)
          (ask r alias expected d).0
  ask-Only d = resolved-Only P answer (rest r asked) (
      Chosen-map _ (λ t. IsTabled r alias (rest r asked) t → P t) answer
        (λ t why tabled. (why, tabled))
        (resolve_successor-Chosen (r.registry k) expected
          (previous_generation_of events alias (some expected.session)) (history_of d.side alias)))
    where
      asked : Desk
      asked = rest r d

      P : Verified → Type 0
      P t = IsWarranted r alias expected asked t × IsTabled r alias (rest r asked) t

      k : ℕ
      k = asked.line.waits

      events : List Row
      events = asked.line.store.events

      answer : Succession
      answer =
          resolve_successor (r.registry k) expected
            (previous_generation_of events alias (some expected.session)) (history_of d.side alias)

  -- What holds of a session that the alias goes over to, for a call that begins at the desk `d`.
  abbrev Warrant : Desk → Verified → Type 0
  Warrant d t =
      IsOn d
      × IsWarranted r alias expected (asked_of r d) t
      × IsTabled r alias (rest r (asked_of r d)) t

  by_mode-Only :
      (d : Desk) (o : Outcome String)
      → mode_of d.side ≡ o
      → Only (Warrant d) (by_mode r alias expected o (rest r d)).0
  by_mode-Only d (err code) e = tt
  by_mode-Only d (ok mode) e = elim (Bool-cases (str_eq mode "off")) [
    | inl off ↦ rw off tt
    | inr on ↦ rw on (with_mode on (ask r alias expected (rest r d)).0 (ask-Only (rest r d)))
  ]
    where
      with_mode :
          str_eq mode "off" ≡ false
          → (b : Rebound)
          → Only
              (λ t.
                IsWarranted r alias expected (asked_of r d) t
                × IsTabled r alias (rest r (asked_of r d)) t)
              b
          → Only (Warrant d) b
      with_mode on (rebound_to t) (why, tabled) = ((mode, e, on), why, tabled)
      with_mode on (not_rebound reason seq) h = tt

-- An alias goes over to another session only if the switch beside the table is not off when the call begins; the
-- registry that is asked two waits later warrants the session, against the ledger of that moment: it is the
-- only live session of the lane whose process, or an ancestor below the next live session, was started with a
-- receipt for the expected session, and it is not the process that this ledger saw last holding that session; and
-- the target table of the next moment, as the call leaves it, names the session under the alias.
pub rebind-Warranted :
    (r : Rebinder) (alias : String) (expected : Expected) (d : Desk) (t : Verified)
    → (rebind r alias expected d).0 ≡ rebound_to t
    → IsOn d
      × IsWarranted r alias expected (asked_of r d) t
      × IsTabled r alias (rest r (asked_of r d)) t
unfolding rebind
rebind-Warranted r alias expected d t h =
    subst (Only (Warrant r alias expected d)) h
      (by_mode-Only r alias expected d (mode_of d.side) refl)
