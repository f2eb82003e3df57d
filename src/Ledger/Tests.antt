-- ===== src/Ledger/Tests.antt =====
-- Runs of the event store (src/core/events.mjs) at concrete inputs.
use universal_peer_mcp.Prelude.{
  ℕ, ◌+◌, ◌≤◌, ◌≡◌, ◌≢◌, refl, true, false, Option, none, some, List, [], ◌∷◌, ◌++◌, String, Text,
  arith, codes, lower, count, find?, ◌==◌, ok, err,
}
use universal_peer_mcp.Limits.{is_uuid_any, same_uuid, is_row_type, reference_matches}
use universal_peer_mcp.Ledger.{
  Row, Fields, no_fields, Store, Moment, synced, fault, stamp, fresh, append, append_checked,
}
use universal_peer_mcp.Ledger.Requests.{
  is_for, reserve_request, reserve_recovery, request_by_reference, unique, ambiguous, missing,
}
use universal_peer_mcp.Ledger.Replay.{init, kept_file}
use universal_peer_mcp.Ledger.Replay.RoundTrip.{IsJson, file_of, init-file_of, init-refuses}
use universal_peer_mcp.Ledger.Sequence.{IsNumbered, append-IsNumbered, append-poisons}
use universal_peer_mcp.Ledger.Reserve.{
  reserve_request_once, reserve_recovery_once, reserve_request-again,
}

runs : Unit {0}
unfolding append append_checked reserve_request reserve_recovery request_by_reference same_uuid
    is_uuid_any lower stamp reference_matches init file_of is_row_type
runs = tt

abbrev id_a : Text
id_a = codes "0a1b2c3d-1111-4111-8111-00000000000a"

abbrev id_b : Text
id_b = codes "0a1b2c3d-1111-4111-8111-00000000000b"

abbrev capital_a : Text
capital_a = codes "0A1B2C3D-1111-4111-8111-00000000000A"

abbrev ask : Text → Fields
ask id = record no_fields { message_id = some id }

abbrev at_noon : Moment
at_noon = record { now = 1200; disk = synced }

abbrev full_disk : Moment
full_disk = record { now = 1300; disk = fault (some "ENOSPC") }

abbrev bytes : Row → ℕ
bytes row = 300

abbrev asked : Store
asked = (reserve_request bytes at_noon (ask id_a) fresh).1

abbrev asked_row : Row
asked_row = stamp 1 "send_requested" 1200 (ask id_a)

append-IsNumbered_example :
    IsNumbered (append bytes at_noon "daemon_started" no_fields asked).1.events
unfolding runs
append-IsNumbered_example =
    append-IsNumbered bytes at_noon "daemon_started" no_fields asked refl (refl, tt)

append-poisons_example :
    ((append bytes full_disk "daemon_started" no_fields asked).0 ≡ err (some "ENOSPC"))
    × ((append bytes full_disk "daemon_started" no_fields asked).1.events ≡ asked.events)
    × ((append bytes full_disk "daemon_started" no_fields asked).1.poison_reports
        ≡ asked.poison_reports + 1)
    × ((m' : Moment) (type' : String) (fields' : Fields)
        → append bytes m' type' fields' (append bytes full_disk "daemon_started" no_fields asked).1
          ≡ (err (some "ENOSPC"), (append bytes full_disk "daemon_started" no_fields asked).1))
    × ((m' : Moment) (type' : String) (fields' : Fields) (conflict : List Row → Option String)
        → append_checked bytes m' type' fields' conflict
            (append bytes full_disk "daemon_started" no_fields asked).1
          ≡ (err (some "ENOSPC"), (append bytes full_disk "daemon_started" no_fields asked).1))
unfolding runs
append-poisons_example =
    append-poisons bytes full_disk "daemon_started" no_fields asked (some "ENOSPC") refl refl
      (omega arith)

reserve_request_once_example :
    count
      (is_for "send_requested" (some id_a))
      (reserve_request bytes at_noon (ask capital_a) asked).1.events
    ≤ 1
unfolding runs
reserve_request_once_example =
    reserve_request_once bytes at_noon (ask capital_a) asked (some id_a) (omega arith)

reserve_recovery_once_example :
    count
      (is_for "send_recovery_reserved" (some id_a))
      (reserve_recovery bytes at_noon (ask id_a) asked).1.events
    ≤ 1
unfolding runs
reserve_recovery_once_example =
    reserve_recovery_once bytes at_noon (ask id_a) asked (some id_a) (omega arith)

reserve_request-again_example :
    reserve_request bytes full_disk (ask capital_a) asked
    ≡ (ok (record { created = false; event = asked_row }), asked)
unfolding runs
reserve_request-again_example =
    reserve_request-again bytes at_noon full_disk (ask id_a) (ask capital_a) fresh asked
      (record { created = true; event = asked_row }) refl refl refl

-- Eight digits that two requests share name neither.
by_reference :
    (request_by_reference asked.events (some (codes "0a1b2c3d")) ≡ unique asked_row)
    × (request_by_reference
          (reserve_request bytes at_noon (ask id_b) asked).1.events
          (some (codes "0a1b2c3d"))
        ≡ ambiguous)
    × (request_by_reference asked.events (some (codes "ffffffff")) ≡ missing)
unfolding runs
by_reference = (refl, refl, refl)

abbrev print_row : Row → List ℕ
print_row row = (row.seq + 100) ∷ []

abbrev read_from : List Row → List ℕ → Option Row
read_from rows [] = none
read_from rows (n ∷ line) = find? (λ row. row.seq + 100 == n) rows

asked-IsJson : IsJson (read_from asked.events) print_row asked.events
unfolding runs
asked-IsJson =
    (record { printed_line = refl; printed_some = (101, [], refl); parse-print = refl }, tt)

-- The second line was cut short after two bytes.
init-file_of_example :
    init
      (λ b. true)
      (read_from asked.events)
      (kept_file true (file_of print_row asked.events ++ (102 ∷ 7 ∷ [])))
    ≡ ok (asked.events, file_of print_row asked.events)
unfolding runs
init-file_of_example =
    init-file_of (λ b. true) (read_from asked.events) print_row asked.events (102 ∷ 7 ∷ [])
      asked-IsJson refl (refl, tt) (refl, tt) refl refl

abbrev misnumbered : List Row
misnumbered = record asked_row { seq = 5 } ∷ []

misnumbered-IsJson : IsJson (read_from misnumbered) print_row misnumbered
misnumbered-IsJson =
    (record { printed_line = refl; printed_some = (105, [], refl); parse-print = refl }, tt)

init-refuses_example :
    init (λ b. true) (read_from misnumbered) (kept_file true (file_of print_row misnumbered ++ []))
    ≢ ok (misnumbered, [])
init-refuses_example =
    init-refuses (λ b. true) (read_from misnumbered) print_row true misnumbered [] (misnumbered, [])
      misnumbered-IsJson refl (λ h. omega (arith, h.0))
