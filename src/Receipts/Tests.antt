-- ===== src/Receipts/Tests.antt =====
-- Runs of the receipts (src/core/receipts.mjs) at a concrete ledger.
use universal_peer_mcp.Prelude.{
  ℕ, ◌+◌, ◌≡◌, refl, true, none, some, List, [], ◌∷◌, Text, codes, lower, length, map, All,
}
use universal_peer_mcp.Limits.{is_uuid, is_uuid_any, is_alias, same_uuid}
use universal_peer_mcp.Spool.{spool_fields}
use universal_peer_mcp.Ledger.{Row, Store, no_fields, fresh, stamp, synced, append, append_checked}
use universal_peer_mcp.Posts.{World, accept_post, outcome_for}
use universal_peer_mcp.Receipts.{
  Receipt, uuidv5, state_id, receipt_index, receipts_due, all_due, send, sweep_receipts, on_append,
  says,
}
use universal_peer_mcp.Receipts.Due.{Warranted, receipts_due-Warranted}
use universal_peer_mcp.Receipts.Sends.{Posting, sweep_receipts-Posting}

runs : Unit {0}
unfolding accept_post outcome_for append append_checked is_uuid is_uuid_any is_alias same_uuid lower
    stamp spool_fields uuidv5 state_id receipt_index receipts_due all_due send sweep_receipts
    on_append
runs = tt

abbrev id_a : Text
id_a = codes "0a1b2c3d-1111-4111-8111-00000000000a"

abbrev thread : Text
thread = codes "0a1b2c3d-1111-4111-8111-00000000000b"

-- A digest of twenty bytes, and a wording of two.
abbrev digest : List ℕ → List ℕ
digest bytes =
    1 ∷ 2 ∷ 3 ∷ 4 ∷ 5 ∷ 6 ∷ 7 ∷ 8 ∷ 9 ∷ 10 ∷ 11 ∷ 12 ∷ 13 ∷ 14 ∷ 15 ∷ 16 ∷ 17 ∷ 18 ∷ 19 ∷ 20 ∷ []

abbrev wording : Receipt → List ℕ
wording r = 104 ∷ 105 ∷ []

abbrev calm : World
calm = record {
  line_bytes = λ row. 200;
  sha256 = λ body. "e3b0";
  protocol_header = λ body. none;
  spool_name = "inbound/one.txt";
  spool_fault = none;
  moment = λ k. record { now = 1000 + k; disk = synced };
  others = λ k s. s;
}

abbrev asked : Row
asked = stamp 2 "peer_post" 1000 (record no_fields {
  message_id = some id_a;
  recipient = some "my-claude";
  sender_alias = some "main-codex";
  sender_kind = some "codex";
  sender_thread_id = some thread;
})

abbrev events : List Row
events =
    stamp 1 "receipts_enabled" 900 no_fields
    ∷ asked
    ∷ stamp 3 "doorbell_outcome" 1100 (record no_fields {
      message_id = some id_a;
      state = some "not_sent";
      error_code = some "DOORBELL_FAILED";
    })
    ∷ []

abbrev ledger : Store
ledger = record fresh { events = events }

abbrev swept : Store
swept = (sweep_receipts digest wording (λ k. calm) (λ k. 2000) 2000 ledger).1

-- The sweep posts one receipt to the sender's thread, and the next sweep none.
swept_rows : map (λ (r : Row). r.source) swept.events ≡ none ∷ none ∷ none ∷ some "receipt" ∷ []
unfolding runs
swept_rows = refl

swept_again : length (sweep_receipts digest wording (λ k. calm) (λ k. 2000) 2000 swept).1.events ≡ 4
unfolding runs
swept_again = refl

sweep_receipts-Posting_example : Posting digest wording (λ k. calm) (λ k. 2000) 0 ledger swept
sweep_receipts-Posting_example =
    sweep_receipts-Posting digest wording (λ k. calm) (λ k. 2000) 2000 ledger

receipts_due-Warranted_example :
    All (Warranted events asked 2000) (receipts_due digest asked (receipt_index events) 2000)
    × (says asked.source "receipt" ≡ true
        → receipts_due digest asked (receipt_index events) 2000 ≡ [])
receipts_due-Warranted_example = receipts_due-Warranted digest events asked 2000
