-- ===== src/Waits.antt =====
-- src/core/wait-requirements.mjs: which rows of the ledger are evidence for what a caller waits for.
pub mod Strength
mod Tests
use universal_peer_mcp.Prelude.{
  Bool, true, false, ◌&&◌, Option, none, some, List, [], ◌∷◌, String, str_eq, any, if◌then◌else◌,
}
use universal_peer_mcp.Ledger.{Row, is_type}

-- A kind of evidence: the type of a row, and the one status of it that counts, if that matters.
pub record Evidence : Type 0 where
  pub row_type : String
  pub row_status : Option String

abbrev pub ack_evidence : Evidence
ack_evidence = record { row_type = "peer_ack"; row_status = none }

abbrev pub reply_evidence : Evidence
reply_evidence = record { row_type = "peer_reply"; row_status = none }

-- `WAIT_EVIDENCE`
abbrev pub wait_table : List (String × List Evidence)
wait_table =
    ("ack", ack_evidence ∷ reply_evidence ∷ [])
    ∷ ("reply", reply_evidence ∷ [])
    ∷ ("idle", record { row_type = "peer_idle_notice"; row_status = none } ∷ [])
    ∷ ("delivery", record { row_type = "peer_message_status"; row_status = some "delivered" } ∷ [])
    ∷ ("terminal", record { row_type = "peer_terminal_failure"; row_status = none } ∷ [])
    ∷ []

abbrev own_entry : String → List (String × List Evidence) → Option (List Evidence)
own_entry name [] = none
own_entry name ((key, kinds) ∷ rest) = if str_eq name key then some kinds else own_entry name rest

-- `waitEvidence`: `none` for a requirement that this build does not know.
unfoldable pub wait_evidence : String → Option (List Evidence)
wait_evidence requirement = own_entry requirement wait_table

abbrev pub is_evidence : Row → Evidence → Bool
is_evidence row kind = is_type kind.row_type row && elim kind.row_status [
  | none ↦ true
  | some wanted ↦ elim row.status [ none ↦ false | some s ↦ str_eq s wanted ]
]

-- `satisfies`
unfoldable pub satisfies : List Evidence → Row → Bool
satisfies accepted row = any (is_evidence row) accepted
