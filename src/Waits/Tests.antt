-- ===== src/Waits/Tests.antt =====
-- Evidence for waits (src/core/wait-requirements.mjs) at concrete rows.
use universal_peer_mcp.Prelude.{◌≡◌, ◌↔◌, refl, none}
use universal_peer_mcp.Ledger.{Row, no_fields, stamp}
use universal_peer_mcp.Waits.{wait_evidence}
use universal_peer_mcp.Waits.Strength.{Answers, Allowed, wait_evidence_iff}

abbrev replied : Row
replied = stamp 4 "peer_reply" 1000 no_fields

wait_evidence_iff_example : Answers "ack" replied ↔ Allowed "ack" replied
wait_evidence_iff_example = wait_evidence_iff "ack" replied

unknown_requirement : wait_evidence "constructor" ≡ none
unfolding wait_evidence
unknown_requirement = refl
