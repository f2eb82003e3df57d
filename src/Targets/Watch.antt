-- ===== src/Targets/Watch.antt =====
-- What a reading of the target table answers and keeps (`TargetTableWatch.read` of
-- src/core/target-table.mjs).
use universal_peer_mcp.Prelude.{◌≡◌, Option, some, String}
use universal_peer_mcp.Targets.{Table, TargetTableWatch, Answer}

-- The answer is what is kept, the digest is that of the table, and a file that cannot be parsed leaves
-- the table as it was.
abbrev pub Faithful : (Table → String) → TargetTableWatch → Answer × TargetTableWatch → Type 0
Faithful digest_of w (answer, w') =
    (answer.answer_table ≡ w'.table)
    × (answer.answer_digest ≡ w'.digest)
    × (w'.digest ≡ digest_of w'.table)
    × (answer.answer_unreadable ≡ w'.unreadable)
    × (answer.previous_digest ≡ w.digest)
    × ((code : Option String) → w'.unreadable ≡ some code → w'.table ≡ w.table)
