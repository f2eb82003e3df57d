-- ===== src/Targets/Tests.antt =====
-- Readings of a target table (src/core/target-table.mjs) at concrete tables.
use universal_peer_mcp.Prelude.{◌≡◌, ◌↔◌, refl, none, [], ◌∷◌, String, ok}
use universal_peer_mcp.Targets.{
  Target, Table, row_of, same_row, names_of, count_changed_aliases, observed, TargetTableWatch,
  new_watch, read,
}
use universal_peer_mcp.Targets.Changes.{count_changed_aliases_iff}

abbrev reviewer : String → Target
reviewer session = record {
  target_session = session;
  cwd = "/work";
  expected_display_name = none;
  permission_mode = "default";
}

abbrev old_table : Table
old_table = ("reviewer", reviewer "s1") ∷ ("builder", reviewer "s2") ∷ []

abbrev new_table : Table
new_table = ("builder", reviewer "s2") ∷ ("reviewer", reviewer "s3") ∷ []

-- The test's digest of a table.
abbrev digest : Table → String
digest [] = "empty"
digest (row ∷ rows) = "some"

abbrev watched : TargetTableWatch
watched = (read digest (observed "f1") (ok old_table) (new_watch digest)).1

-- One alias moved; the order of the rows does not count.
one_moved : count_changed_aliases old_table new_table ≡ 1
unfolding count_changed_aliases same_row names_of
one_moved = refl

count_changed_aliases_iff_example :
    (count_changed_aliases old_table new_table ≡ 0)
    ↔ ((name : String) → row_of old_table name ≡ row_of new_table name)
count_changed_aliases_iff_example = count_changed_aliases_iff old_table new_table
