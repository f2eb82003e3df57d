-- ===== src/Directory/Tests.antt =====
-- Runs of `registerPeer` and `removePeer` (src/core/peer-directory.mjs) at concrete inputs.
use universal_peer_mcp.Prelude.{
  ◌≤◌, ◌≡◌, refl, true, false, none, some, [], ◌∷◌, Text, arith, codes, lower, Outcome, ok, refuse,
  Bool-cases, inl, inr, str_eq, str_eq-true, subst, sym, count, ◌+◌,
}
use universal_peer_mcp.Limits.{is_alias, head_then, same_uuid, is_uuid_any, require_uuid}
use universal_peer_mcp.Directory.{
  claude, codex, Identity, holder_of, delete, delete_all, put, without, next_tables, plan,
  resolve_peer, names,
}
use universal_peer_mcp.Directory.Files.{
  Disk, Files, stored, lost, write_changed, write_tables, Registered, registered, register_peer,
  remove_peer,
}
use universal_peer_mcp.Directory.Unique.{OneEach}
use universal_peer_mcp.Directory.Writes.{Seen}
use universal_peer_mcp.Directory.View.{view, forget}
use universal_peer_mcp.Directory.Registers.{register_peer-OneEach}
use universal_peer_mcp.Directory.Refines.{Refined, register_peer-Refined}
use universal_peer_mcp.Directory.Forget.{remove_peer-forget}
use universal_peer_mcp.Directory.Serves.{register_peer-succeeds}

runs : Unit {0}
unfolding holder_of delete delete_all put without next_tables plan resolve_peer write_changed
    write_tables register_peer remove_peer is_alias head_then same_uuid is_uuid_any require_uuid
    lower
runs = tt

abbrev id_x : Text
id_x = codes "0a1b2c3d-2222-4222-8222-000000000001"

abbrev id_y : Text
id_y = codes "0a1b2c3d-2222-4222-8222-000000000002"

abbrev sound : Disk
sound = record { reads = λ k. none; writes = λ k. stored }

-- The table of the Claude sessions cannot be written.
abbrev half : Disk
half = record {
  reads = λ k. none;
  writes = λ k. elim k [ claude ↦ lost (some "EACCES") | codex ↦ stored ];
}

abbrev start : Files
start = record {
  tables = record {
    claude_table = ("main", record { id = some id_x; rest = "" }) ∷ [];
    codex_table = ("helper", record { id = some id_y; rest = "" }) ∷ [];
  };
  seen = [];
}

-- Another Claude session under the name of the Codex thread.
abbrev who : Identity
who = record { kind = claude; id = some id_x; rest = "" }

abbrev moved : Outcome Registered × Files
moved = register_peer sound true "helper" (some who) start

-- The session takes the name of the thread, and loses its own.
moved_views :
    (resolve_peer "helper" moved.1.tables ≡ some (claude, some id_x))
    × (resolve_peer "main" moved.1.tables ≡ none)
    × (moved.0 ≡ ok (registered (("helper", codex) ∷ ("main", claude) ∷ [])))
unfolding runs
moved_views = (refl, refl, refl)

-- Without `--replace` the name is taken, and when the second write fails the name is gone.
refused : (register_peer sound false "helper" (some who) start).0 ≡ refuse "ALIAS_TAKEN"
unfolding runs
refused = refl

halfway : resolve_peer "helper" (register_peer half true "helper" (some who) start).1.tables ≡ none
unfolding runs
halfway = refl

start-OneEach : OneEach start.tables
unfolding OneEach
start-OneEach = (
  λ alias. elim (Bool-cases (str_eq alias "main")) [
    | inr other ↦ rw other (ground arith)
    | inl same ↦
        subst
          (λ a.
            count (names a) start.tables.claude_table + count (names a) start.tables.codex_table
            ≤ 1)
          (sym (str_eq-true alias "main" same)) (omega arith)
  ],
  λ k id. elim k [ claude ↦ ground arith | codex ↦ ground arith ],
)

register_peer-OneEach_example : Seen (register_peer half true "helper" (some who) start).1
register_peer-OneEach_example =
    register_peer-OneEach half true "helper" (some who) start (start-OneEach, tt)

register_peer-Refined_example :
    (id : Text) × (require_uuid (some id_x) ≡ ok id)
    × Refined "helper" who id start moved.1 (registered (("helper", codex) ∷ ("main", claude) ∷ []))
unfolding runs
register_peer-Refined_example =
    register_peer-Refined sound true "helper" who start moved.1
      (registered (("helper", codex) ∷ ("main", claude) ∷ [])) start-OneEach refl

remove_peer-forget_example :
    view (remove_peer sound "main" start).1.tables "main" ≡ forget "main" (view start.tables) "main"
unfolding runs
remove_peer-forget_example =
    remove_peer-forget sound "main" start (remove_peer sound "main" start).1 claude start-OneEach
      refl "main"

register_peer-succeeds_example :
    (r : Registered) × (g : Files) × (register_peer sound true "helper" (some who) start
      ≡ (ok r, g))
unfolding runs
register_peer-succeeds_example =
    register_peer-succeeds sound "helper" who id_x start (λ k. refl, λ k. refl) start-OneEach refl
      refl (omega arith)
