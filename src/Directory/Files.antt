-- ===== src/Directory/Files.antt =====
-- `registerPeer` and `removePeer` of src/core/peer-directory.mjs on the two files. No other writer runs
-- between them (`serializeByFile`), but readers do: a `Files` keeps every pair of tables that was there.
use universal_peer_mcp.Prelude.{
  Bool, true, false, not, ◌&&◌, Option, none, some, List, [], ◌∷◌, String, Text, same_text, str_eq,
  if◌then◌else◌, any, Outcome, ok, err, refuse,
}
use universal_peer_mcp.Limits.{is_alias, require_uuid}
use universal_peer_mcp.Directory.{
  Kind, claude, codex, other_kind, Table, Tables, table_of, with_table, Identity, names, delete,
  Replaced, Plan, unchanged, change, plan,
}

-- What a write of a file does: the file is replaced; it is not; or it is, and a later step fails.
pub data Write : Type 0 where
  stored : Write
  lost : Option String → Write
  stored_failed : Option String → Write

-- The answers of the disk: whether a file can be read, and what becomes of a write of it.
pub record Disk : Type 0 where
  pub reads : Kind → Option (Option String)
  pub writes : Kind → Write

pub record Files : Type 0 where
  pub tables : Tables
  pub seen : List Tables

abbrev pub store_table : Kind → Table → Files → Files
store_table k xs f = record { tables = with_table k xs f.tables; seen = f.tables ∷ f.seen }

-- Two tables have the same JSON.
abbrev pub same_id : Option Text → Option Text → Bool
same_id none none = true
same_id none (some b) = false
same_id (some a) none = false
same_id (some a) (some b) = same_text a b

abbrev pub same_table : Table → Table → Bool
same_table [] [] = true
same_table [] (q ∷ u) = false
same_table (p ∷ t) [] = false
same_table (p ∷ t) (q ∷ u) =
    str_eq p.0 q.0 && (same_id p.1.id q.1.id && (str_eq p.1.rest q.1.rest && same_table t u))

-- `writeTargets` and `writeCodex`
abbrev pub store_by : Write → Kind → Table → Files → Outcome (Unit {0}) × Files
store_by stored k xs f = (ok tt, store_table k xs f)
store_by (lost code) k xs f = (err code, f)
store_by (stored_failed code) k xs f = (err code, store_table k xs f)

abbrev pub write_table : Disk → Kind → Table → Files → Outcome (Unit {0}) × Files
write_table d k = store_by (d.writes k) k

-- A file is written only if its table has changed.
unfoldable pub write_changed : Disk → Kind → Tables → Tables → Files → Outcome (Unit {0}) × Files
write_changed d k before next f =
    if same_table (table_of k next) (table_of k before)
    then (ok tt, f)
    else write_table d k (table_of k next) f

-- The second write, unless the first has failed.
abbrev pub then_write :
    Disk → Kind → Tables → Tables → Outcome (Unit {0}) × Files → Outcome (Unit {0}) × Files
then_write d k before next (ok u, f) = write_changed d k before next f
then_write d k before next (err code, f) = (err code, f)

-- The file that only loses entries comes first.
unfoldable pub write_tables : Disk → Kind → Tables → Tables → Files → Outcome (Unit {0}) × Files
unfolding write_changed
write_tables d kind before next f =
    then_write d kind before next (write_changed d (other_kind kind) before next f)

pub data Registered : Type 0 where
  same_as_before : Registered
  registered : Replaced → Registered

abbrev pub registered_as : Replaced → Outcome (Unit {0}) × Files → Outcome Registered × Files
registered_as replaced (ok u, f) = (ok (registered replaced), f)
registered_as replaced (err code, f) = (err code, f)

abbrev pub carry_out : Disk → Kind → Outcome Plan → Files → Outcome Registered × Files
carry_out d kind (err code) f = (err code, f)
carry_out d kind (ok unchanged) f = (ok same_as_before, f)
carry_out d kind (ok (change replaced next)) f =
    registered_as replaced (write_tables d kind f.tables next f)

-- Both files are read, the one of the Claude sessions first.
abbrev pub read_fault : Disk → Option (Option String)
read_fault d = elim (d.reads claude) [ none ↦ d.reads codex | some code ↦ some code ]

unfoldable pub register_peer :
    Disk → Bool → String → Option Identity → Files → Outcome Registered × Files
unfolding write_tables
register_peer d replace alias none f =
    if not (is_alias alias)
    then (refuse "INVALID_ALIAS", f)
    else (refuse "INVALID_CONTROL_ARGUMENTS", f)
register_peer d replace alias (some who) f =
    if not (is_alias alias) then (refuse "INVALID_ALIAS", f) else elim (read_fault d) [
      | some code ↦ (err code, f)
      | none ↦ elim (require_uuid who.id) [
        | err code ↦ (err code, f)
        | ok id ↦ carry_out d who.kind (plan replace alias who id f.tables) f
      ]
    ]

abbrev pub removed_as : Kind → Outcome (Unit {0}) × Files → Outcome Kind × Files
removed_as k (ok u, f) = (ok k, f)
removed_as k (err code, f) = (err code, f)

abbrev pub has_alias : String → Table → Bool
has_alias alias = any (names alias)

abbrev pub remove_from : Disk → Kind → String → Files → Outcome Kind × Files
remove_from d k alias f = removed_as k (write_table d k (delete alias (table_of k f.tables)) f)

unfoldable pub remove_peer : Disk → String → Files → Outcome Kind × Files
unfolding delete
remove_peer d alias f =
    if not (is_alias alias) then (refuse "INVALID_ALIAS", f) else elim (read_fault d) [
      | some code ↦ (err code, f)
      | none ↦
          if has_alias alias f.tables.claude_table
          then remove_from d claude alias f
          else if has_alias alias f.tables.codex_table
          then remove_from d codex alias f
          else (refuse "UNKNOWN_ALIAS", f)
    ]
