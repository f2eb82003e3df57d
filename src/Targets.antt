-- ===== src/Targets.antt =====
-- src/core/target-table.mjs: the operator's table of targets, read when it is needed. A table is a list
-- of aliases and rows. Parameters: what the file's fingerprint is, what loading the file gives, and the
-- digest of a table (core/target-config.mjs, which is not modelled).
pub mod Watch
pub mod Changes
mod Tests
use universal_peer_mcp.Prelude.{
  ℕ, suc, Bool, true, false, not, ◌&&◌, Option, none, some, List, [], ◌∷◌, ◌++◌, String, str_eq,
  any, count, map, if◌then◌else◌, Outcome, ok, err,
}

pub record Target : Type 0 where
  pub target_session : String
  pub cwd : String
  pub expected_display_name : Option String
  pub permission_mode : String

abbrev pub Table : Type 0
Table = List (String × Target)

abbrev pub row_of : Table → String → Option Target
row_of [] name = none
row_of ((alias, row) ∷ rest) name = if str_eq name alias then some row else row_of rest name

abbrev pub same_option : Option String → Option String → Bool
same_option none none = true
same_option (some a) (some b) = str_eq a b
same_option _ _ = false

-- `rowKey(before) === rowKey(after)`
unfoldable pub same_row : Option Target → Option Target → Bool
same_row none none = true
same_row none (some b) = false
same_row (some a) none = false
same_row (some a) (some b) =
    str_eq a.target_session b.target_session
    && (str_eq a.cwd b.cwd
        && (same_option a.expected_display_name b.expected_display_name
            && str_eq a.permission_mode b.permission_mode))

-- The `Set` of the names of both tables: each name once.
abbrev pub add_name : String → List String → List String
add_name name names = if any (str_eq name) names then names else name ∷ names

unfoldable pub names_of : Table → List String → List String
names_of [] names = names
names_of ((alias, row) ∷ rest) names = add_name alias (names_of rest names)

-- `countChangedAliases`
unfoldable pub count_changed_aliases : Table → Table → ℕ
unfolding names_of same_row
count_changed_aliases before after =
    count (λ name. not (same_row (row_of before name) (row_of after name)))
      (names_of before (names_of after []))

-- What `#fingerprint` observes: no file, or a text.
pub data Observed : Type 0 where
  absent : Observed
  observed : String → Observed

abbrev pub same_observed : Observed → Option Observed → Bool
same_observed absent (some absent) = true
same_observed (observed a) (some (observed b)) = str_eq a b
same_observed _ _ = false

-- The fields of `TargetTableWatch`; an error is known by its code.
pub record TargetTableWatch : Type 0 where
  pub fingerprint : Option Observed
  pub table : Table
  pub digest : String
  pub unreadable : Option (Option String)

pub record Answer : Type 0 where
  pub changed : Bool
  pub digest_changed : Bool
  pub answer_table : Table
  pub answer_digest : String
  pub previous_digest : String
  pub changed_aliases : ℕ
  pub answer_unreadable : Option (Option String)

module _ (digest_of : Table → String) where
  abbrev pub new_watch : TargetTableWatch
  new_watch = record { fingerprint = none; table = []; digest = digest_of []; unreadable = none }

  -- A reading that got a table.
  abbrev pub took : Observed → Table → TargetTableWatch → Answer × TargetTableWatch
  took seen table w = (
    record {
      changed = true;
      digest_changed = not (str_eq (digest_of table) w.digest);
      answer_table = table;
      answer_digest = digest_of table;
      previous_digest = w.digest;
      changed_aliases = count_changed_aliases w.table table;
      answer_unreadable = none;
    },
    record { fingerprint = some seen; table = table; digest = digest_of table; unreadable = none },
  )

  -- A reading that failed keeps the last good table.
  abbrev pub kept_last : Observed → Option String → TargetTableWatch → Answer × TargetTableWatch
  kept_last seen code w = (
    record {
      changed = true;
      digest_changed = false;
      answer_table = w.table;
      answer_digest = w.digest;
      previous_digest = w.digest;
      changed_aliases = 0;
      answer_unreadable = some code;
    },
    record w { fingerprint = some seen; unreadable = some code },
  )

  abbrev pub unchanged : TargetTableWatch → Answer × TargetTableWatch
  unchanged w = (
    record {
      changed = false;
      digest_changed = false;
      answer_table = w.table;
      answer_digest = w.digest;
      previous_digest = w.digest;
      changed_aliases = 0;
      answer_unreadable = w.unreadable;
    },
    w,
  )

  -- `read`: `loaded` is what `load` gives for the file.
  unfoldable pub read : Observed → Outcome Table → TargetTableWatch → Answer × TargetTableWatch
  unfolding count_changed_aliases
  read seen loaded w = if same_observed seen w.fingerprint then unchanged w else elim seen [
    | absent ↦ took absent [] w
    | observed f ↦ elim loaded [
      | ok table ↦ took (observed f) table w
      | err code ↦ kept_last (observed f) code w
    ]
  ]
