-- ===== src/Directory.antt =====
-- src/core/peer-directory.mjs: which alias names which session. The tables of the two files are lists of
-- named entries in the order of the file; a file that is missing is an empty one. The names of the
-- fields that an entry has beside its id are not told apart, and no alias is a number.
pub mod Files
mod Tests
pub mod Forget
pub mod Serves
pub mod Refines
pub mod Assign
pub mod View
pub mod Writes
pub mod Registers
pub mod Unique
pub mod Deletes
use universal_peer_mcp.Prelude.{
  ℕ, ◌+◌, Bool, true, false, not, ◌&&◌, ◌||◌, Option, none, some, List, [], ◌∷◌, ◌++◌, map, String,
  Text, same_text, ltb, str_eq, if◌then◌else◌, any, find?, filter, length, Outcome, ok, err, refuse,
}
use universal_peer_mcp.Limits.{is_alias, same_uuid, require_uuid}

-- `MAX_PEERS`
abbrev pub max_peers : ℕ
max_peers = 128

pub data Kind : Type 0 where
  claude codex : Kind

abbrev pub same_kind : Kind → Kind → Bool
same_kind claude claude = true
same_kind claude codex = false
same_kind codex claude = false
same_kind codex codex = true

abbrev pub other_kind : Kind → Kind
other_kind claude = codex
other_kind codex = claude

-- The `sessionId` or `threadId` of an entry, where it is a string, and the rest of it.
pub record Entry : Type 0 where
  pub id : Option Text
  pub rest : String

abbrev pub Table : Type 0
Table = List (String × Entry)

pub record Tables : Type 0 where
  pub claude_table : Table
  pub codex_table : Table

abbrev pub table_of : Kind → Tables → Table
table_of claude t = t.claude_table
table_of codex t = t.codex_table

abbrev pub with_table : Kind → Table → Tables → Tables
with_table claude xs t = record t { claude_table = xs }
with_table codex xs t = record t { codex_table = xs }

-- `identity`: `rest` is what its entry will hold beside the id.
pub record Identity : Type 0 where
  pub kind : Kind
  pub id : Option Text
  pub rest : String

-- An object of named entries: `Object.hasOwn`, a look-up, `delete`, and an assignment.
abbrev pub names : String → String × Entry → Bool
names alias p = str_eq alias p.0

abbrev pub entry_of : String → Table → Option (String × Entry)
entry_of alias = find? (names alias)

unfoldable pub delete : String → Table → Table
delete alias = filter (λ p. not (names alias p))

abbrev pub replace_entry : String → Entry → Table → Table
replace_entry alias e [] = []
replace_entry alias e (p ∷ t) =
    let rest = replace_entry alias e t in if names alias p then (p.0, e) ∷ rest else p ∷ rest

unfoldable pub put : String → Entry → Table → Table
put alias e t = if any (names alias) t then replace_entry alias e t else t ++ (alias, e) ∷ []

-- `resolvePeer` and `aliasOfCodexThread`
abbrev pub Peer : Type 0
Peer = Kind × Option Text

abbrev pub as_peer : Kind → Option (String × Entry) → Option Peer
as_peer k none = none
as_peer k (some p) = some (k, p.1.id)

abbrev pub or_peer : Option Peer → Option Peer → Option Peer
or_peer none q = q
or_peer (some p) q = some p

unfoldable pub resolve_peer : String → Tables → Option Peer
resolve_peer alias t =
    if is_alias alias
    then or_peer (as_peer claude (entry_of alias t.claude_table))
        (as_peer codex (entry_of alias t.codex_table))
    else none

-- An entry that names a session or thread.
abbrev pub holds : Text → String × Entry → Bool
holds id p = same_uuid p.1.id (some id)

unfoldable pub alias_of_codex_thread : Option Text → Table → Option String
alias_of_codex_thread thread t = elim (find? (λ p. same_uuid p.1.id thread) t) [
  | none ↦ none
  | some p ↦ some p.0
]

-- `registerPeer`. `sameIdentity`, the holder of the alias, and the other aliases of the session.
abbrev pub same_identity : Kind → Text → Kind → String × Entry → Bool
same_identity kind id k p = same_kind k kind && holds id p

abbrev pub with_kind : Kind → Option (String × Entry) → Option (Kind × (String × Entry))
with_kind k none = none
with_kind k (some p) = some (k, p)

unfoldable pub holder_of : String → Tables → Option (Kind × (String × Entry))
holder_of alias t = elim (entry_of alias t.claude_table) [
  | some p ↦ some (claude, p)
  | none ↦ with_kind codex (entry_of alias t.codex_table)
]

abbrev pub Replaced : Type 0
Replaced = List (String × Kind)

abbrev pub is_other : String → Text → Kind → Kind → String × Entry → Bool
is_other alias id kind k p = not (names alias p) && same_identity kind id k p

abbrev pub others_in : String → Text → Kind → Kind → Table → Replaced
others_in alias id kind k t =
    map (λ (p : String × Entry). (p.0, k)) (filter (is_other alias id kind k) t)

abbrev pub others_of : String → Text → Kind → Tables → Replaced
others_of alias id kind t =
    others_in alias id kind claude t.claude_table ++ others_in alias id kind codex t.codex_table

abbrev pub held_alias : String → Option (Kind × (String × Entry)) → Replaced
held_alias alias none = []
held_alias alias (some (k, p)) = (alias, k) ∷ []

-- The entries of one table that stay.
unfoldable pub delete_all : Kind → Replaced → Table → Table
unfolding delete
delete_all k [] t = t
delete_all k (r ∷ rs) t = delete_all k rs (if same_kind k r.1 then delete r.0 t else t)

unfoldable pub without : Replaced → Tables → Tables
unfolding delete_all
without replaced t = record {
  claude_table = delete_all claude replaced t.claude_table;
  codex_table = delete_all codex replaced t.codex_table;
}

unfoldable pub next_tables : String → Identity → Text → Replaced → Tables → Tables
unfolding without put
next_tables alias who id replaced t =
    let kept = without replaced t in
    with_table who.kind
      (put alias (record { id = some id; rest = who.rest }) (table_of who.kind kept)) kept

pub data Plan : Type 0 where
  unchanged : Plan
  change : Replaced → Tables → Plan

abbrev pub holder_is : Kind → Text → Option (Kind × (String × Entry)) → Bool
holder_is kind id none = false
holder_is kind id (some (k, p)) = same_identity kind id k p

abbrev pub is_empty : Replaced → Bool
is_empty [] = true
is_empty (r ∷ rs) = false

abbrev pub size : Tables → ℕ
size t = length t.claude_table + length t.codex_table

abbrev pub checked_size : Replaced → Tables → Outcome Plan
checked_size replaced t =
    if ltb max_peers (size t) then refuse "PEER_TABLE_FULL" else ok (change replaced t)

-- What a registration comes to, from the tables as they were read.
unfoldable pub plan : Bool → String → Identity → Text → Tables → Outcome Plan
unfolding next_tables
plan replace alias who id t =
    let holder = holder_of alias t in
    let others = others_of alias id who.kind t in
    let replaced = held_alias alias holder ++ others in
    if holder_is who.kind id holder
    then ok unchanged
    else if not replace && not (is_empty (held_alias alias holder))
    then refuse "ALIAS_TAKEN"
    else if not replace && not (is_empty others)
    then refuse "SESSION_ALREADY_REGISTERED"
    else checked_size replaced (next_tables alias who id replaced t)
