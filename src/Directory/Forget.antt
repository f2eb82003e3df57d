-- ===== src/Directory/Forget.antt =====
-- `removePeer` of src/core/peer-directory.mjs against the directory as a map from an alias to its session.
use universal_peer_mcp.Prelude.{
  ◌≡◌, ◌∙◌, refl, sym, ap, subst, Bool, true, false, not, Option, none, some, String, arith, str_eq,
  str_eq-true, if◌then◌else◌, find?_of_any, Bool-cases, refuse, Outcome, ok, err, inl, inr,
}
use universal_peer_mcp.Limits.{is_alias}
use universal_peer_mcp.Directory.{
  Kind, claude, codex, Entry, Table, Tables, delete, table_of, with_table, names, entry_of,
  resolve_peer, as_peer, or_peer,
}
use universal_peer_mcp.Directory.Files.{
  Disk, Files, Write, stored, lost, stored_failed, store_by, read_fault, removed_as, remove_from,
  remove_peer, has_alias,
}
use universal_peer_mcp.Directory.Unique.{OneEach}
use universal_peer_mcp.Directory.View.{view, forget, left, entry_of-filter, one_entry}

-- An entry after a deletion.
entry_of-delete :
    (alias a : String) (t : Table)
    → entry_of a (delete alias t) ≡ (if str_eq alias a then none else entry_of a t)
unfolding delete
entry_of-delete alias a t = entry_of-filter (str_eq alias) a t

module _ (alias : String) (t : Tables) (p : String × Entry) (one : OneEach t) where
  claude_only : entry_of alias t.claude_table ≡ some p → entry_of alias t.codex_table ≡ none
  claude_only held = elim (one_entry t alias one) [
    | inl absent ↦ absurd (ground (arith, held, absent))
    | inr absent ↦ absent
  ]

  codex_only : entry_of alias t.codex_table ≡ some p → entry_of alias t.claude_table ≡ none
  codex_only held = elim (one_entry t alias one) [
    | inl absent ↦ absent
    | inr absent ↦ absurd (ground (arith, held, absent))
  ]

  delete-view :
      (k : Kind) (a : String)
      → entry_of alias (table_of k t) ≡ some p
      → view (with_table k (delete alias (table_of k t)) t) a ≡ forget alias (view t) a
  unfolding resolve_peer
  delete-view claude a held = rw (entry_of-delete alias a t.claude_table) (
      go (is_alias a) (str_eq alias a) (entry_of a t.claude_table) (entry_of a t.codex_table)
        (λ same.
          ap (λ b. entry_of b t.codex_table) (sym (str_eq-true alias a same)) ∙ claude_only held))
    where
      go :
          (v s : Bool) (c d : Option (String × Entry))
          → (s ≡ true → d ≡ none)
          → (if v then or_peer (as_peer claude (left s c)) (as_peer codex d) else none)
            ≡ (if s then none else if v then or_peer (as_peer claude c) (as_peer codex d) else none)
      go true true c d e = rw (e refl) refl
      go true false c d e = refl
      go false true c d e = refl
      go false false c d e = refl
  delete-view codex a held = rw (entry_of-delete alias a t.codex_table) (
      go (is_alias a) (str_eq alias a) (entry_of a t.claude_table) (entry_of a t.codex_table)
        (λ same.
          ap (λ b. entry_of b t.claude_table) (sym (str_eq-true alias a same)) ∙ codex_only held))
    where
      go :
          (v s : Bool) (c d : Option (String × Entry))
          → (s ≡ true → c ≡ none)
          → (if v then or_peer (as_peer claude c) (as_peer codex (left s d)) else none)
            ≡ (if s then none else if v then or_peer (as_peer claude c) (as_peer codex d) else none)
      go true true c d e = rw (e refl) refl
      go true false c d e = refl
      go false true c d e = refl
      go false false c d e = refl

remove_from-forget :
    (d : Disk) (k kind : Kind) (alias : String) (f g : Files)
    → OneEach f.tables
    → has_alias alias (table_of k f.tables) ≡ true
    → remove_from d k alias f ≡ (ok kind, g)
    → (a : String) → view g.tables a ≡ forget alias (view f.tables) a
remove_from-forget d k kind alias f g one held h a =
    let (p, found) = find?_of_any (names alias) (table_of k f.tables) held in
    subst (λ t. view t a ≡ forget alias (view f.tables) a) (sym (go (d.writes k) h))
      (delete-view alias f.tables p one k a found)
  where
    go :
        (w : Write)
        → removed_as k (store_by w k (delete alias (table_of k f.tables)) f) ≡ (ok kind, g)
        → g.tables ≡ with_table k (delete alias (table_of k f.tables)) f.tables
    go stored e = ap (λ (y : Outcome Kind × Files). y.1.tables) (sym e)
    go (lost code) e = absurd (ground arith)
    go (stored_failed code) e = absurd (ground arith)

-- A removal that succeeds has taken the alias away, and nothing else.
pub remove_peer-forget :
    (d : Disk) (alias : String) (f g : Files) (kind : Kind)
    → OneEach f.tables
    → remove_peer d alias f ≡ (ok kind, g)
    → (a : String) → view g.tables a ≡ forget alias (view f.tables) a
unfolding remove_peer
remove_peer-forget d alias f g kind one h a =
    pick (not (is_alias alias)) _ _ h (λ e. absurd (ground arith)) (read (read_fault d))
  where
    Good : Type 0
    Good = view g.tables a ≡ forget alias (view f.tables) a

    pick :
        (t : Bool) (x y : Outcome Kind × Files)
        → (if t then x else y) ≡ (ok kind, g)
        → (x ≡ (ok kind, g) → Good)
        → (y ≡ (ok kind, g) → Good)
        → Good
    pick true x y e p q = p e
    pick false x y e p q = q e

    read :
        (fault : Option (Option String))
        → elim fault as (λ q. Outcome Kind × Files) [
          | some code ↦ (err code, f)
          | none ↦
              if has_alias alias f.tables.claude_table
              then remove_from d claude alias f
              else if has_alias alias f.tables.codex_table
              then remove_from d codex alias f
              else (refuse "UNKNOWN_ALIAS", f)
        ]
          ≡ (ok kind, g)
        → Good
    read (some code) e = absurd (ground arith)
    read none e = elim (Bool-cases (has_alias alias f.tables.claude_table)) [
      | inl here ↦ remove_from-forget d claude kind alias f g one here (rw here at e) a
      | inr absent ↦ elim (Bool-cases (has_alias alias f.tables.codex_table)) [
        | inl there ↦
            remove_from-forget d codex kind alias f g one there (rw (absent, there) at e) a
        | inr nowhere ↦ absurd (unknown (rw (absent, nowhere) at e))
      ]
    ]
      where
        unknown : ◌≡◌ {A = Outcome Kind × Files} (refuse "UNKNOWN_ALIAS", f) (ok kind, g) → ⊥
        unknown z = ground arith
