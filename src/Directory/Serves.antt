-- ===== src/Directory/Serves.antt =====
-- When `registerPeer` of src/core/peer-directory.mjs succeeds.
use universal_peer_mcp.Prelude.{
  suc, ◌<◌, length-append, ◌+◌, ◌≤◌, ◌≡◌, ◌∙◌, refl, ap, true, false, none, some, [], ◌∷◌, String,
  Text, arith, any, count, Bool-cases, ltb, length, ok, inl, inr,
}
use universal_peer_mcp.Limits.{is_alias, require_uuid}
use universal_peer_mcp.Directory.{
  Kind, claude, codex, other_kind, Entry, Table, Tables, plan, holder_is, size, max_peers, table_of,
  with_table, Identity, names, put, Replaced, delete_all, holder_of, without, next_tables,
}
use universal_peer_mcp.Directory.Files.{
  Disk, Files, stored, store_table, same_table, then_write, write_changed, write_tables, Registered,
  registered, same_as_before, register_peer,
}
use universal_peer_mcp.Directory.Deletes.{count-delete_all}
use universal_peer_mcp.Directory.Unique.{OneEach, replaced_by, alias_absent}

count-true : (t : Table) → count (λ p. true) t ≡ length t
count-true [] = refl
count-true (x ∷ t) = ap suc (count-true t)

length-delete_all : (k : Kind) (rs : Replaced) (t : Table) → length (delete_all k rs t) ≤ length t
length-delete_all k rs t =
    omega (arith, count-delete_all (λ p. true) k rs t, count-true (delete_all k rs t), count-true t)

length-put :
    (alias : String) (e : Entry) (t : Table)
    → any (names alias) t ≡ false
    → length (put alias e t) ≡ length t + 1
unfolding put
length-put alias e t absent = rw (absent, length-append t ((alias, e) ∷ [])) refl

-- A registration adds at most one entry.
size-next_tables :
    (alias : String) (who : Identity) (id : Text) (t : Tables)
    → OneEach t
    → size (next_tables alias who id (replaced_by alias who id t) t) ≤ size t + 1
unfolding next_tables without
size-next_tables alias who id t one = go who.kind
  where
    kept : Tables
    kept = without (replaced_by alias who id t) t

    e : Entry
    e = record { id = some id; rest = who.rest }

    go : (k : Kind) → size (with_table k (put alias e (table_of k kept)) kept) ≤ size t + 1
    go claude = rw (length-put alias e kept.claude_table (alias_absent alias who id t claude one)) (
        omega (
          arith,
          length-delete_all claude (replaced_by alias who id t) t.claude_table,
          length-delete_all codex (replaced_by alias who id t) t.codex_table,
        ))
    go codex = rw (length-put alias e kept.codex_table (alias_absent alias who id t codex one)) (
        omega (
          arith,
          length-delete_all claude (replaced_by alias who id t) t.claude_table,
          length-delete_all codex (replaced_by alias who id t) t.codex_table,
        ))

-- A disk that reads and writes.
abbrev pub IsSound : Disk → Type 0
IsSound d = ((k : Kind) → d.reads k ≡ none) × ((k : Kind) → d.writes k ≡ stored)

write_changed_sound :
    (d : Disk) (k : Kind) (before next : Tables) (f : Files)
    → IsSound d
    → (g : Files) × (write_changed d k before next f ≡ (ok tt, g))
unfolding write_changed
write_changed_sound d k before next f (reads, writes) =
    elim (Bool-cases (same_table (table_of k next) (table_of k before))) [
      | inl same ↦ (f, rw same refl)
      | inr other ↦ (store_table k (table_of k next) f, rw (other, writes k) refl)
    ]

write_tables_sound :
    (d : Disk) (k : Kind) (before next : Tables) (f : Files)
    → IsSound d
    → (g : Files) × (write_tables d k before next f ≡ (ok tt, g))
unfolding write_tables
write_tables_sound d k before next f sound =
    let (half, e) = write_changed_sound d (other_kind k) before next f sound in
    let (whole, e') = write_changed_sound d k before next half sound in
    (whole, ap (then_write d k before next) e ∙ e')

-- On a disk that reads and writes, a registration with `--replace` of a valid alias and id succeeds while there is
-- room for one more.
pub register_peer-succeeds :
    (d : Disk) (alias : String) (who : Identity) (id : Text) (f : Files)
    → IsSound d
    → OneEach f.tables
    → is_alias alias ≡ true
    → require_uuid who.id ≡ ok id
    → size f.tables < max_peers
    → (r : Registered) × (g : Files) × (register_peer d true alias (some who) f ≡ (ok r, g))
unfolding register_peer plan
register_peer-succeeds d alias who id f (reads, writes) one valid uuid room =
    elim (Bool-cases (holder_is who.kind id (holder_of alias f.tables))) [
      | inl same ↦
          (same_as_before, f, rw (register_peer, valid, reads claude, reads codex, uuid, same) refl)
      | inr other ↦
          let small : ltb max_peers
                (size (next_tables alias who id (replaced_by alias who id f.tables) f.tables))
              ≡ false =
            ground (arith, size-next_tables alias who id f.tables one) in
          let (g, e) =
            write_tables_sound d who.kind f.tables
              (next_tables alias who id (replaced_by alias who id f.tables) f.tables) f
              (reads, writes) in
          (
            registered (replaced_by alias who id f.tables),
            g,
            rw (register_peer, valid, reads claude, reads codex, uuid, other, small, e) refl,
          )
    ]
