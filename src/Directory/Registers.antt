-- ===== src/Directory/Registers.antt =====
-- What `registerPeer` and `removePeer` of src/core/peer-directory.mjs leave in the two files, and show in between.
use universal_peer_mcp.Prelude.{
  ◌≤◌, ◌≡◌, ◌∙◌, refl, sym, ap, subst, Bool, true, false, not, Option, none, some, String, Text,
  arith, ltb, if◌then◌else◌, any, Bool-cases, Outcome, ok, err, refuse, inl, inr,
}
use universal_peer_mcp.Limits.{is_alias, require_uuid}
use universal_peer_mcp.Directory.{
  Kind, claude, codex, other_kind, Tables, table_of, with_table, Identity, holds, delete, Replaced,
  delete_all, holder_of, holder_is, without, next_tables, plan, Plan, change, unchanged,
  checked_size, size, max_peers,
}
use universal_peer_mcp.Directory.Files.{
  Disk, Files, write_tables, Registered, registered_as, carry_out, read_fault, register_peer,
  removed_as, remove_from, remove_peer, has_alias,
}
use universal_peer_mcp.Directory.Writes.{Seen, store_by-Seen, write_tables-Seen}
use universal_peer_mcp.Directory.Deletes.{count-delete_all, count-delete}
use universal_peer_mcp.Directory.Unique.{
  OneEach, OneEach-Fewer, replaced_by, alias_absent, session_absent, put-OneEach,
}

without-OneEach : (rs : Replaced) (t : Tables) → OneEach t → OneEach (without rs t)
unfolding without
without-OneEach rs t one =
    OneEach-Fewer t (without rs t) (λ p. count-delete_all p claude rs t.claude_table)
      (λ p. count-delete_all p codex rs t.codex_table) one

pub next_tables-OneEach :
    (alias : String) (who : Identity) (id : Text) (t : Tables)
    → OneEach t
    → OneEach (next_tables alias who id (replaced_by alias who id t) t)
unfolding next_tables without
next_tables-OneEach alias who id t one =
    put-OneEach alias (record { id = some id; rest = who.rest }) id refl who.kind
      (without (replaced_by alias who id t) t) (alias_absent alias who id t claude one)
      (alias_absent alias who id t codex one) (go who.kind (session_absent alias who id t one))
      (without-OneEach (replaced_by alias who id t) t one)
  where
    go :
        (k : Kind)
        → any (holds id) (delete_all k (replaced_by alias who id t) (table_of k t)) ≡ false
        → any (holds id) (table_of k (without (replaced_by alias who id t) t)) ≡ false
    go claude h = h
    go codex h = h

-- What a plan that changes the tables comes from.
abbrev pub Planned : String → Identity → Text → Tables → Plan → Type 0
Planned alias who id t unchanged = holder_is who.kind id (holder_of alias t) ≡ true
Planned alias who id t (change rs next) =
    (rs ≡ replaced_by alias who id t)
    × (next ≡ next_tables alias who id rs t)
    × (size next ≤ max_peers)

pub plan-Planned :
    (replace : Bool) (alias : String) (who : Identity) (id : Text) (t : Tables) (p : Plan)
    → plan replace alias who id t ≡ ok p
    → Planned alias who id t p
unfolding plan
plan-Planned replace alias who id t unchanged h =
    first (holder_is who.kind id (holder_of alias t)) _ _ _ h
  where
    first :
        (a b c d : Bool)
        → (if a
            then ok unchanged
            else if b
            then refuse "ALIAS_TAKEN"
            else if c
            then refuse "SESSION_ALREADY_REGISTERED"
            else if d
            then refuse "PEER_TABLE_FULL"
            else ok (
                change
                  (replaced_by alias who id t)
                  (next_tables alias who id (replaced_by alias who id t) t)))
          ≡ ok unchanged
        → a ≡ true
    first a b c d e = ground arith
plan-Planned replace alias who id t (change rs next) h =
    let (r, n, small) =
      last (holder_is who.kind id (holder_of alias t)) _ _ (replaced_by alias who id t)
        (next_tables alias who id (replaced_by alias who id t) t) h in
    (r, n ∙ ap (λ q. next_tables alias who id q t) (sym r), ground (arith, small))
  where
    last :
        (a b c : Bool) (qs : Replaced) (n : Tables)
        → (if a
            then ok unchanged
            else if b
            then refuse "ALIAS_TAKEN"
            else if c
            then refuse "SESSION_ALREADY_REGISTERED"
            else checked_size qs n)
          ≡ ok (change rs next)
        → (rs ≡ qs) × (next ≡ n) × (ltb max_peers (size next) ≡ false)
    last a b c qs n e = (ground arith, ground arith, ground arith)

-- The other table is the one that only loses entries.
other_table :
    (alias : String) (who : Identity) (id : Text) (rs : Replaced) (t : Tables) (k : Kind)
    → who.kind ≡ k
    → table_of (other_kind k) (next_tables alias who id rs t)
      ≡ delete_all (other_kind k) rs (table_of (other_kind k) t)
unfolding next_tables without
other_table alias who id rs t claude e = rw e refl
other_table alias who id rs t codex e = rw e refl

-- The first write of a registration.
first_write-OneEach :
    (alias : String) (who : Identity) (id : Text) (rs : Replaced) (t : Tables)
    → OneEach t
    → OneEach (
        with_table
          (other_kind who.kind)
          (table_of (other_kind who.kind) (next_tables alias who id rs t))
          t)
first_write-OneEach alias who id rs t one =
    go who.kind (other_table alias who id rs t who.kind refl)
  where
    go :
        (k : Kind)
        → table_of (other_kind k) (next_tables alias who id rs t)
          ≡ delete_all (other_kind k) rs (table_of (other_kind k) t)
        → OneEach
            (with_table (other_kind k) (table_of (other_kind k) (next_tables alias who id rs t)) t)
    go claude e =
        subst (λ xs. OneEach (with_table codex xs t)) (sym e)
          (OneEach-Fewer t (with_table codex (delete_all codex rs t.codex_table) t)
            (λ p. omega arith) (λ p. count-delete_all p codex rs t.codex_table) one)
    go codex e =
        subst (λ xs. OneEach (with_table claude xs t)) (sym e)
          (OneEach-Fewer t (with_table claude (delete_all claude rs t.claude_table) t)
            (λ p. count-delete_all p claude rs t.claude_table) (λ p. omega arith) one)

carry_out-Seen :
    (d : Disk) (replace : Bool) (alias : String) (who : Identity) (id : Text) (f : Files)
    → Seen f
    → Seen (carry_out d who.kind (plan replace alias who id f.tables) f).1
carry_out-Seen d replace alias who id f (one, h) =
    go (plan replace alias who id f.tables) (plan-Planned replace alias who id f.tables)
  where
    as_seen :
        (rs : Replaced) (r : Outcome (Unit {0}) × Files) → Seen r.1 → Seen (registered_as rs r).1
    as_seen rs (ok u, g) k = k
    as_seen rs (err code, g) k = k

    go :
        (o : Outcome Plan)
        → ((p : Plan) → o ≡ ok p → Planned alias who id f.tables p)
        → Seen (carry_out d who.kind o f).1
    go (err code) planned = (one, h)
    go (ok unchanged) planned = (one, h)
    go (ok (change rs next)) planned =
        let (r, n, small) = planned (change rs next) refl in
        as_seen rs (write_tables d who.kind f.tables next f) (
          write_tables-Seen d who.kind next f
            (subst
              (λ t.
                OneEach
                  (with_table (other_kind who.kind) (table_of (other_kind who.kind) t) f.tables))
              (sym n) (first_write-OneEach alias who id rs f.tables one))
            (subst OneEach (sym n) (
              subst (λ q. OneEach (next_tables alias who id q f.tables)) (sym r)
                (next_tables-OneEach alias who id f.tables one)))
            (one, h))

-- In every pair of tables that a reader sees while and after a registration runs, an alias names one session
-- and a session has one alias, whatever the disk answers, if that was so before.
pub register_peer-OneEach :
    (d : Disk) (replace : Bool) (alias : String) (who : Option Identity) (f : Files)
    → Seen f
    → Seen (register_peer d replace alias who f).1
unfolding register_peer
register_peer-OneEach d replace alias none f h = elim (Bool-cases (is_alias alias)) [
  | inl valid ↦ rw valid h
  | inr invalid ↦ rw invalid h
]
register_peer-OneEach d replace alias (some who) f h =
    pick (not (is_alias alias)) _ _ h (read (read_fault d) (require_uuid who.id))
  where
    pick :
        (t : Bool) (x y : Outcome Registered × Files)
        → Seen x.1
        → Seen y.1
        → Seen (if t then x else y).1
    pick true x y a b = a
    pick false x y a b = b

    read :
        (fault : Option (Option String)) (id : Outcome Text)
        → Seen
            (elim fault as (λ q. Outcome Registered × Files) [
              | some code ↦ (err code, f)
              | none ↦ elim id as (λ q. Outcome Registered × Files) [
                | err code ↦ (err code, f)
                | ok i ↦ carry_out d who.kind (plan replace alias who i f.tables) f
              ]
            ]).1
    read (some code) id = h
    read none (err code) = h
    read none (ok i) = carry_out-Seen d replace alias who i f h

-- The same holds of a removal.
pub remove_peer-OneEach :
    (d : Disk) (alias : String) (f : Files) → Seen f → Seen (remove_peer d alias f).1
unfolding remove_peer
remove_peer-OneEach d alias f (one, h) =
    pick (not (is_alias alias)) _ _ (one, h) (read (read_fault d))
  where
    pick :
        (t : Bool) (x y : Outcome Kind × Files) → Seen x.1 → Seen y.1 → Seen (if t then x else y).1
    pick true x y a b = a
    pick false x y a b = b

    as_seen : (k : Kind) (r : Outcome (Unit {0}) × Files) → Seen r.1 → Seen (removed_as k r).1
    as_seen k (ok u, g) a = a
    as_seen k (err code, g) a = a

    from : (k : Kind) → Seen (remove_from d k alias f).1
    from claude = as_seen claude _ (
        store_by-Seen (d.writes claude) claude _ f
          (OneEach-Fewer f.tables (with_table claude (delete alias f.tables.claude_table) f.tables)
            (λ p. count-delete alias p f.tables.claude_table) (λ p. omega arith) one)
          (one, h))
    from codex = as_seen codex _ (
        store_by-Seen (d.writes codex) codex _ f
          (OneEach-Fewer f.tables (with_table codex (delete alias f.tables.codex_table) f.tables)
            (λ p. omega arith) (λ p. count-delete alias p f.tables.codex_table) one)
          (one, h))

    read :
        (fault : Option (Option String))
        → Seen
            (elim fault as (λ q. Outcome Kind × Files) [
              | some code ↦ (err code, f)
              | none ↦
                  if has_alias alias f.tables.claude_table
                  then remove_from d claude alias f
                  else if has_alias alias f.tables.codex_table
                  then remove_from d codex alias f
                  else (refuse "UNKNOWN_ALIAS", f)
            ]).1
    read (some code) = (one, h)
    read none =
        pick (has_alias alias f.tables.claude_table) _ _ (from claude)
          (pick (has_alias alias f.tables.codex_table) _ _ (from codex) (one, h))
