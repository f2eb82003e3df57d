-- ===== src/Directory/Writes.antt =====
-- The two writes of `registerPeer` (src/core/peer-directory.mjs), and the tables between them.
use universal_peer_mcp.Prelude.{
  ◌≡◌, ◌∙◌, refl, sym, ap, ap₂, subst, Bool, true, false, Option, none, some, [], ◌∷◌, String, Text,
  arith, str_eq, str_eq-true, if◌then◌else◌, All, same_text_sound, Bool-cases, Outcome, ok, err,
  inl, inr, and-eq-true,
}
use universal_peer_mcp.Directory.{
  Kind, claude, codex, other_kind, Entry, Table, Tables, table_of, with_table,
}
use universal_peer_mcp.Directory.Files.{
  Disk, Files, Write, stored, lost, stored_failed, store_by, then_write, same_id, same_table,
  write_changed, write_tables,
}
use universal_peer_mcp.Directory.Unique.{OneEach}

same_id_sound : (a b : Option Text) → same_id a b ≡ true → a ≡ b
same_id_sound none none h = refl
same_id_sound none (some b) h = absurd (ground arith)
same_id_sound (some a) none h = absurd (ground arith)
same_id_sound (some a) (some b) h = ap (λ t. some t) (same_text_sound a b h)

abbrev entry : Option Text → String → Entry
entry i r = record { id = i; rest = r }

-- Tables with the same JSON are equal.
pub same_table_sound : (t u : Table) → same_table t u ≡ true → t ≡ u
same_table_sound [] [] h = refl
same_table_sound [] (q ∷ u) h = absurd (ground arith)
same_table_sound (p ∷ t) [] h = absurd (ground arith)
same_table_sound (p ∷ t) (q ∷ u) h =
    let (named, h') = and-eq-true (str_eq p.0 q.0) _ h in
    let (ids, h'') = and-eq-true (same_id p.1.id q.1.id) _ h' in
    let (rests, tails) = and-eq-true (str_eq p.1.rest q.1.rest) _ h'' in
    ap₂ ◌∷◌
      (ap₂ (λ (n : String) (e : Entry). (n, e)) (str_eq-true p.0 q.0 named)
        (ap₂ entry (same_id_sound p.1.id q.1.id ids) (str_eq-true p.1.rest q.1.rest rests)))
      (same_table_sound t u tails)

-- Every pair of tables that a reader may have seen.
abbrev pub Seen : Files → Type 0
Seen f = All OneEach (f.tables ∷ f.seen)

pub store_by-Seen :
    (w : Write) (k : Kind) (xs : Table) (f : Files)
    → OneEach (with_table k xs f.tables)
    → Seen f
    → Seen (store_by w k xs f).1
store_by-Seen stored k xs f one h = (one, h)
store_by-Seen (lost code) k xs f one h = h
store_by-Seen (stored_failed code) k xs f one h = (one, h)

if-Seen :
    (t : Bool) (x y : Outcome (Unit {0}) × Files)
    → Seen x.1
    → Seen y.1
    → Seen (if t then x else y).1
if-Seen true x y h k = h
if-Seen false x y h k = k

write_changed-Seen :
    (d : Disk) (k : Kind) (before next : Tables) (f : Files)
    → OneEach (with_table k (table_of k next) f.tables)
    → Seen f
    → Seen (write_changed d k before next f).1
unfolding write_changed
write_changed-Seen d k before next f one h =
    if-Seen (same_table (table_of k next) (table_of k before)) _ _ h
      (store_by-Seen (d.writes k) k (table_of k next) f one h)

table_of-with_other :
    (k : Kind) (xs : Table) (t : Tables)
    → table_of k (with_table (other_kind k) xs t) ≡ table_of k t
table_of-with_other claude xs t = refl
table_of-with_other codex xs t = refl

with_table-same : (k : Kind) (t : Tables) → t ≡ with_table k (table_of k t) t
with_table-same claude t = refl
with_table-same codex t = refl

-- A write that succeeds puts the table that was to be written in its place.
write_changed-ok :
    (d : Disk) (k : Kind) (before next : Tables) (f g : Files) (u : Unit {0})
    → table_of k before ≡ table_of k f.tables
    → write_changed d k before next f ≡ (ok u, g)
    → g.tables ≡ with_table k (table_of k next) f.tables
unfolding write_changed
write_changed-ok d k before next f g u fresh h =
    elim (Bool-cases (same_table (table_of k next) (table_of k before))) [
      | inl same ↦
          let done : ◌≡◌ {A = Outcome (Unit {0}) × Files} (ok tt, f) (ok u, g) = rw same at h in
          ap (λ (r : Outcome (Unit {0}) × Files). r.1.tables) (sym done)
          ∙ with_table-same k f.tables
          ∙ ap (λ xs. with_table k xs f.tables)
              (sym fresh ∙ sym (same_table_sound (table_of k next) (table_of k before) same))
      | inr other ↦ go (d.writes k) (rw other at h)
    ]
  where
    go :
        (w : Write)
        → store_by w k (table_of k next) f ≡ (ok u, g)
        → g.tables ≡ with_table k (table_of k next) f.tables
    go stored e = ap (λ (r : Outcome (Unit {0}) × Files). r.1.tables) (sym e)
    go (lost code) e = absurd (ground arith)
    go (stored_failed code) e = absurd (ground arith)

both_tables :
    (k : Kind) (next t : Tables)
    → with_table k (table_of k next) (with_table (other_kind k) (table_of (other_kind k) next) t)
      ≡ next
both_tables claude next t = refl
both_tables codex next t = refl

pub write_tables-Seen :
    (d : Disk) (k : Kind) (next : Tables) (f : Files)
    → OneEach (with_table (other_kind k) (table_of (other_kind k) next) f.tables)
    → OneEach next
    → Seen f
    → Seen (write_tables d k f.tables next f).1
unfolding write_tables
write_tables-Seen d k next f half whole h =
    go (write_changed d (other_kind k) f.tables next f) refl
      (write_changed-Seen d (other_kind k) f.tables next f half h)
  where
    go :
        (r : Outcome (Unit {0}) × Files)
        → write_changed d (other_kind k) f.tables next f ≡ r
        → Seen r.1
        → Seen (then_write d k f.tables next r).1
    go (err code, g) e seen = seen
    go (ok u, g) e seen =
        write_changed-Seen d k f.tables next g
          (subst OneEach
            (sym (
              ap (with_table k (table_of k next))
                (write_changed-ok d (other_kind k) f.tables next f g u refl e)
              ∙ both_tables k next f.tables))
            whole)
          seen

-- When both writes succeed, both tables are there.
pub write_tables-ok :
    (d : Disk) (k : Kind) (next : Tables) (f g : Files) (u : Unit {0})
    → write_tables d k f.tables next f ≡ (ok u, g)
    → g.tables ≡ next
unfolding write_tables
write_tables-ok d k next f g u h = go (write_changed d (other_kind k) f.tables next f) refl h
  where
    go :
        (r : Outcome (Unit {0}) × Files)
        → write_changed d (other_kind k) f.tables next f ≡ r
        → then_write d k f.tables next r ≡ (ok u, g)
        → g.tables ≡ next
    go (err code, x) e h' = absurd (ground arith)
    go (ok v, x) e h' =
        let halfway = write_changed-ok d (other_kind k) f.tables next f x v refl e in
        write_changed-ok d k f.tables next x g u
          (sym (
            ap (table_of k) halfway
            ∙ table_of-with_other k (table_of (other_kind k) next) f.tables))
          h'
        ∙ ap (with_table k (table_of k next)) halfway
        ∙ both_tables k next f.tables
