-- ===== src/Directory/Unique.antt =====
-- `registerPeer` and `removePeer` of src/core/peer-directory.mjs keep one session for an alias and one
-- alias for a session, in every pair of tables that a reader may see.
use universal_peer_mcp.Prelude.{
  ◌+◌, ◌≤◌, ◌≡◌, ◌∙◌, ◌⊎◌, refl, sym, subst, fun_ext, Bool, true, false, ◌&&◌, ◌||◌, Option, some,
  [], ◌∷◌, ◌++◌, String, Text, arith, str_eq, str_eq-true, str_eq_refl, if◌then◌else◌, any, count,
  any-append, count-append, count-eq-zero, any_of_find?, any-eq-false_of_find?, Bool-cases,
  Option-cases, inl, inr,
}
use universal_peer_mcp.Limits.{same_uuid}
use universal_peer_mcp.Limits.Laws.{same_uuid-congr}
use universal_peer_mcp.Directory.{
  Kind, claude, codex, same_kind, Entry, Table, Tables, table_of, with_table, Identity, names,
  holds, entry_of, put, Replaced, delete_all, holder_of, held_alias, others_of, others_in,
}
use universal_peer_mcp.Directory.Deletes.{
  in_replaced, any-names-delete_all, any-holds-delete_all, any_of_count, count_of_any,
}

-- An alias has one entry in both tables together, and a session or thread one in its own.
unfoldable pub OneEach : Tables → Type 0
OneEach t =
    ((alias : String) → count (names alias) t.claude_table + count (names alias) t.codex_table ≤ 1)
    × ((k : Kind) (id : Text) → count (holds id) (table_of k t) ≤ 1)

-- No more entries of any sort.
abbrev pub Fewer : Table → Table → Type 0
Fewer u t = (p : String × Entry → Bool) → count p u ≤ count p t

pub OneEach-Fewer :
    (t u : Tables)
    → Fewer u.claude_table t.claude_table
    → Fewer u.codex_table t.codex_table
    → OneEach t
    → OneEach u
unfolding OneEach
OneEach-Fewer t u f g (named, held) =
    (λ alias. omega (arith, f (names alias), g (names alias), named alias), go)
  where
    go : (k : Kind) (id : Text) → count (holds id) (table_of k u) ≤ 1
    go claude id = omega (arith, f (holds id), held claude id)
    go codex id = omega (arith, g (holds id), held codex id)

-- What a registration deletes.
abbrev pub replaced_by : String → Identity → Text → Tables → Replaced
replaced_by alias who id t = held_alias alias (holder_of alias t) ++ others_of alias id who.kind t

held_first :
    (alias : String) (k : Kind) (p : String × Entry) (o : Option (Kind × (String × Entry)))
    (rs : Replaced)
    → o ≡ some (k, p)
    → in_replaced k (held_alias alias o ++ rs) alias ≡ true
held_first alias k p o rs e =
    subst (λ q. in_replaced k (held_alias alias q ++ rs) alias ≡ true) (sym e) (go k)
  where
    go : (j : Kind) → in_replaced j ((alias, j) ∷ rs) alias ≡ true
    go claude = rw (str_eq_refl alias) refl
    go codex = rw (str_eq_refl alias) refl

-- The alias is deleted from a table, or was not in it.
alias_gone :
    (alias : String) (who : Identity) (id : Text) (t : Tables) (k : Kind)
    → OneEach t
    → (in_replaced k (replaced_by alias who id t) alias ≡ true)
      ⊎ (any (names alias) (table_of k t) ≡ false)
unfolding OneEach holder_of
alias_gone alias who id t claude (named, held) =
    elim (Option-cases (entry_of alias t.claude_table)) [
      | inr (p, e) ↦ inl (
          held_first alias claude p (holder_of alias t) (others_of alias id who.kind t)
            (rw (holder_of, e) refl))
      | inl no_claude ↦ inr (any-eq-false_of_find? (names alias) t.claude_table no_claude)
    ]
alias_gone alias who id t codex (named, held) =
    elim (Option-cases (entry_of alias t.claude_table)) [
      | inr (p, e) ↦ inr (
          any_of_count (names alias) t.codex_table (
            omega (
              arith,
              named alias,
              count_of_any (names alias) t.claude_table
                  (any_of_find? (names alias) t.claude_table p e),
            )))
      | inl no_claude ↦ elim (Option-cases (entry_of alias t.codex_table)) [
        | inl no_codex ↦ inr (any-eq-false_of_find? (names alias) t.codex_table no_codex)
        | inr (p, e) ↦ inl (
            held_first alias codex p (holder_of alias t) (others_of alias id who.kind t)
              (rw (holder_of, no_claude, e) refl))
      ]
    ]

pub alias_absent :
    (alias : String) (who : Identity) (id : Text) (t : Tables) (k : Kind)
    → OneEach t
    → any (names alias) (delete_all k (replaced_by alias who id t) (table_of k t)) ≡ false
alias_absent alias who id t k one =
    any-names-delete_all k (replaced_by alias who id t) alias (table_of k t)
      (alias_gone alias who id t k one)

-- What is deleted of the table of the session's kind covers the other aliases of the session.
others_covered :
    (alias : String) (k : Kind) (id : Text) (t : Tables) (held : Replaced) (a : String)
    → in_replaced k (others_in alias id k k (table_of k t)) a ≡ true
    → in_replaced k (held ++ others_of alias id k t) a ≡ true
others_covered alias k id t held a h =
    any-append (λ r. same_kind k r.1 && str_eq r.0 a) held (others_of alias id k t)
    ∙ later _ _ (go k h)
  where
    later : (x y : Bool) → y ≡ true → (x || y) ≡ true
    later x y e = ground arith

    sooner : (x y : Bool) → x ≡ true → (x || y) ≡ true
    sooner x y e = ground arith

    go :
        (j : Kind)
        → in_replaced j (others_in alias id j j (table_of j t)) a ≡ true
        → in_replaced j (others_of alias id j t) a ≡ true
    go claude e =
        any-append (λ r. same_kind claude r.1 && str_eq r.0 a)
          (others_in alias id claude claude t.claude_table) _
        ∙ sooner _ _ e
    go codex e =
        any-append (λ r. same_kind codex r.1 && str_eq r.0 a)
          (others_in alias id codex claude t.claude_table) _
        ∙ later _ _ e

pub session_absent :
    (alias : String) (who : Identity) (id : Text) (t : Tables)
    → OneEach t
    → any (holds id) (delete_all who.kind (replaced_by alias who id t) (table_of who.kind t))
      ≡ false
session_absent alias who id t one =
    any-holds-delete_all alias id who.kind (replaced_by alias who id t) (table_of who.kind t)
      (others_covered alias who.kind id t (held_alias alias (holder_of alias t)))
      (alias_absent alias who id t who.kind one)

-- A count after a new entry is put.
count-put :
    (p : String × Entry → Bool) (alias : String) (e : Entry) (t : Table)
    → any (names alias) t ≡ false
    → count p (put alias e t) ≡ count p t + (if p (alias, e) then 1 else 0)
unfolding put
count-put p alias e t absent = rw (absent, count-append p t ((alias, e) ∷ [])) refl

-- A new entry for an alias and a session that had none.
module _ (alias : String) (e : Entry) (id : Text) (same : e.id ≡ some id) where
  names-put :
      (t u : Table) (a : String)
      → any (names alias) t ≡ false
      → any (names alias) u ≡ false
      → count (names a) t + count (names a) u ≤ 1
      → count (names a) (put alias e t) + count (names a) u ≤ 1
  names-put t u a absent free h = elim (Bool-cases (str_eq a alias)) [
    | inr other ↦ rw (count-put (names a) alias e t absent, other) (omega (arith, h))
    | inl this ↦
        let none_in : count (names a) t ≡ 0 =
          subst (λ b. count (names b) t ≡ 0) (sym (str_eq-true a alias this))
            (count-eq-zero (names alias) t absent) in
        let none_there : count (names a) u ≡ 0 =
          subst (λ b. count (names b) u ≡ 0) (sym (str_eq-true a alias this))
            (count-eq-zero (names alias) u free) in
        rw (count-put (names a) alias e t absent, this) (omega (arith, none_in, none_there))
  ]

  holds-put :
      (t : Table) (j : Text)
      → any (names alias) t ≡ false
      → any (holds id) t ≡ false
      → count (holds j) t ≤ 1
      → count (holds j) (put alias e t) ≤ 1
  holds-put t j absent free h = elim (Bool-cases (same_uuid (some id) (some j))) [
    | inr other ↦ rw (count-put (holds j) alias e t absent, same, other) (omega (arith, h))
    | inl this ↦
        let zero_left : count (holds j) t ≡ 0 =
          subst (λ (p : String × Entry → Bool). count p t ≡ 0)
            (fun_ext (λ p. same_uuid-congr (some id) (some j) p.1.id this))
            (count-eq-zero (holds id) t free) in
        rw (count-put (holds j) alias e t absent, same, this) (omega (arith, zero_left))
  ]

  pub put-OneEach :
      (k : Kind) (t : Tables)
      → any (names alias) t.claude_table ≡ false
      → any (names alias) t.codex_table ≡ false
      → any (holds id) (table_of k t) ≡ false
      → OneEach t
      → OneEach (with_table k (put alias e (table_of k t)) t)
  unfolding OneEach
  put-OneEach claude t no_claude no_codex free (named, held) =
      (λ a. names-put t.claude_table t.codex_table a no_claude no_codex (named a), go)
    where
      go :
          (j : Kind) (x : Text)
          → count (holds x) (table_of j (with_table claude (put alias e t.claude_table) t)) ≤ 1
      go claude x = holds-put t.claude_table x no_claude free (held claude x)
      go codex x = held codex x
  put-OneEach codex t no_claude no_codex free (named, held) = (
    λ a. omega (
      arith,
      names-put t.codex_table t.claude_table a no_codex no_claude (omega (arith, named a)),
    ),
    go,
  )
    where
      go :
          (j : Kind) (x : Text)
          → count (holds x) (table_of j (with_table codex (put alias e t.codex_table) t)) ≤ 1
      go codex x = holds-put t.codex_table x no_codex free (held codex x)
      go claude x = held claude x
