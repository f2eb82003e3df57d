-- ===== src/Directory/Assign.antt =====
-- The directory that `registerPeer` of src/core/peer-directory.mjs leaves.
use universal_peer_mcp.Prelude.{
  ◌≡◌, ◌∙◌, ◌⊎◌, refl, ap, ap₂, subst, Bool, true, false, ◌&&◌, ◌||◌, Option, none, some, String,
  Text, arith, str_eq, str_eq-true, str_eq_refl, if◌then◌else◌, any, any-append, find?-eq-none,
  Bool-cases, inl, inr,
}
use universal_peer_mcp.Limits.{is_alias}
use universal_peer_mcp.Directory.{
  Kind, claude, codex, same_kind, Entry, Tables, table_of, with_table, Identity, names, holds,
  entry_of, put, Replaced, delete_all, holder_of, held_alias, others_of, others_in, without,
  next_tables, resolve_peer, as_peer, or_peer,
}
use universal_peer_mcp.Directory.Deletes.{in_replaced, delete_all-filter}
use universal_peer_mcp.Directory.Unique.{OneEach, replaced_by, alias_absent}
use universal_peer_mcp.Directory.View.{
  view, assign, is_session, held_by, left, entry_of-filter, in_others_kind, in_others-entry,
  held_other, names_le, one_entry, entry_of-put, entry_of-put_same,
}

module _ (alias : String) (who : Identity) (id : Text) (t : Tables) (one : OneEach t) where
  rs : Replaced
  rs = replaced_by alias who id t

  in_replaced-entry :
      (k : Kind) (a : String)
      → str_eq alias a ≡ false
      → in_replaced k (replaced_by alias who id t) a
        ≡ held_by id who.kind k (entry_of a (table_of k t))
  in_replaced-entry k a other =
      any-append (λ r. same_kind k r.1 && str_eq r.0 a) (held_alias alias (holder_of alias t))
        (others_of alias id who.kind t)
      ∙ ap (λ b. b || in_replaced k (others_of alias id who.kind t) a)
          (held_other alias k (holder_of alias t) a other)
      ∙ any-append (λ r. same_kind k r.1 && str_eq r.0 a)
          (others_in alias id who.kind claude t.claude_table)
          (others_in alias id who.kind codex t.codex_table)
      ∙ go k
    where
      or_false : (b : Bool) → (b || false) ≡ b
      or_false b = ground arith

      go :
          (j : Kind)
          → (in_replaced j (others_in alias id who.kind claude t.claude_table) a
              || in_replaced j (others_in alias id who.kind codex t.codex_table) a)
            ≡ held_by id who.kind j (entry_of a (table_of j t))
      go claude = rw (in_others_kind alias id who.kind codex a t.codex_table) (
          or_false _
          ∙ in_others-entry alias id who.kind claude a t.claude_table other
              (names_le t claude a one))
      go codex =
          rw (in_others_kind alias id who.kind claude a t.claude_table)
            (in_others-entry alias id who.kind codex a t.codex_table other (names_le t codex a one))

  kept_entry :
      (k : Kind) (a : String)
      → str_eq alias a ≡ false
      → entry_of a (table_of k (without (replaced_by alias who id t) t))
        ≡ left (held_by id who.kind k (entry_of a (table_of k t))) (entry_of a (table_of k t))
  unfolding without
  kept_entry k a other =
      go k
      ∙ ap (entry_of a) (delete_all-filter k (replaced_by alias who id t) (table_of k t))
      ∙ entry_of-filter (in_replaced k (replaced_by alias who id t)) a (table_of k t)
      ∙ ap (λ b. left b (entry_of a (table_of k t))) (in_replaced-entry k a other)
    where
      go :
          (j : Kind)
          → entry_of a (table_of j (without (replaced_by alias who id t) t))
            ≡ entry_of a (delete_all j (replaced_by alias who id t) (table_of j t))
      go claude = refl
      go codex = refl

  put_absent :
      (k : Kind) → any (names alias) (table_of k (without (replaced_by alias who id t) t)) ≡ false
  unfolding without
  put_absent claude = alias_absent alias who id t claude one
  put_absent codex = alias_absent alias who id t codex one

  next_entry :
      (k : Kind) (a : String)
      → str_eq alias a ≡ false
      → entry_of a (table_of k (next_tables alias who id (replaced_by alias who id t) t))
        ≡ left (held_by id who.kind k (entry_of a (table_of k t))) (entry_of a (table_of k t))
  unfolding next_tables
  next_entry k a other = go who.kind k ∙ kept_entry k a other
    where
      kept : Tables
      kept = without (replaced_by alias who id t) t

      e : Entry
      e = record { id = some id; rest = who.rest }

      go :
          (j k : Kind)
          → entry_of a (table_of k (with_table j (put alias e (table_of j kept)) kept))
            ≡ entry_of a (table_of k kept)
      go claude claude = entry_of-put alias e kept.claude_table a (put_absent claude) other
      go claude codex = refl
      go codex claude = refl
      go codex codex = entry_of-put alias e kept.codex_table a (put_absent codex) other

  -- What the tables show after the entry is put, for another alias.
  shown_other :
      (c d : Option (String × Entry))
      → (c ≡ none) ⊎ (d ≡ none)
      → or_peer
          (as_peer claude (left (held_by id who.kind claude c) c))
          (as_peer codex (left (held_by id who.kind codex d) d))
        ≡ (if is_session who.kind id (or_peer (as_peer claude c) (as_peer codex d))
            then none
            else or_peer (as_peer claude c) (as_peer codex d))
  shown_other none none h = refl
  shown_other (some p) none h = go (same_kind claude who.kind && holds id p)
    where
      go :
          (b : Bool)
          → or_peer (as_peer claude (left b (some p))) (as_peer codex none)
            ≡ (if b then none else as_peer claude (some p))
      go true = refl
      go false = refl
  shown_other none (some p) h = go (same_kind codex who.kind && holds id p)
    where
      go :
          (b : Bool)
          → as_peer codex (left b (some p)) ≡ (if b then none else as_peer codex (some p))
      go true = refl
      go false = refl
  shown_other (some p) (some q) (inl e) = absurd (ground arith)
  shown_other (some p) (some q) (inr e) = absurd (ground arith)

  shown_alias :
      or_peer
        (as_peer claude
          (entry_of alias (next_tables alias who id (replaced_by alias who id t) t).claude_table))
        (as_peer codex
          (entry_of alias (next_tables alias who id (replaced_by alias who id t) t).codex_table))
      ≡ some (who.kind, some id)
  unfolding next_tables
  shown_alias = go who.kind
    where
      kept : Tables
      kept = without (replaced_by alias who id t) t

      e : Entry
      e = record { id = some id; rest = who.rest }

      go :
          (j : Kind)
          → or_peer
              (as_peer claude
                (entry_of alias (with_table j (put alias e (table_of j kept)) kept).claude_table))
              (as_peer codex
                (entry_of alias (with_table j (put alias e (table_of j kept)) kept).codex_table))
            ≡ some (j, some id)
      go claude = rw (entry_of-put_same alias e kept.claude_table (put_absent claude)) refl
      go codex =
          rw
            (
              find?-eq-none (names alias) kept.claude_table (put_absent claude),
              entry_of-put_same alias e kept.codex_table (put_absent codex),
            )
            refl

  -- The next tables show the directory in which the alias is given to the session.
  pub next_tables-view :
      is_alias alias ≡ true
      → (a : String)
      → view (next_tables alias who id (replaced_by alias who id t) t) a
        ≡ assign alias who.kind id (view t) a
  unfolding resolve_peer
  next_tables-view valid a = elim (Bool-cases (str_eq alias a)) [
    | inl same ↦
        subst
          (λ b.
            view (next_tables alias who id (replaced_by alias who id t) t) b
            ≡ assign alias who.kind id (view t) b)
          (str_eq-true alias a same) (rw (valid, str_eq_refl alias) shown_alias)
    | inr other ↦ elim (Bool-cases (is_alias a)) [
      | inr invalid ↦ rw (invalid, other) refl
      | inl named ↦
          rw (named, other)
            (ap₂ (λ c d. or_peer (as_peer claude c) (as_peer codex d)) (next_entry claude a other)
                (next_entry codex a other)
              ∙ shown_other (entry_of a t.claude_table) (entry_of a t.codex_table)
                  (one_entry t a one))
    ]
  ]
