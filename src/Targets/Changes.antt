-- ===== src/Targets/Changes.antt =====
-- `countChangedAliases` of src/core/target-table.mjs counts what routes somewhere else.
use universal_peer_mcp.Prelude.{
  ◌≡◌, ◌↔◌, ◌∙◌, refl, sym, ap, subst, Bool, true, false, not, ◌||◌, Option, none, some, List, [],
  ◌∷◌, String, arith, str_eq, str_eq-true, eq_iff, any, count, and-eq-true, inl, inr, Bool-cases,
}
use universal_peer_mcp.Targets.{
  Target, Table, row_of, same_option, same_row, add_name, names_of, count_changed_aliases,
}

same_option-eq : (a b : Option String) → same_option a b ≡ true → a ≡ b
same_option-eq none none h = refl
same_option-eq none (some b) h = absurd (ground arith)
same_option-eq (some a) none h = absurd (ground arith)
same_option-eq (some a) (some b) h = ap some (str_eq-true a b h)

same_option_refl : (a : Option String) → same_option a a ≡ true
same_option_refl none = refl
same_option_refl (some a) = (eq_iff a a).1 refl

same_row-eq : (a b : Option Target) → same_row a b ≡ true → a ≡ b
unfolding same_row
same_row-eq none none h = refl
same_row-eq none (some b) h = absurd (ground arith)
same_row-eq (some a) none h = absurd (ground arith)
same_row-eq (some a) (some b) h =
    let (session, rest) = and-eq-true (str_eq a.target_session b.target_session) _ h in
    let (cwd, rest) = and-eq-true (str_eq a.cwd b.cwd) _ rest in
    let (name, mode) =
      and-eq-true (same_option a.expected_display_name b.expected_display_name) _ rest in
    ground (
      arith,
      str_eq-true a.target_session b.target_session session,
      str_eq-true a.cwd b.cwd cwd,
      same_option-eq a.expected_display_name b.expected_display_name name,
      str_eq-true a.permission_mode b.permission_mode mode,
    )

same_row_refl : (a : Option Target) → same_row a a ≡ true
unfolding same_row
same_row_refl none = refl
same_row_refl (some a) = rw (
  (eq_iff a.target_session a.target_session).1 refl,
  (eq_iff a.cwd a.cwd).1 refl,
  same_option_refl a.expected_display_name,
  (eq_iff a.permission_mode a.permission_mode).1 refl,
)

-- A name with a row is among the names, and the names that were there stay.
any-add_name :
    (name alias : String) (names : List String)
    → any (str_eq name) (add_name alias names) ≡ (str_eq name alias || any (str_eq name) names)
any-add_name name alias names = elim (Bool-cases (any (str_eq alias) names)) [
  | inr new ↦ rw new refl
  | inl old ↦ rw old (elim (Bool-cases (str_eq name alias)) [
    | inr other ↦ rw other refl
    | inl same ↦
        rw same (subst (λ n. any (str_eq n) names ≡ true) (sym (str_eq-true name alias same)) old)
  ])
]

row_of-names :
    (table : Table) (names : List String) (name : String)
    → any (str_eq name) (names_of table names) ≡ false
    → (row_of table name ≡ none) × (any (str_eq name) names ≡ false)
unfolding names_of
row_of-names [] names name h = (refl, h)
row_of-names ((alias, row) ∷ rest) names name h =
    let missing : (str_eq name alias || any (str_eq name) (names_of rest names)) ≡ false =
      sym (any-add_name name alias (names_of rest names)) ∙ h in
    ground (arith, row_of-names rest names name)

count-absent :
    (p : String → Bool) (names : List String) (name : String)
    → count p names ≡ 0
    → any (str_eq name) names ≡ true
    → p name ≡ false
count-absent p [] name zero_ found = absurd (ground arith)
count-absent p (n ∷ ns) name zero_ found = elim (Bool-cases (str_eq name n)) [
  | inl here ↦ subst (λ m. p m ≡ false) (sym (str_eq-true name n here)) (ground arith)
  | inr later ↦ ground (arith, count-absent p ns name)
]

count-none :
    (p : String → Bool) (names : List String) → ((n : String) → p n ≡ false) → count p names ≡ 0
count-none p [] h = refl
count-none p (n ∷ ns) h = ground (arith, h n, count-none p ns h)

-- No alias is counted as changed exactly if every name has the same row in both tables, or none in both.
pub count_changed_aliases_iff :
    (before after : Table)
    → (count_changed_aliases before after ≡ 0)
      ↔ ((name : String) → row_of before name ≡ row_of after name)
unfolding count_changed_aliases
count_changed_aliases_iff before after = (same, λ h. count-none changed names (λ n. agrees n (h n)))
  where
    names : List String
    names = names_of before (names_of after [])

    changed : String → Bool
    changed name = not (same_row (row_of before name) (row_of after name))

    agrees : (n : String) → row_of before n ≡ row_of after n → changed n ≡ false
    agrees n e = rw (e, same_row_refl (row_of after n)) refl

    same : count changed names ≡ 0 → (name : String) → row_of before name ≡ row_of after name
    same h name = elim (Bool-cases (any (str_eq name) names)) [
      | inl known ↦
          same_row-eq (row_of before name) (row_of after name)
            (ground (arith, count-absent changed names name h known))
      | inr unknown ↦
          let (no_before, rest) = row_of-names before (names_of after []) name unknown in
          let (no_after, _) = row_of-names after [] name rest in no_before ∙ sym no_after
    ]
