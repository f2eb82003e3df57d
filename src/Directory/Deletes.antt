-- ===== src/Directory/Deletes.antt =====
-- What deleting and putting does to a table of src/core/peer-directory.mjs.
use universal_peer_mcp.Prelude.{
  ◌≤◌, ◌≡◌, ◌∙◌, ◌⊎◌, refl, sym, ap, subst, fun_ext, Bool, true, false, not, ◌&&◌, ◌||◌, List, [],
  ◌∷◌, map, String, Text, arith, str_eq, str_eq-true, if◌then◌else◌, any, filter, count, All,
  filter-true, filter-and, Bool-cases, inl, inr, str_eq_refl,
}
use universal_peer_mcp.Directory.{
  Kind, claude, codex, same_kind, Entry, Table, names, holds, delete, Replaced, delete_all,
  is_other, others_in,
}

module _ {ℓ} {A : Type ℓ} where
  filter-congr :
      (p q : A → Bool) → ((x : A) → p x ≡ q x) → (xs : List A) → filter p xs ≡ filter q xs
  filter-congr p q e xs = ap (λ r. filter r xs) (fun_ext e)

  count-filter_le : (p q : A → Bool) (xs : List A) → count p (filter q xs) ≤ count p xs
  count-filter_le p q [] = omega arith
  count-filter_le p q (x ∷ xs) = ground (arith, count-filter_le p q xs)

  pub any_of_count : (p : A → Bool) (xs : List A) → count p xs ≤ 0 → any p xs ≡ false
  any_of_count p [] h = refl
  any_of_count p (x ∷ xs) h = ground (arith, any_of_count p xs)

  pub count_of_any : (p : A → Bool) (xs : List A) → any p xs ≡ true → 1 ≤ count p xs
  count_of_any p [] h = absurd (ground arith)
  count_of_any p (x ∷ xs) h = ground (arith, count_of_any p xs)

  All-weaken {κ μ} :
      (P : A → Type κ) (Q : A → Type μ) (xs : List A) → ((x : A) → P x → Q x) → All P xs → All Q xs
  All-weaken P Q [] f h = tt
  All-weaken P Q (x ∷ xs) f (p, h) = (f x p, All-weaken P Q xs f h)

  -- What is left after a filter has no element of a sort, when each of that sort was filtered out or has a
  -- mark that nothing left has.
  none_left :
      (p q r : A → Bool) (xs : List A)
      → All (λ x. p x ≡ true → q x ≡ false → r x ≡ true) xs
      → any q (filter (λ x. not (r x)) xs) ≡ false
      → any p (filter (λ x. not (r x)) xs) ≡ false
  none_left p q r [] h k = refl
  none_left p q r (x ∷ xs) (here, h) k = elim (Bool-cases (r x)) [
    | inl gone ↦ ground (arith, none_left p q r xs h)
    | inr kept ↦ elim (Bool-cases (p x)) [
      | inl sort ↦ absurd (ground (arith, here))
      | inr other ↦ ground (arith, none_left p q r xs h)
    ]
  ]

-- The alias is one of those to delete from a table.
abbrev pub in_replaced : Kind → Replaced → String → Bool
in_replaced k rs alias = any (λ r. same_kind k r.1 && str_eq r.0 alias) rs

pub delete_all-filter :
    (k : Kind) (rs : Replaced) (t : Table)
    → delete_all k rs t ≡ filter (λ p. not (in_replaced k rs p.0)) t
unfolding delete_all delete
delete_all-filter k [] t = sym (filter-true t)
delete_all-filter k (r ∷ rs) t = elim (Bool-cases (same_kind k r.1)) [
  | inl own ↦ rw own (
      delete_all-filter k rs (filter (λ p. not (names r.0 p)) t)
      ∙ sym (filter-and (λ p. not (names r.0 p)) (λ p. not (in_replaced k rs p.0)) t)
      ∙ filter-congr _ _ (λ p. de_morgan (names r.0 p) (in_replaced k rs p.0)) t)
  | inr other ↦ rw other (delete_all-filter k rs t)
]
  where
    de_morgan : (a b : Bool) → (not a && not b) ≡ not (a || b)
    de_morgan true b = refl
    de_morgan false b = refl

pub count-delete_all :
    (p : String × Entry → Bool) (k : Kind) (rs : Replaced) (t : Table)
    → count p (delete_all k rs t) ≤ count p t
count-delete_all p k rs t = rw (delete_all-filter k rs t) (count-filter_le p _ t)

pub count-delete :
    (alias : String) (p : String × Entry → Bool) (t : Table) → count p (delete alias t) ≤ count p t
unfolding delete
count-delete alias p t = count-filter_le p _ t

any-filter_le :
    (p q : String × Entry → Bool) (xs : Table) → any p xs ≡ false → any p (filter q xs) ≡ false
any-filter_le p q [] h = refl
any-filter_le p q (x ∷ xs) h = ground (arith, any-filter_le p q xs)

-- After the deletions no entry has an alias that was to delete, or that was not there.
pub any-names-delete_all :
    (k : Kind) (rs : Replaced) (alias : String) (t : Table)
    → (in_replaced k rs alias ≡ true) ⊎ (any (names alias) t ≡ false)
    → any (names alias) (delete_all k rs t) ≡ false
any-names-delete_all k rs alias t (inr absent) =
    rw (delete_all-filter k rs t) (any-filter_le (names alias) _ t absent)
any-names-delete_all k rs alias t (inl listed) = rw (delete_all-filter k rs t) (go t)
  where
    go : (xs : Table) → any (names alias) (filter (λ p. not (in_replaced k rs p.0)) xs) ≡ false
    go [] = refl
    go (x ∷ xs) = elim (Bool-cases (str_eq alias x.0)) [
      | inr other ↦ ground (arith, go xs)
      | inl same ↦
          let hit : in_replaced k rs x.0 ≡ true =
            subst (λ a. in_replaced k rs a ≡ true) (str_eq-true alias x.0 same) listed in
          rw hit (go xs)
    ]

same_kind_refl : (k : Kind) → same_kind k k ≡ true
same_kind_refl claude = refl
same_kind_refl codex = refl

pub in_others :
    (alias : String) (id : Text) (kind k : Kind) (x : String × Entry) (xs : Table) (a : String)
    → in_replaced k (others_in alias id kind k (x ∷ xs)) a ≡ (
        (is_other alias id kind k x && str_eq x.0 a)
        || in_replaced k (others_in alias id kind k xs) a)
in_others alias id kind k x xs a = go (is_other alias id kind k x)
  where
    go :
        (t : Bool)
        → in_replaced k
            (map
              (λ (p : String × Entry). (p.0, k))
              (if t
                then x ∷ filter (is_other alias id kind k) xs
                else filter (is_other alias id kind k) xs))
            a
          ≡ ((t && str_eq x.0 a) || in_replaced k (others_in alias id kind k xs) a)
    go true = rw (same_kind_refl k) refl
    go false = refl

-- Each entry of the session under another name is among those to delete.
others_listed :
    (alias : String) (id : Text) (k : Kind) (xs : Table)
    → All
        (λ x.
          holds id x ≡ true
          → names alias x ≡ false
          → in_replaced k (others_in alias id k k xs) x.0 ≡ true)
        xs
others_listed alias id k [] = tt
others_listed alias id k (x ∷ xs) = (
  λ held unnamed.
      let own : (is_other alias id k k x && str_eq x.0 x.0) ≡ true =
        rw (held, unnamed, same_kind_refl k, str_eq_refl x.0) refl in
      in_others alias id k k x xs x.0
      ∙ ap (λ t. t || in_replaced k (others_in alias id k k xs) x.0) own,
  All-weaken _ _ xs
      (λ y h held unnamed.
        in_others alias id k k x xs y.0
        ∙ ap (λ t. (is_other alias id k k x && str_eq x.0 y.0) || t) (h held unnamed)
        ∙ or_true (is_other alias id k k x && str_eq x.0 y.0))
      (others_listed alias id k xs),
)
  where
    or_true : (t : Bool) → (t || true) ≡ true
    or_true true = refl
    or_true false = refl

-- The session or thread has no entry left.
pub any-holds-delete_all :
    (alias : String) (id : Text) (k : Kind) (rs : Replaced) (t : Table)
    → ((a : String) → in_replaced k (others_in alias id k k t) a ≡ true → in_replaced k rs a ≡ true)
    → any (names alias) (delete_all k rs t) ≡ false
    → any (holds id) (delete_all k rs t) ≡ false
any-holds-delete_all alias id k rs t listed absent = rw (delete_all-filter k rs t) (
    none_left (holds id) (names alias) (λ p. in_replaced k rs p.0) t
      (All-weaken _ _ t (λ x h held unnamed. listed x.0 (h held unnamed))
        (others_listed alias id k t))
      (subst (λ u. any (names alias) u ≡ false) (delete_all-filter k rs t) absent))
