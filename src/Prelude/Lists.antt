-- ===== src/Prelude/Lists.antt =====
-- Lists searched by Boolean tests and measured by native numbers.
use Prim.Native.Nat.{ℕ, zero, suc, ◌+◌}
use mathlib.Core.Path.{◌≡◌, refl, ap}
use mathlib.Core.Bool.{Bool, true, false, ◌&&◌, ◌||◌}
use mathlib.Core.Option.{Option, none, some}
use mathlib.Core.List.{List, [], ◌∷◌, ◌++◌, Memᴰ}
use native.Mathlib.Omega.{arith}
use mathlib.Core.Logic.{inl, inr}
use universal_peer_mcp.Prelude.Tests.{if◌then◌else◌, Bool-cases}

module _ {ℓ} {A : Type ℓ} where
  abbrev pub get_or : List A → ℕ → A → A
  get_or [] i d = d
  get_or (x ∷ xs) zero d = x
  get_or (x ∷ xs) (suc i) d = get_or xs i d

  abbrev pub take : ℕ → List A → List A
  take zero xs = []
  take (suc n) [] = []
  take (suc n) (x ∷ xs) = x ∷ take n xs

  abbrev pub length : List A → ℕ
  length [] = 0
  length (x ∷ xs) = suc (length xs)

  pub length-append : (xs ys : List A) → length (xs ++ ys) ≡ length xs + length ys
  length-append [] ys = omega arith
  length-append (x ∷ xs) ys = omega (arith, length-append xs ys)

  -- `Array.prototype.some`, `every`, `find` and `filter`.
  abbrev pub any : (A → Bool) → List A → Bool
  any p [] = false
  any p (x ∷ xs) = p x || any p xs

  abbrev pub all : (A → Bool) → List A → Bool
  all p [] = true
  all p (x ∷ xs) = p x && all p xs

  abbrev pub find? : (A → Bool) → List A → Option A
  find? p [] = none
  find? p (x ∷ xs) = if p x then some x else find? p xs

  abbrev pub drop : ℕ → List A → List A
  drop ℕ.zero xs = xs
  drop (ℕ.suc n) [] = []
  drop (ℕ.suc n) (x ∷ xs) = drop n xs

  abbrev pub filter : (A → Bool) → List A → List A
  filter p [] = []
  filter p (x ∷ xs) = if p x then x ∷ filter p xs else filter p xs

  abbrev pub count : (A → Bool) → List A → ℕ
  count p [] = 0
  count p (x ∷ xs) = if p x then suc (count p xs) else count p xs

  -- Every element satisfies a predicate.
  abbrev pub All {κ} : (A → Type κ) → List A → Type κ
  All P [] = Unit
  All P (x ∷ xs) = P x × All P xs

  pub any-append : (p : A → Bool) (xs ys : List A) → any p (xs ++ ys) ≡ (any p xs || any p ys)
  any-append p [] ys = refl
  any-append p (x ∷ xs) ys = ground (arith, any-append p xs ys)

  pub count-append : (p : A → Bool) (xs ys : List A) → count p (xs ++ ys) ≡ count p xs + count p ys
  count-append p [] ys = omega arith
  count-append p (x ∷ xs) ys = ground (arith, count-append p xs ys)

  pub filter-append :
      (p : A → Bool) (xs ys : List A) → filter p (xs ++ ys) ≡ filter p xs ++ filter p ys
  filter-append p [] ys = refl
  filter-append p (x ∷ xs) ys = ground (arith, filter-append p xs ys)

  pub find?-append_some :
      (p : A → Bool) (xs ys : List A) (a : A) → find? p xs ≡ some a → find? p (xs ++ ys) ≡ some a
  find?-append_some p [] ys a h = ground arith
  find?-append_some p (x ∷ xs) ys a h = ground (arith, find?-append_some p xs ys a)

  pub find?-append_none :
      (p : A → Bool) (xs ys : List A) → find? p xs ≡ none → find? p (xs ++ ys) ≡ find? p ys
  find?-append_none p [] ys h = refl
  find?-append_none p (x ∷ xs) ys h = ground (arith, find?-append_none p xs ys)

  pub find?-sound : (p : A → Bool) (xs : List A) (a : A) → find? p xs ≡ some a → p a ≡ true
  find?-sound p [] a h = ground arith
  find?-sound p (x ∷ xs) a h = ground (arith, find?-sound p xs a)

  pub any_of_find? : (p : A → Bool) (xs : List A) (a : A) → find? p xs ≡ some a → any p xs ≡ true
  any_of_find? p [] a h = ground arith
  any_of_find? p (x ∷ xs) a h = ground (arith, any_of_find? p xs a)

  pub any-eq-false_of_find? : (p : A → Bool) (xs : List A) → find? p xs ≡ none → any p xs ≡ false
  any-eq-false_of_find? p [] h = refl
  any-eq-false_of_find? p (x ∷ xs) h = ground (arith, any-eq-false_of_find? p xs)

  pub find?_of_any :
      (p : A → Bool) (xs : List A) → any p xs ≡ true → (a : A) × (find? p xs ≡ some a)
  find?_of_any p [] h = absurd (ground arith)
  find?_of_any p (x ∷ xs) h = elim (Bool-cases (p x)) [
    | inl here ↦ (x, ground arith)
    | inr later ↦ let (a, found) = find?_of_any p xs (ground arith) in (a, rw later found)
  ]

  pub count-eq-zero : (p : A → Bool) (xs : List A) → any p xs ≡ false → count p xs ≡ 0
  count-eq-zero p [] h = refl
  count-eq-zero p (x ∷ xs) h = ground (arith, count-eq-zero p xs)

  pub count-filter : (p : A → Bool) (xs : List A) → length (filter p xs) ≡ count p xs
  count-filter p [] = refl
  count-filter p (x ∷ xs) = ground (arith, count-filter p xs)

  -- What every element of a list satisfies is satisfied after one more is added at the end.
  pub All-map {κ μ} :
      (P : A → Type κ) (Q : A → Type μ) (xs : List A) → ((x : A) → P x → Q x) → All P xs → All Q xs
  All-map P Q [] f h = tt
  All-map P Q (x ∷ xs) f (p, h) = (f x p, All-map P Q xs f h)

  pub All-filter {κ} :
      (Q : A → Type κ) (p : A → Bool) (xs : List A)
      → All Q xs
      → All (λ x. Q x × (p x ≡ true)) (filter p xs)
  All-filter Q p [] h = tt
  All-filter Q p (x ∷ xs) (q, h) = elim (Bool-cases (p x)) [
    | inl good ↦ rw good ((q, good), All-filter Q p xs h)
    | inr bad ↦ rw bad (All-filter Q p xs h)
  ]

  -- The elements of a list are in it.
  pub All-members : (xs : List A) → All (λ x. Memᴰ x xs) xs
  All-members [] = tt
  All-members (x ∷ xs) = (
    Memᴰ.head refl,
    All-map (λ y. Memᴰ y xs) (λ y. Memᴰ y (x ∷ xs)) xs (λ y m. Memᴰ.tail m) (All-members xs),
  )

  pub All-snoc {κ} : (P : A → Type κ) (xs : List A) (y : A) → All P xs → P y → All P (xs ++ y ∷ [])
  All-snoc P [] y h p = (p, tt)
  All-snoc P (x ∷ xs) y (q, h) p = (q, All-snoc P xs y h p)

  pub All-append {κ} : (P : A → Type κ) (xs ys : List A) → All P xs → All P ys → All P (xs ++ ys)
  All-append P [] ys h k = k
  All-append P (x ∷ xs) ys (p, h) k = (p, All-append P xs ys h k)

  pub filter-eq-nil : (p : A → Bool) (xs : List A) → any p xs ≡ false → filter p xs ≡ []
  filter-eq-nil p [] h = refl
  filter-eq-nil p (x ∷ xs) h = ground (arith, filter-eq-nil p xs)

  pub any_of_filter : (p : A → Bool) (xs : List A) → filter p xs ≡ [] → any p xs ≡ false
  any_of_filter p [] h = refl
  any_of_filter p (x ∷ xs) h = ground (arith, any_of_filter p xs)

  pub filter-and :
      (p q : A → Bool) (xs : List A) → filter (λ x. p x && q x) xs ≡ filter q (filter p xs)
  filter-and p q [] = refl
  filter-and p q (x ∷ xs) = ground (arith, filter-and p q xs)

  pub find?-eq-none : (p : A → Bool) (xs : List A) → any p xs ≡ false → find? p xs ≡ none
  find?-eq-none p [] h = refl
  find?-eq-none p (x ∷ xs) h = ground (arith, find?-eq-none p xs)

  pub filter-true : (xs : List A) → filter (λ x. true) xs ≡ xs
  filter-true [] = refl
  filter-true (x ∷ xs) = ap (λ rest. x ∷ rest) (filter-true xs)
