-- ===== src/Limits/Canonical.antt =====
-- What a canonical identifier is, character by character (src/core/limits.mjs).
use universal_peer_mcp.Prelude.{
  ℕ, zero, suc, ◌+◌, ◌≤◌, ◌≡◌, ◌↔◌, refl, sym, subst, Bool, true, ◌&&◌, ◌||◌, some, List, [], ◌∷◌,
  Text, lower, arith, leb, ◌==◌, length, get_or, if◌then◌else◌,
}
use universal_peer_mcp.Limits.{fits, uuid_shape, is_uuid, same_uuid}
use universal_peer_mcp.Limits.Laws.{
  same_uuid_sound, same_uuid_complete, is_uuid-lower_any, is_uuid_any-lower,
}

-- The characters that a canonical uuid may have at a place: a dash at four, a version of 1 to 8 at one, a variant
-- 8, 9, a or b at one, and else a hexadecimal digit.
abbrev pub may_stand : ℕ → ℕ → Bool
may_stand i c =
    if i == 8 || (i == 13 || (i == 18 || i == 23))
    then c == 45
    else if i == 14
    then leb 49 c && leb c 56
    else if i == 19
    then (leb 56 c && leb c 57) || (leb 97 c && leb c 98)
    else (leb 48 c && leb c 57) || (leb 97 c && leb c 102)

abbrev pub IsCanonical : Text → Type 0
IsCanonical id = (length id ≡ 36) × ((i : ℕ) → i + 1 ≤ 36 → may_stand i (get_or id i 0) ≡ true)

places : ℕ → ℕ → List (ℕ → Bool)
places n zero = []
places n (suc k) = may_stand n ∷ places (n + 1) k

uuid_shape-places : uuid_shape ≡ places 0 36
unfolding places
uuid_shape-places = refl

fits-places :
    (n k : ℕ) (t : Text)
    → fits (places n k) t ≡ true
    → (length t ≡ k) × ((i : ℕ) → i + 1 ≤ k → may_stand (n + i) (get_or t i 0) ≡ true)
unfolding fits places
fits-places n zero [] h = (refl, λ i less. absurd (omega arith))
fits-places n zero (c ∷ t) h = absurd (ground arith)
fits-places n (suc k) [] h = absurd (ground arith)
fits-places n (suc k) (c ∷ t) h =
    let rest = fits-places (n + 1) k t (ground arith) in (omega (arith, rest.0), at rest.1)
  where
    n_zero : n ≡ n + 0
    n_zero = omega arith

    moved : (i : ℕ) → n + 1 + i ≡ n + suc i
    moved i = omega arith

    head : may_stand n c ≡ true
    head = ground arith

    at :
        ((i : ℕ) → i + 1 ≤ k → may_stand (n + 1 + i) (get_or t i 0) ≡ true)
        → (i : ℕ) → i + 1 ≤ suc k
        → may_stand (n + i) (get_or (c ∷ t) i 0) ≡ true
    at rest zero less = subst (λ m. may_stand m c ≡ true) n_zero head
    at rest (suc i) less =
        subst (λ m. may_stand m (get_or t i 0) ≡ true) (moved i) (rest i (omega arith))

places-fits :
    (n k : ℕ) (t : Text)
    → length t ≡ k
    → ((i : ℕ) → i + 1 ≤ k → may_stand (n + i) (get_or t i 0) ≡ true)
    → fits (places n k) t ≡ true
unfolding fits places
places-fits n zero [] e h = refl
places-fits n zero (c ∷ t) e h = absurd (omega arith)
places-fits n (suc k) [] e h = absurd (omega arith)
places-fits n (suc k) (c ∷ t) e h = rw (head, places-fits (n + 1) k t (omega arith) later) refl
  where
    n_zero : n + 0 ≡ n
    n_zero = omega arith

    moved : (i : ℕ) → n + suc i ≡ n + 1 + i
    moved i = omega arith

    head : may_stand n c ≡ true
    head = subst (λ m. may_stand m c ≡ true) n_zero (h 0 (omega arith))

    later : (i : ℕ) → i + 1 ≤ k → may_stand (n + 1 + i) (get_or t i 0) ≡ true
    later i less =
        subst (λ m. may_stand m (get_or t i 0) ≡ true) (moved i) (h (suc i) (omega arith))

is_uuid-IsCanonical : (t : Text) → (is_uuid t ≡ true) ↔ IsCanonical t
unfolding is_uuid
is_uuid-IsCanonical t = (
  λ h.
      let (len, at) = fits-places 0 36 t (subst (λ ps. fits ps t ≡ true) uuid_shape-places h) in
      (len, λ i less. subst (λ m. may_stand m (get_or t i 0) ≡ true) (from_zero i) (at i less)),
  λ (len, at).
      subst (λ ps. fits ps t ≡ true) (sym uuid_shape-places)
        (places-fits 0 36 t len (λ i less.
          subst (λ m. may_stand m (get_or t i 0) ≡ true) (sym (from_zero i)) (at i less))),
)
  where
    from_zero : (i : ℕ) → 0 + i ≡ i
    from_zero i = omega arith

-- `sameUuid` holds of two texts exactly if they are the same but for the case of letters, and what they are in lower
-- case has the 36 characters of a canonical uuid.
pub same_uuid_iff :
    (a b : Text)
    → (same_uuid (some a) (some b) ≡ true) ↔ ((lower a ≡ lower b) × IsCanonical (lower a))
same_uuid_iff a b = (
  λ h.
      let (left, right, same) = same_uuid_sound a b h in
      (same, (is_uuid-IsCanonical (lower a)).0 (is_uuid-lower_any a left)),
  λ (same, canonical).
      let left = (is_uuid-IsCanonical (lower a)).1 canonical in
      same_uuid_complete a b (is_uuid_any-lower a left)
        (is_uuid_any-lower b (subst (λ t. is_uuid t ≡ true) same left)) same,
)
