-- ===== src/Limits/Laws.antt =====
-- The comparison of identifiers is an equality of canonical spellings (src/core/limits.mjs).
use universal_peer_mcp.Prelude.{
  ℕ, ◌≡◌, refl, sym, ap₂, Bool, true, false, Option, none, some, List, [], ◌∷◌, map, Text, to_lower,
  lower, same_text_sound, same_text_refl, All, All-append, arith, zero, suc, ◌∙◌, Bool-ext,
  Bool-cases, inl, inr,
}
use universal_peer_mcp.Limits.{
  fits, any_case, is_upper_letter, uuid_shape, is_uuid, is_uuid_any, same_uuid, is_hex, is_dash,
  runs, uuid_end, uuid_variant, uuid_version, uuid_middle,
}

-- Two identifiers that the comparison accepts are uuids with one canonical spelling.
pub same_uuid_sound :
    (a b : Text)
    → same_uuid (some a) (some b) ≡ true
    → (is_uuid_any a ≡ true) × (is_uuid_any b ≡ true) × (lower a ≡ lower b)
unfolding same_uuid
same_uuid_sound a b h =
    (ground arith, ground arith, same_text_sound (lower a) (lower b) (ground arith))

pub same_uuid_complete :
    (a b : Text)
    → is_uuid_any a ≡ true
    → is_uuid_any b ≡ true
    → lower a ≡ lower b
    → same_uuid (some a) (some b) ≡ true
unfolding same_uuid
same_uuid_complete a b p q e = rw (p, q, e) (same_text_refl (lower b))

pub same_uuid_symm : (a b : Option Text) → same_uuid a b ≡ true → same_uuid b a ≡ true
unfolding same_uuid
same_uuid_symm none b h = absurd (ground arith)
same_uuid_symm (some a) none h = absurd (ground arith)
same_uuid_symm (some a) (some b) h =
    let (p, q, e) = same_uuid_sound a b h in same_uuid_complete b a q p (sym e)

pub same_uuid_trans :
    (a b c : Option Text) → same_uuid a b ≡ true → same_uuid b c ≡ true → same_uuid a c ≡ true
unfolding same_uuid
same_uuid_trans none b c h k = absurd (ground arith)
same_uuid_trans (some a) none c h k = absurd (ground arith)
same_uuid_trans (some a) (some b) none h k = absurd (ground arith)
same_uuid_trans (some a) (some b) (some c) h k =
    let (p, q, e) = same_uuid_sound a b h in
    let (q', r, f) = same_uuid_sound b c k in same_uuid_complete a c p r (e ∙ f)

-- Against two spellings of one identifier, every comparison gives one answer.
pub same_uuid-congr : (a b c : Option Text) → same_uuid a b ≡ true → same_uuid c a ≡ same_uuid c b
same_uuid-congr a b c h =
    Bool-ext _ _ (λ k. same_uuid_trans c a b k h)
      (λ k. same_uuid_trans c b a k (same_uuid_symm a b h))

-- A class that takes no capital letter.
abbrev NoCapital : (ℕ → Bool) → Type 0
NoCapital p = (c : ℕ) → p c ≡ true → is_upper_letter c ≡ false

runs-NoCapital : (n : ℕ) (p : ℕ → Bool) → NoCapital p → All NoCapital (runs n p)
runs-NoCapital zero p h = tt
runs-NoCapital (suc n) p h = (h, runs-NoCapital n p h)

hex_run : (n : ℕ) → All NoCapital (runs n is_hex)
hex_run n = runs-NoCapital n is_hex (λ c h. ground arith)

is_dash-NoCapital : NoCapital is_dash
is_dash-NoCapital c h = ground arith

uuid_variant-NoCapital : All NoCapital uuid_variant
uuid_variant-NoCapital = (
  is_dash-NoCapital,
  (
    (λ c h. ground arith),
    All-append NoCapital (runs 3 is_hex) uuid_end (hex_run 3) (is_dash-NoCapital, hex_run 12),
  ),
)

uuid_version-NoCapital : All NoCapital uuid_version
uuid_version-NoCapital = (
  is_dash-NoCapital,
  (
    (λ c h. ground arith),
    All-append NoCapital (runs 3 is_hex) uuid_variant (hex_run 3) uuid_variant-NoCapital,
  ),
)

uuid_shape-NoCapital : All NoCapital uuid_shape
uuid_shape-NoCapital = All-append NoCapital (runs 8 is_hex) uuid_middle (hex_run 8) (
  is_dash-NoCapital,
  All-append NoCapital (runs 4 is_hex) uuid_version (hex_run 4) uuid_version-NoCapital,
)

fits-lower : (ps : List (ℕ → Bool)) (t : Text) → All NoCapital ps → fits ps t ≡ true → lower t ≡ t
unfolding fits lower to_lower
fits-lower [] [] n h = refl
fits-lower [] (c ∷ t) n h = ground arith
fits-lower (p ∷ ps) [] n h = ground arith
fits-lower (p ∷ ps) (c ∷ t) n h =
    ap₂ ◌∷◌ (ground (arith, n.0 c)) (fits-lower ps t n.1 (ground arith))

fits-any_case :
    (ps : List (ℕ → Bool)) (t : Text) → fits ps t ≡ true → fits (map any_case ps) t ≡ true
unfolding fits
fits-any_case [] [] h = refl
fits-any_case [] (c ∷ t) h = h
fits-any_case (p ∷ ps) [] h = h
fits-any_case (p ∷ ps) (c ∷ t) h = ground (arith, fits-any_case ps t)

any_case-lower :
    (p : ℕ → Bool) → NoCapital p → (c : ℕ) → any_case p c ≡ true → p (to_lower c) ≡ true
unfolding to_lower
any_case-lower p n c h = elim (Bool-cases (is_upper_letter c)) [
  | inl up ↦ rw up (ground (arith, n c))
  | inr low ↦ rw low (ground arith)
]

fits-lower_any :
    (ps : List (ℕ → Bool)) (t : Text)
    → All NoCapital ps
    → fits (map any_case ps) t ≡ true
    → fits ps (lower t) ≡ true
unfolding fits lower
fits-lower_any [] [] n h = refl
fits-lower_any [] (c ∷ t) n h = h
fits-lower_any (p ∷ ps) [] n h = h
fits-lower_any (p ∷ ps) (c ∷ t) n h =
    rw (any_case-lower p n.0 c (ground arith)) (fits-lower_any ps t n.1 (ground arith))

-- The canonical spelling of a uuid is a lower case one.
pub is_uuid-lower_any : (t : Text) → is_uuid_any t ≡ true → is_uuid (lower t) ≡ true
unfolding is_uuid is_uuid_any
is_uuid-lower_any t h = fits-lower_any uuid_shape t uuid_shape-NoCapital h

lower-any_case : (p : ℕ → Bool) (c : ℕ) → p (to_lower c) ≡ true → any_case p c ≡ true
unfolding to_lower
lower-any_case p c h = elim (Bool-cases (is_upper_letter c)) [
  | inl up ↦ rw up (ground (arith, rw up at h))
  | inr low ↦ rw low (ground (arith, rw low at h))
]

fits_any-lower :
    (ps : List (ℕ → Bool)) (t : Text) → fits ps (lower t) ≡ true → fits (map any_case ps) t ≡ true
unfolding fits lower
fits_any-lower [] [] h = refl
fits_any-lower [] (c ∷ t) h = h
fits_any-lower (p ∷ ps) [] h = h
fits_any-lower (p ∷ ps) (c ∷ t) h =
    rw (lower-any_case p c (ground arith)) (fits_any-lower ps t (ground arith))

-- A text whose canonical spelling passes the lower case pattern passes the other.
pub is_uuid_any-lower : (t : Text) → is_uuid (lower t) ≡ true → is_uuid_any t ≡ true
unfolding is_uuid is_uuid_any
is_uuid_any-lower t h = fits_any-lower uuid_shape t h

-- A lower case uuid is its own canonical spelling, and passes the pattern that takes either case.
pub is_uuid-lower : (t : Text) → is_uuid t ≡ true → lower t ≡ t
unfolding is_uuid
is_uuid-lower t h = fits-lower uuid_shape t uuid_shape-NoCapital h

pub is_uuid-is_uuid_any : (t : Text) → is_uuid t ≡ true → is_uuid_any t ≡ true
unfolding is_uuid is_uuid_any
is_uuid-is_uuid_any t h = fits-any_case uuid_shape t h

pub same_uuid_refl : (t : Text) → is_uuid t ≡ true → same_uuid (some t) (some t) ≡ true
same_uuid_refl t h = same_uuid_complete t t (is_uuid-is_uuid_any t h) (is_uuid-is_uuid_any t h) refl

-- Between lower case uuids the comparison is equality.
pub same_uuid-eq_of_is_uuid :
    (a b : Text) → is_uuid a ≡ true → is_uuid b ≡ true → same_uuid (some a) (some b) ≡ true → a ≡ b
same_uuid-eq_of_is_uuid a b p q h =
    let (_, _, e) = same_uuid_sound a b h in sym (is_uuid-lower a p) ∙ e ∙ is_uuid-lower b q
