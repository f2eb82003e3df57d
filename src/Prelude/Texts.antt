-- ===== src/Prelude/Texts.antt =====
-- Texts that the program takes apart, as lists of UTF-16 code units: identifiers and their case.
use Prim.Native.Char.{code}
use Prim.Native.Nat.{ℕ, ◌+◌}
use Prim.Native.String.{String}
use mathlib.Core.Path.{◌≡◌, refl, ap₂}
use mathlib.Core.Bool.{Bool, true, false, ◌&&◌}
use mathlib.Core.List.{List, [], ◌∷◌, map}
use native.Mathlib.Omega.{arith}
use universal_peer_mcp.Prelude.Tests.{leb, ◌==◌, if◌then◌else◌}

abbrev pub Text : Type 0
Text = List ℕ

-- The code units of a literal in ASCII.
abbrev pub codes : String → Text
codes String.[] = []
codes (String.◌∷◌ c s) = code c ∷ codes s

-- `left === right` on two strings.
abbrev pub same_text : Text → Text → Bool
same_text [] [] = true
same_text [] (y ∷ ys) = false
same_text (x ∷ xs) [] = false
same_text (x ∷ xs) (y ∷ ys) = x == y && same_text xs ys

pub same_text_sound : (s t : Text) → same_text s t ≡ true → s ≡ t
same_text_sound [] [] h = refl
same_text_sound [] (y ∷ ys) h = ground arith
same_text_sound (x ∷ xs) [] h = ground arith
same_text_sound (x ∷ xs) (y ∷ ys) h = ground (arith, same_text_sound xs ys)

pub same_text_refl : (s : Text) → same_text s s ≡ true
same_text_refl [] = refl
same_text_refl (x ∷ xs) = ground (arith, same_text_refl xs)

-- `String.prototype.toLowerCase` on one code unit. Only ASCII letters are changed: every text that
-- the program lowers and then compares is matched against an ASCII pattern.
unfoldable pub to_lower : ℕ → ℕ
to_lower c = if leb b'A' c && leb c b'Z' then c + 32 else c

unfoldable pub lower : Text → Text
unfolding to_lower
lower = map to_lower

pub lower_idem : (s : Text) → lower (lower s) ≡ lower s
unfolding lower
lower_idem [] = refl
lower_idem (c ∷ s) = ap₂ ◌∷◌ (to_lower_idem c) (lower_idem s)
  where
    to_lower_idem : (c : ℕ) → to_lower (to_lower c) ≡ to_lower c
    to_lower_idem c = ground arith
