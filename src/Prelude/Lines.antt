-- ===== src/Prelude/Lines.antt =====
-- Texts taken apart as the program does: the first line, white space at the ends, words, prefixes.
use Prim.Native.Nat.{ℕ}
use mathlib.Core.Bool.{Bool, true, false, ◌&&◌, ◌||◌}
use mathlib.Core.Option.{Option, none, some}
use mathlib.Core.List.{List, [], ◌∷◌}
use universal_peer_mcp.Prelude.Lists.{any}
use universal_peer_mcp.Prelude.Tests.{leb, ◌==◌, if◌then◌else◌}
use universal_peer_mcp.Prelude.Texts.{Text}

-- A step that may give nothing, and what follows it.
infixl 5 ◌>->◌
abbrev pub ◌>->◌ {ℓ κ} : {A : Type ℓ} {B : Type κ} → Option A → (A → Option B) → Option B
none >-> f = none
some a >-> f = f a

abbrev pub starts_lf : Text → Bool
starts_lf [] = false
starts_lf (c ∷ t) = c == b'\n'

-- `content.split(/\r?\n/, 1)[0]`
unfoldable pub first_line : Text → Text
first_line [] = []
first_line (c ∷ t) =
    let rest = first_line t in if c == b'\n' || (c == b'\r' && starts_lf t) then [] else c ∷ rest

-- The white space of `trim` and of `\s`.
unfoldable pub is_space : ℕ → Bool
is_space c =
    (leb 9 c && leb c 13)
    || any (λ s. c == s) (32 ∷ 160 ∷ 5760 ∷ 8232 ∷ 8233 ∷ 8239 ∷ 8287 ∷ 12288 ∷ 65279 ∷ [])
    || (leb 8192 c && leb c 8202)

unfoldable pub trim_start : Text → Text
unfolding is_space
trim_start [] = []
trim_start (c ∷ t) = let rest = trim_start t in if is_space c then rest else c ∷ t

abbrev add_unless_space : ℕ → Text → Text
add_unless_space c [] = if is_space c then [] else c ∷ []
add_unless_space c (d ∷ t) = c ∷ d ∷ t

unfoldable pub trim_end : Text → Text
unfolding is_space
trim_end [] = []
trim_end (c ∷ t) = add_unless_space c (trim_end t)

unfoldable pub trim : Text → Text
unfolding trim_start trim_end
trim t = trim_start (trim_end t)

-- Space and tab.
abbrev pub is_blank : ℕ → Bool
is_blank c = c == b' ' || c == b'\t'

abbrev pub is_blank_or_pipe : ℕ → Bool
is_blank_or_pipe c = is_blank c || c == b'|'

-- The words between separators, none of them empty.
abbrev pub end_word : Text → List Text → List Text
end_word [] words = words
end_word (c ∷ w) words = (c ∷ w) ∷ words

abbrev add_letter : Bool → ℕ → Text × List Text → Text × List Text
add_letter true c (w, ws) = ([], end_word w ws)
add_letter false c (w, ws) = (c ∷ w, ws)

-- The word that the text begins with, and the ones after it.
words_from : (ℕ → Bool) → Text → Text × List Text
words_from sep [] = ([], [])
words_from sep (c ∷ t) = add_letter (sep c) c (words_from sep t)

unfoldable pub words_by : (ℕ → Bool) → Text → List Text
unfolding words_from
words_by sep t = end_word (words_from sep t).0 (words_from sep t).1

-- What follows a text that another one starts with.
unfoldable pub eat : Text → Text → Option Text
eat [] t = some t
eat (p ∷ ps) [] = none
eat (p ∷ ps) (c ∷ t) = if p == c then eat ps t else none

-- The parts before and after the first character of one kind.
abbrev add_before : ℕ → Option (Text × Text) → Option (Text × Text)
add_before c none = none
add_before c (some (a, b)) = some (c ∷ a, b)

unfoldable pub cut : ℕ → Text → Option (Text × Text)
cut d [] = none
cut d (c ∷ t) = let rest = add_before c (cut d t) in if c == d then some ([], t) else rest

-- The first `n` characters, if there are so many, and the rest.
unfoldable pub take_exactly : ℕ → Text → Option (Text × Text)
take_exactly ℕ.zero t = some ([], t)
take_exactly (ℕ.suc n) [] = none
take_exactly (ℕ.suc n) (c ∷ t) = add_before c (take_exactly n t)
