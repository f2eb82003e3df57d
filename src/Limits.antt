-- ===== src/Limits.antt =====
-- src/core/limits.mjs: identifiers, the one comparison of them, and references to them; with the
-- patterns of an alias (core/peer-directory.mjs), a row's type (core/events.mjs) and an error's code.
pub mod Laws
pub mod Canonical
mod Tests
use Prim.Native.Char.{Char}
use Prim.Native.String.{char_at}
use universal_peer_mcp.Prelude.{
  ℕ, zero, suc, ◌+◌, ◌-◌, ◌*◌, Bool, true, false, not, ◌&&◌, ◌||◌, Option, none, some, List, [],
  ◌∷◌, ◌++◌, map, String, Text, codes, lower, same_text, leb, ◌==◌, if◌then◌else◌, length, all,
  filter, Outcome, ok, err,
}

abbrev pub max_body_bytes : ℕ
max_body_bytes = 64 * 1024

abbrev pub max_event_bytes : ℕ
max_event_bytes = 64 * 1024

abbrev pub max_wait_ms : ℕ
max_wait_ms = 300000

-- Character classes.
abbrev pub between : ℕ → ℕ → ℕ → Bool
between lo hi c = leb lo c && leb c hi

abbrev pub is_digit : ℕ → Bool
is_digit = between b'0' b'9'

abbrev pub is_lower_letter : ℕ → Bool
is_lower_letter = between b'a' b'z'

abbrev pub is_upper_letter : ℕ → Bool
is_upper_letter = between b'A' b'Z'

-- `[0-9a-f]`, and `[89ab]` and `[1-8]`, which a version 4 or 5 uuid has at two places.
abbrev pub is_hex : ℕ → Bool
is_hex c = is_digit c || between b'a' b'f' c

abbrev pub is_variant : ℕ → Bool
is_variant c = between b'8' b'9' c || between b'a' b'b' c

abbrev pub is_version : ℕ → Bool
is_version = between b'1' b'8'

abbrev pub is_dash : ℕ → Bool
is_dash c = c == b'-'

-- The flag `i`: a class that holds lower case letters takes their capitals too.
abbrev pub any_case : (ℕ → Bool) → ℕ → Bool
any_case p c = p c || (is_upper_letter c && p (c + 32))

-- A pattern of a fixed number of classes, matched against the whole text.
pub fits : List (ℕ → Bool) → Text → Bool
fits [] [] = true
fits [] (c ∷ t) = false
fits (p ∷ ps) [] = false
fits (p ∷ ps) (c ∷ t) = p c && fits ps t

abbrev pub runs : ℕ → (ℕ → Bool) → List (ℕ → Bool)
runs zero p = []
runs (suc n) p = p ∷ runs n p

-- The parts after the first, second, third and fourth run.
abbrev pub uuid_end : List (ℕ → Bool)
uuid_end = is_dash ∷ runs 12 is_hex

abbrev pub uuid_variant : List (ℕ → Bool)
uuid_variant = is_dash ∷ is_variant ∷ (runs 3 is_hex ++ uuid_end)

abbrev pub uuid_version : List (ℕ → Bool)
uuid_version = is_dash ∷ is_version ∷ (runs 3 is_hex ++ uuid_variant)

abbrev pub uuid_middle : List (ℕ → Bool)
uuid_middle = is_dash ∷ (runs 4 is_hex ++ uuid_version)

abbrev pub uuid_shape : List (ℕ → Bool)
uuid_shape = runs 8 is_hex ++ uuid_middle

-- `UUID` of posts.mjs and attempts.mjs: lower case only.
unfoldable pub is_uuid : Text → Bool
unfolding fits
is_uuid = fits uuid_shape

-- `UUID` of limits.mjs, with the flag `i`.
unfoldable pub is_uuid_any : Text → Bool
unfolding fits
is_uuid_any = fits (map any_case uuid_shape)

-- `none` stands for a value that is not a string.
unfoldable pub same_uuid : Option Text → Option Text → Bool
same_uuid none right = false
same_uuid (some a) none = false
same_uuid (some a) (some b) = is_uuid_any a && (is_uuid_any b && same_text (lower a) (lower b))

-- `requireUuid`: the canonical spelling, or an error with no code.
unfoldable pub require_uuid : Option Text → Outcome Text
require_uuid none = err none
require_uuid (some t) = if is_uuid_any t then ok (lower t) else err none

-- `ALIAS`: `[a-z][a-z0-9-]{1,47}`.
abbrev alias_char : ℕ → Bool
alias_char c = is_lower_letter c || (is_digit c || is_dash c)

-- A pattern of one class and then `lo` to `hi` of another.
unfoldable pub head_then : (ℕ → Bool) → (ℕ → Bool) → ℕ → ℕ → Text → Bool
head_then first more lo hi [] = false
head_then first more lo hi (c ∷ t) =
    first c && (all more t && (leb lo (length t) && leb (length t) hi))

unfoldable pub is_alias : String → Bool
unfolding head_then
is_alias s = head_then is_lower_letter alias_char 1 47 (codes s)

unfoldable pub is_alias_text : Text → Bool
unfolding head_then
is_alias_text t = head_then is_lower_letter alias_char 1 47 t

-- The type of a row: `[a-z][a-z0-9_]{0,63}`.
unfoldable pub is_row_type : String → Bool
unfolding head_then
is_row_type s =
    head_then is_lower_letter (λ c. is_lower_letter c || (is_digit c || c == b'_')) 0 63 (codes s)

-- The code of an error: `[A-Z][A-Z0-9_]{1,63}`.
unfoldable pub is_code : String → Bool
unfolding head_then
is_code s =
    head_then is_upper_letter (λ c. is_upper_letter c || (is_digit c || c == b'_')) 1 63 (codes s)

-- `bareHex`: no dashes, no capitals.
unfoldable pub bare_hex : Option Text → Text
bare_hex none = []
bare_hex (some t) = filter (λ c. not (is_dash c)) (lower t)

-- `REFERENCE`: `[0-9a-f]{8,32}`.
unfoldable pub reference_hex : Option Text → Option Text
unfolding bare_hex
reference_hex v =
    let hex = bare_hex v in
    if all is_hex hex && (leb 8 (length hex) && leb (length hex) 32) then some hex else none

-- `String.prototype.startsWith`.
abbrev pub text_starts_with : Text → Text → Bool
text_starts_with t [] = true
text_starts_with [] (c ∷ s) = false
text_starts_with (d ∷ t) (c ∷ s) = d == c && text_starts_with t s

-- A reference of no characters matches nothing.
unfoldable pub reference_matches : Option Text → Option Text → Bool
unfolding bare_hex
reference_matches full none = false
reference_matches full (some []) = false
reference_matches full (some (c ∷ r)) = text_starts_with (bare_hex full) (c ∷ r)

-- A text of lower case letters, digits, dashes and underscores, as a string.
abbrev letter_of : ℕ → Char
letter_of c = char_at "abcdefghijklmnopqrstuvwxyz0123456789-_" (
    if is_lower_letter c
    then c - b'a'
    else if is_digit c
    then 26 + (c - b'0')
    else if is_dash c
    then 36
    else 37)

abbrev pub word_of : Text → String
word_of [] = ""
word_of (c ∷ t) = String.◌∷◌ (letter_of c) (word_of t)
