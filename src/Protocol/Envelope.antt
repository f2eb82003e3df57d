-- ===== src/Protocol/Envelope.antt =====
-- `unwrapEnvelope` of src/adapters/claude-native-v1/protocol.mjs. Its pattern is read from left to right: each
-- attribute has its own name, and its value ends at the first quote, so that there is one way to match.
use universal_peer_mcp.Prelude.{
  ℕ, Bool, true, false, not, ◌&&◌, ◌||◌, Option, none, some, [], ◌∷◌, String, Text, codes, lower,
  same_text, leb, ◌==◌, if◌then◌else◌, all, length, ◌>->◌, eat, cut,
}
use universal_peer_mcp.Limits.{is_digit, is_lower_letter, is_upper_letter, is_dash, between}

-- `[A-Za-z0-9_-]{1,80}`
abbrev is_session_char : ℕ → Bool
is_session_char c =
    is_lower_letter c || (is_upper_letter c || (is_digit c || (c == b'_' || is_dash c)))

abbrev is_session_value : Text → Bool
is_session_value t = leb 1 (length t) && (leb (length t) 80 && all is_session_char t)

-- `[0-9a-f]{24}(?:,[0-9a-f]{24}){0,31}`: groups of 24 with commas between them.
abbrev is_small_hex : ℕ → Bool
is_small_hex c = is_digit c || between b'a' b'f' c

abbrev is_hop : Text → Bool
is_hop t = length t == 24 && all is_small_hex t

pub hops : Option (Text × Text) → ℕ → Text → Bool
hops none n t = is_hop t
hops (some (a, b)) ℕ.zero t = false
hops (some (a, b)) (ℕ.suc n) t = let rest = hops (cut b',' b) n b in is_hop a && rest

abbrev is_hop_chain : Text → Bool
is_hop_chain t = hops (cut b',' t) 31 t

-- `bypass|prompting`
abbrev is_mode : Text → Bool
is_mode t = same_text t (codes "bypass") || same_text t (codes "prompting")

-- A text in quotes, without angle brackets; `hidden_in` finds the characters of the Unicode classes in it.
abbrev is_name : (Text → Bool) → Text → Bool
is_name hidden_in t =
    leb 1 (length t) && (all (λ c. not (c == b'<' || c == b'>')) t && not (hidden_in t))

-- An attribute that may be missing: what follows it.
abbrev pub optional : String → (Text → Bool) → Text → Option Text
optional name good t = elim (eat (codes name) t) [
  | none ↦ some t
  | some rest ↦ cut b'"' rest >-> λ r. if good r.0 then some r.1 else none
]

-- `\n</cross-session-message>` at the end of a text, and what stands before it.
abbrev closing : Text
closing = b'\n' ∷ codes "</cross-session-message>"

pub body_before_closing : Text → Option Text
body_before_closing [] = none
body_before_closing (c ∷ t) =
    let rest = body_before_closing t >-> λ body. some (c ∷ body) in
    if same_text (c ∷ t) closing then some [] else rest

-- A word's character, as `\b` reads it.
abbrev is_word_char : ℕ → Bool
is_word_char c = is_lower_letter c || (is_upper_letter c || (is_digit c || c == b'_'))

abbrev pub ends_word : Option Text → Bool
ends_word none = false
ends_word (some []) = true
ends_word (some (c ∷ t)) = not (is_word_char c)

-- `/<\/cross-session-message\b/i`
abbrev pub closing_tag : Text
closing_tag = codes "</cross-session-message"

unfoldable pub has_closing : Text → Bool
has_closing [] = false
has_closing (c ∷ t) =
    let later = has_closing t in ends_word (eat closing_tag (lower (c ∷ t))) || later

abbrev nonempty : Text → Option Text
nonempty [] = none
nonempty (c ∷ t) = some (c ∷ t)

-- `INBOUND_ENVELOPE`: the writer's address and the body.
unfoldable pub inbound_envelope : (Text → Bool) → Text → Option (Text × Text)
unfolding hops body_before_closing
inbound_envelope hidden_in t = eat (codes "<cross-session-message from=\"") t >-> cut b'"' >-> λ r.
    (if is_name hidden_in r.0
      then (optional " from-session=\"" is_session_value r.1
          >-> optional " hop-chain=\"" is_hop_chain
          >-> optional " from-name=\"" (is_name hidden_in)
          >-> optional " from-mode=\"" is_mode
          >-> eat (codes ">\n")
          >-> body_before_closing
          >-> nonempty
          >-> λ body. some (r.0, body))
      else none)

unfoldable pub opens_envelope : Text → Bool
opens_envelope t = elim (eat (codes "<cross-session-message ") t) [
  | none ↦ false
  | some rest ↦ true
]

-- The body of the envelope that the frame's writer has made, if nothing hides behind its end.
abbrev pub body_of : Text → Text × Text → Option Text
body_of from (writer, body) =
    if same_text writer from && not (has_closing body) then some body else none

abbrev same_writer : Option Text → Text × Text → Option Text
same_writer none r = none
same_writer (some from) r = body_of from r

-- `unwrapEnvelope`: a text that is no envelope is its own content.
unfoldable pub unwrap_envelope : (Text → Bool) → Option Text → Option Text → Option Text
unfolding inbound_envelope has_closing
unwrap_envelope hidden_in none from = none
unwrap_envelope hidden_in (some content) from =
    if opens_envelope content
    then inbound_envelope hidden_in content >-> same_writer from
    else some content
