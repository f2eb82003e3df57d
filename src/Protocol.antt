-- ===== src/Protocol.antt =====
-- src/adapters/claude-native-v1/protocol.mjs: the two readers of a correlated answer. A text is lowered in
-- its ASCII letters only; the other characters that change into them (a Kelvin sign) are in no key.
pub mod Envelope
pub mod Header
pub mod Shapes
mod Tests
use universal_peer_mcp.Prelude.{
  ℕ, ◌*◌, Bool, true, false, not, ◌&&◌, ◌||◌, Option, none, some, List, [], ◌∷◌, map, String, Text,
  codes, lower, same_text, leb, ltb, ◌==◌, if◌then◌else◌, any, all, length, ◌>->◌, first_line, trim,
  is_space, is_blank, words_by, eat, cut, take_exactly, Outcome, ok, err,
}
use universal_peer_mcp.Limits.{
  is_digit, is_lower_letter, is_upper_letter, is_hex, is_dash, require_uuid, reference_hex,
}

-- `{ style, type, replyTo, threadId, messageId, verdict }`
pub record Marker : Type 0 where
  pub is_inband : Bool
  pub is_ack : Bool
  pub reply_to : Text
  pub thread : Option Text
  pub message : Option Text
  pub verdict : Option Text

abbrev pub max_content_bytes : ℕ
max_content_bytes = 1024 * 1024

-- `[0-9a-f-]{36}` after a literal, as an id.
abbrev pub outcome_option {ℓ} : {A : Type ℓ} → Outcome A → Option A
outcome_option (ok a) = some a
outcome_option (err code) = none

abbrev pub id_of_text : Text × Text → Option (Text × Text)
id_of_text (id, rest) =
    if all (λ c. is_hex c || is_dash c) id
    then (outcome_option (require_uuid (some id)) >-> λ i. some (i, rest))
    else none

abbrev pub id_after : String → Text → Option (Text × Text)
id_after literal t = eat (codes literal) t >-> λ rest. take_exactly 36 rest >-> id_of_text

-- `ack` or `reply`
abbrev pub marker_type : Text → Option (Bool × Text)
marker_type t = elim (eat (codes "ack") t) [
  | some rest ↦ some (true, rest)
  | none ↦ eat (codes "reply") t >-> λ rest. some (false, rest)
]

abbrev pub is_verdict : Text → Bool
is_verdict t = same_text t (codes "pass") || same_text t (codes "fail")

-- `(?: verdict=(pass|fail))?$`, and an ack has no verdict, a reply has one.
abbrev pub strict_verdict : Bool → Text → Option (Option Text)
strict_verdict true [] = some none
strict_verdict true (c ∷ t) = none
strict_verdict false t =
    eat (codes " verdict=") t >-> λ v. if is_verdict v then some (some v) else none

abbrev pub strict_marker : Bool → Text → Option Marker
strict_marker is_ack t = id_after " v=1 message_id=" t >-> λ a. id_after " thread_id=" a.1 >-> λ b.
    id_after " reply_to=" b.1 >-> λ c. strict_verdict is_ack c.1 >-> λ v. some (record {
      is_inband = false;
      is_ack = is_ack;
      reply_to = c.0;
      thread = some b.0;
      message = some a.0;
      verdict = v;
    })

-- `parseMarker`: the line is lowered first, since every part of it is matched in any case and kept in lower case.
unfoldable pub parse_marker : (Text → ℕ) → Option Text → Option Marker
parse_marker utf8_length none = none
parse_marker utf8_length (some content) =
    if ltb max_content_bytes (utf8_length content)
    then none
    else eat (codes "peer_") (lower (trim (first_line content))) >-> λ t.
        marker_type t >-> λ r. strict_marker r.0 r.1

-- The part of a line before a pipe.
abbrev pub before_pipe : Text → Text
before_pipe line = elim (cut b'|' line) [ none ↦ line | some (a, b) ↦ a ]

-- One token of `HEADER_LINE`: `[A-Za-z_][A-Za-z0-9_-]{0,31}=[^\s]{1,128}`.
abbrev pub is_letter_or_underscore : ℕ → Bool
is_letter_or_underscore c = is_lower_letter c || (is_upper_letter c || c == b'_')

abbrev pub is_key : Text → Bool
is_key [] = false
is_key (c ∷ t) =
    is_letter_or_underscore c
    && (all (λ d. is_letter_or_underscore d || (is_digit d || is_dash d)) t && leb (length t) 31)

abbrev pub is_value : Text → Bool
is_value v = leb 1 (length v) && (leb (length v) 128 && all (λ c. not (is_space c)) v)

abbrev pub token_of : Text → Option (Text × Text)
token_of word = cut b'=' word >-> λ kv. if is_key kv.0 && is_value kv.1 then some kv else none

pub tokens_of : List Text → Option (List (Text × Text))
tokens_of [] = some []
tokens_of (word ∷ words) = token_of word >-> λ kv. tokens_of words >-> λ rest. some (kv ∷ rest)

abbrev pub starts_blank : Text → Bool
starts_blank [] = false
starts_blank (c ∷ t) = is_blank c

-- `HEADER_LINE` on a trimmed line: ack or reply, and one to twelve tokens.
unfoldable pub header_line : Text → Option (Bool × List (Text × Text))
unfolding tokens_of
header_line line = eat (codes "PEER_") line >-> λ t.
    elim (eat (codes "ACK") t) as (λ q. Option (Bool × Text)) [
      | some rest ↦ some (true, rest)
      | none ↦ eat (codes "REPLY") t >-> λ rest. some (false, rest)
    ]
    >-> λ r.
        (let words = words_by is_blank r.1 in
          if starts_blank r.1 && (leb 1 (length words) && leb (length words) 12)
          then (tokens_of words >-> λ tokens. some (r.0, tokens))
          else none)

-- A key in its one spelling.
abbrev pub dash_to_underscore : ℕ → ℕ
dash_to_underscore c = if is_dash c then b'_' else c

abbrev pub key_of : Text → Text
key_of k = map dash_to_underscore (lower k)

abbrev pub is_among : List String → Text → Bool
is_among keys k = any (λ key. same_text k (codes key)) keys

-- What the tokens before have said.
pub record Said : Type 0 where
  pub said_reply_to : Option Text
  pub said_thread : Option Text
  pub said_message : Option Text
  pub said_version : Bool
  pub said_verdict : Option Text

abbrev pub nothing_said : Said
nothing_said = record {
  said_reply_to = none;
  said_thread = none;
  said_message = none;
  said_version = false;
  said_verdict = none;
}

abbrev pub is_none {ℓ} : {A : Type ℓ} → Option A → Bool
is_none none = true
is_none (some a) = false

-- One token: a key that is not known says nothing, one that is known may be said once.
unfoldable pub say : Said → Text × Text → Option Said
say s (k, v) =
    let key = key_of k in
    if is_among ("re" ∷ "replyto" ∷ "reply_to" ∷ []) key
    then (if is_none s.said_reply_to
        then (reference_hex (some v) >-> λ r. some (record s { said_reply_to = some r }))
        else none)
    else if is_among ("thread" ∷ "threadid" ∷ "thread_id" ∷ []) key
    then (if is_none s.said_thread
        then (reference_hex (some v) >-> λ r. some (record s { said_thread = some r }))
        else none)
    else if is_among ("mid" ∷ "messageid" ∷ "message_id" ∷ []) key
    then (if is_none s.said_message
        then (outcome_option (require_uuid (some v)) >-> λ i.
            some (record s { said_message = some i }))
        else none)
    else if is_among ("v" ∷ []) key
    then (if not s.said_version && same_text v (codes "1")
        then some (record s { said_version = true })
        else none)
    else if is_among ("verdict" ∷ []) key
    then (if is_none s.said_verdict && is_verdict (lower v)
        then some (record s { said_verdict = some (lower v) })
        else none)
    else some s

unfoldable pub say_all : Said → List (Text × Text) → Option Said
unfolding say
say_all s [] = some s
say_all s (kv ∷ tokens) = say s kv >-> λ t. say_all t tokens

abbrev pub inband_marker : Bool → Said → Option Marker
inband_marker is_ack s = s.said_reply_to >-> λ r. some (record {
  is_inband = true;
  is_ack = is_ack;
  reply_to = r;
  thread = s.said_thread;
  message = s.said_message;
  verdict = s.said_verdict;
})

-- `parseReplyHeader`
unfoldable pub parse_reply_header : (Text → ℕ) → Option Text → Option Marker
unfolding header_line say_all
parse_reply_header utf8_length none = none
parse_reply_header utf8_length (some content) =
    let line = trim (before_pipe (first_line content)) in
    if ltb max_content_bytes (utf8_length content) || ltb 1024 (length line)
    then none
    else header_line line >-> λ r. say_all nothing_said r.1 >-> inband_marker r.0
