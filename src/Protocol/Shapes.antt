-- ===== src/Protocol/Shapes.antt =====
-- What `protocolHeader` of src/core/protocol-header.mjs keeps of a body.
use universal_peer_mcp.Prelude.{
  ◌≡◌, refl, Bool, true, ◌&&◌, ◌⊎◌, inl, inr, Option, none, some, List, [], ◌∷◌, String, Text,
  codes, lower, same_text, leb, any, all, length, All, All-append, arith, subst, cut, first_line,
  trim, words_by, is_blank_or_pipe, take, find?, str_eq, str_eq_refl, Bool-cases,
}
use universal_peer_mcp.Limits.{is_hex, is_uuid, is_uuid_any, bare_hex, reference_hex}
use universal_peer_mcp.Limits.Laws.{is_uuid-lower_any}
use universal_peer_mcp.Ledger.{Header}
use universal_peer_mcp.Protocol.{key_of}
use universal_peer_mcp.Protocol.Header.{
  verb_of, header_verbs, first_of, keep_inherited, Field, message_field, thread_field, reply_field,
  v_field, verdict_field, inherited_field, full_id, id_value, verdict_value, v_value, is_named,
  set_field, known_field, set_known, read_split, read_tokens, empty_header, header_of,
  protocol_header,
}

abbrev pub Kept {ℓ κ} : {A : Type ℓ} → (A → Type κ) → Option A → Type κ
Kept P none = Unit
Kept P (some a) = P a

-- 8 to 32 hexadecimal digits in lower case
abbrev pub is_reference : Text → Bool
is_reference t = all is_hex t && (leb 8 (length t) && leb (length t) 32)

abbrev pub IsId : Text → Type 0
IsId t = (is_uuid t ≡ true) ⊎ (is_reference t ≡ true)

abbrev pub HasId : String × Text → Type 0
HasId field = IsId field.1

abbrev pub is_verb : String → Bool
is_verb verb = any (λ known. str_eq verb known) header_verbs

-- Every value is of a closed shape.
abbrev pub IsClosed : Header → Type 0
IsClosed h =
    (is_verb h.verb ≡ true)
    × Kept (λ v. v ≡ "1") h.v
    × Kept (λ t. is_uuid t ≡ true) h.header_message_id
    × Kept IsId h.header_thread_id
    × Kept IsId h.header_reply_to
    × Kept (λ v. (v ≡ "pass") ⊎ (v ≡ "fail")) h.header_verdict
    × All HasId h.inherited

full_id-is_uuid : (t : Text) → Kept (λ id. is_uuid id ≡ true) (full_id t)
unfolding full_id
full_id-is_uuid t = elim (Bool-cases (is_uuid_any t)) [
  | inl good ↦ rw good (is_uuid-lower_any t good)
  | inr bad ↦ rw bad tt
]

reference-IsId : (t : Text) → Kept IsId (reference_hex (some t))
unfolding reference_hex
reference-IsId t = elim (Bool-cases (is_reference (bare_hex (some t)))) [
  | inl good ↦ rw good (inr good)
  | inr bad ↦ rw bad tt
]

weaken : (o : Option Text) → Kept (λ id. is_uuid id ≡ true) o → Kept IsId o
weaken none h = tt
weaken (some id) h = inl h

id_value-IsId : (t : Text) → Kept IsId (id_value t)
unfolding id_value
id_value-IsId t = go (full_id t) (weaken (full_id t) (full_id-is_uuid t))
  where
    go :
        (o : Option Text)
        → Kept IsId o
        → Kept IsId
            (elim o as (λ q. Option Text) [ none ↦ reference_hex (some t) | some id ↦ some id ])
    go none h = reference-IsId t
    go (some id) h = h

v_value-one : (t : Text) → Kept (λ v. v ≡ "1") (v_value t)
v_value-one t = elim (Bool-cases (same_text t (codes "1"))) [
  | inl one ↦ rw one refl
  | inr other ↦ rw other tt
]

verdict-closed : (t : Text) → Kept (λ v. (v ≡ "pass") ⊎ (v ≡ "fail")) (verdict_value t)
verdict-closed t = elim (Bool-cases (same_text (lower t) (codes "pass"))) [
  | inl pass ↦ rw pass (inl refl)
  | inr other ↦ elim (Bool-cases (same_text (lower t) (codes "fail"))) [
    | inl fail ↦ rw (other, fail) (inr refl)
    | inr neither ↦ rw (other, neither) tt
  ]
]

first-Kept {ℓ κ} :
    {A : Type ℓ} (P : A → Type κ) (a b : Option A) → Kept P a → Kept P b → Kept P (first_of a b)
first-Kept P none b h k = k
first-Kept P (some a) b h k = h

inherited-HasId :
    (name : String) (o : Option Text) (fields : List (String × Text))
    → Kept IsId o
    → All HasId fields
    → All HasId (keep_inherited name o fields)
inherited-HasId name none fields k h = h
inherited-HasId name (some id) fields k h = elim (Bool-cases (any (is_named name) fields)) [
  | inl there ↦ rw there h
  | inr new ↦ rw new (All-append HasId fields ((name, id) ∷ []) h (k, tt))
]

set_field-IsClosed : (f : Field) (t : Text) (h : Header) → IsClosed h → IsClosed (set_field f t h)
unfolding set_field
set_field-IsClosed message_field t h (verb, v, message, thread, reply, verdict, rest) = (
  verb,
  v,
  first-Kept _ h.header_message_id (full_id t) message (full_id-is_uuid t),
  thread,
  reply,
  verdict,
  rest,
)
set_field-IsClosed thread_field t h (verb, v, message, thread, reply, verdict, rest) = (
  verb,
  v,
  message,
  first-Kept IsId h.header_thread_id (id_value t) thread (id_value-IsId t),
  reply,
  verdict,
  rest,
)
set_field-IsClosed reply_field t h (verb, v, message, thread, reply, verdict, rest) = (
  verb,
  v,
  message,
  thread,
  first-Kept IsId h.header_reply_to (id_value t) reply (id_value-IsId t),
  verdict,
  rest,
)
set_field-IsClosed v_field t h (verb, v, message, thread, reply, verdict, rest) =
    (verb, first-Kept _ h.v (v_value t) v (v_value-one t), message, thread, reply, verdict, rest)
set_field-IsClosed verdict_field t h (verb, v, message, thread, reply, verdict, rest) = (
  verb,
  v,
  message,
  thread,
  reply,
  first-Kept _ h.header_verdict (verdict_value t) verdict (verdict-closed t),
  rest,
)
set_field-IsClosed (inherited_field name) t h (verb, v, message, thread, reply, verdict, rest) = (
  verb,
  v,
  message,
  thread,
  reply,
  verdict,
  inherited-HasId name (id_value t) h.inherited (id_value-IsId t) rest,
)

set_known-IsClosed :
    (f : Option Field) (t : Text) (h : Header) → IsClosed h → IsClosed (set_known f t h)
set_known-IsClosed none t h c = c
set_known-IsClosed (some f) t h c = set_field-IsClosed f t h c

read_split-IsClosed :
    (o : Option (Text × Text)) (h : Header) → IsClosed h → IsClosed (read_split o h)
read_split-IsClosed none h c = c
read_split-IsClosed (some ([], t)) h c = c
read_split-IsClosed (some (k ∷ key, t)) h c =
    set_known-IsClosed (known_field (key_of (k ∷ key))) t h c

read_tokens-IsClosed : (ts : List Text) (h : Header) → IsClosed h → IsClosed (read_tokens ts h)
unfolding read_tokens
read_tokens-IsClosed [] h c = c
read_tokens-IsClosed (t ∷ ts) h c =
    read_tokens-IsClosed ts (read_split (cut b'=' t) h) (read_split-IsClosed (cut b'=' t) h c)

found-is_verb :
    (token : Text) (verbs : List String)
    → Kept
        (λ verb. any (λ known. str_eq verb known) verbs ≡ true)
        (find? (λ verb. same_text token (codes verb)) verbs)
found-is_verb token [] = tt
found-is_verb token (verb ∷ verbs) = elim (Bool-cases (same_text token (codes verb))) [
  | inl same ↦ rw (same, str_eq_refl verb) refl
  | inr other ↦
      rw other (go (find? (λ v. same_text token (codes v)) verbs) (found-is_verb token verbs))
]
  where
    go :
        (o : Option String)
        → Kept (λ v. any (λ known. str_eq v known) verbs ≡ true) o
        → Kept (λ v. any (λ known. str_eq v known) (verb ∷ verbs) ≡ true) o
    go none h = tt
    go (some v) h = ground (arith, h)

header_of-IsClosed : (tokens : List Text) → Kept IsClosed (header_of tokens)
header_of-IsClosed [] = tt
header_of-IsClosed (token ∷ tokens) = go (verb_of token) (found-is_verb token header_verbs)
  where
    go :
        (o : Option String)
        → Kept (λ v. is_verb v ≡ true) o
        → Kept IsClosed (elim o as (λ q. Option Header) [
          | none ↦ none
          | some verb ↦ some (read_tokens tokens (empty_header verb))
        ])
    go none h = tt
    go (some verb) h = read_tokens-IsClosed tokens (empty_header verb) (h, tt, tt, tt, tt, tt, tt)

protocol_header-Kept : (body : Option Text) → Kept IsClosed (protocol_header body)
unfolding protocol_header
protocol_header-Kept none = tt
protocol_header-Kept (some body) =
    header_of-IsClosed (words_by is_blank_or_pipe (trim (take 1024 (first_line body))))

-- Whatever the body, every value that its kept header holds has a closed shape: the verb and the
-- verdict are words of their lists, the version is 1, the message's id is a lower case uuid, and every other value is
-- a lower case uuid or a reference of 8 to 32 hexadecimal digits.
pub protocol_header-IsClosed :
    (body : Option Text) (h : Header) → protocol_header body ≡ some h → IsClosed h
protocol_header-IsClosed body h e = subst (Kept IsClosed) e (protocol_header-Kept body)
