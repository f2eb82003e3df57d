-- ===== src/Protocol/Header.antt =====
-- src/core/protocol-header.mjs: what the ledger may keep of a body, the header on its first line. The table
-- of keys is a plain object, so the names that every object inherits are found in it as well.
use universal_peer_mcp.Prelude.{
  Bool, Option, none, some, List, [], ◌∷◌, ◌++◌, String, Text, codes, lower, same_text, str_eq,
  if◌then◌else◌, any, find?, take, first_line, trim, is_blank_or_pipe, words_by, cut,
}
use universal_peer_mcp.Limits.{is_uuid_any, reference_hex}
use universal_peer_mcp.Ledger.{Header}
use universal_peer_mcp.Protocol.{key_of, is_among}

abbrev pub header_verbs : List String
header_verbs = "PEER_ACK" ∷ "PEER_REPLY" ∷ "PEER_REQUEST" ∷ "PEER_POST" ∷ "PEER_DOORBELL" ∷ []

-- The fields of the table, and the members that it inherits: each under its key in lower case, with the
-- text that it is written as when it becomes a field's name.
pub data Field : Type 0 where
  message_field thread_field reply_field v_field verdict_field : Field
  inherited_field : String → Field

abbrev pub known_field : Text → Option Field
known_field key =
    if is_among ("message_id" ∷ "messageid" ∷ "mid" ∷ []) key
    then some message_field
    else if is_among ("thread_id" ∷ "threadid" ∷ "thread" ∷ []) key
    then some thread_field
    else if is_among ("reply_to" ∷ "replyto" ∷ "re" ∷ []) key
    then some reply_field
    else if is_among ("v" ∷ []) key
    then some v_field
    else if is_among ("verdict" ∷ []) key
    then some verdict_field
    else if is_among ("constructor" ∷ []) key
    then some (inherited_field "function Object() { [native code] }")
    else if is_among ("__proto__" ∷ []) key
    then some (inherited_field "[object Object]")
    else none

-- `idValue`: a message's id is a full one, the others may be references.
unfoldable pub full_id : Text → Option Text
full_id value = if is_uuid_any value then some (lower value) else none

unfoldable pub id_value : Text → Option Text
unfolding full_id
id_value value = elim (full_id value) [ none ↦ reference_hex (some value) | some id ↦ some id ]

-- `field in header`, and the first value stands.
abbrev pub first_of {ℓ} : {A : Type ℓ} → Option A → Option A → Option A
first_of (some a) b = some a
first_of none b = b

abbrev pub is_named : String → String × Text → Bool
is_named name field = str_eq field.0 name

-- A value of an inherited name is kept under it, as a message's id or a reference.
abbrev pub keep_inherited : String → Option Text → List (String × Text) → List (String × Text)
keep_inherited name none fields = fields
keep_inherited name (some id) fields =
    if any (is_named name) fields then fields else fields ++ ((name, id) ∷ [])

abbrev pub verdict_value : Text → Option String
verdict_value value =
    if same_text (lower value) (codes "pass")
    then some "pass"
    else if same_text (lower value) (codes "fail")
    then some "fail"
    else none

abbrev pub v_value : Text → Option String
v_value value = if same_text value (codes "1") then some "1" else none

unfoldable pub set_field : Field → Text → Header → Header
unfolding id_value full_id
set_field message_field value h = record h {
  header_message_id = first_of h.header_message_id (full_id value);
}
set_field thread_field value h = record h {
  header_thread_id = first_of h.header_thread_id (id_value value);
}
set_field reply_field value h = record h {
  header_reply_to = first_of h.header_reply_to (id_value value);
}
set_field v_field value h = record h { v = first_of h.v (v_value value) }
set_field verdict_field value h = record h {
  header_verdict = first_of h.header_verdict (verdict_value value);
}
set_field (inherited_field name) value h = record h {
  inherited = keep_inherited name (id_value value) h.inherited;
}

-- One token of the line.
abbrev pub set_known : Option Field → Text → Header → Header
set_known none value h = h
set_known (some field) value h = set_field field value h

abbrev pub read_split : Option (Text × Text) → Header → Header
read_split none h = h
read_split (some ([], value)) h = h
read_split (some (c ∷ key, value)) h = set_known (known_field (key_of (c ∷ key))) value h

unfoldable pub read_tokens : List Text → Header → Header
unfolding set_field
read_tokens [] h = h
read_tokens (token ∷ tokens) h = read_tokens tokens (read_split (cut b'=' token) h)

abbrev pub empty_header : String → Header
empty_header verb = record {
  verb = verb;
  v = none;
  header_message_id = none;
  header_thread_id = none;
  header_reply_to = none;
  header_verdict = none;
  inherited = [];
}

abbrev pub verb_of : Text → Option String
verb_of token = find? (λ verb. same_text token (codes verb)) header_verbs

abbrev pub header_of : List Text → Option Header
header_of [] = none
header_of (token ∷ tokens) = elim (verb_of token) [
  | none ↦ none
  | some verb ↦ some (read_tokens tokens (empty_header verb))
]

-- `protocolHeader`
unfoldable pub protocol_header : Option Text → Option Header
unfolding read_tokens
protocol_header none = none
protocol_header (some body) =
    header_of (words_by is_blank_or_pipe (trim (take 1024 (first_line body))))
