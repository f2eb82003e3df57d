-- ===== src/Receipts/Names.antt =====
-- `uuidv5` of src/core/posts.mjs, and the ids that are made by it: `recipientMessageId` there and
-- `receiptId` of src/core/receipts.mjs. A name is ASCII, so its code units are its bytes. SHA-1 is
-- a parameter: a function on bytes.
use universal_peer_mcp.Prelude.{
  ℕ, zero, suc, ◌+◌, ◌*◌, ◌-◌, List, [], ◌∷◌, ◌++◌, String, Text, codes, lower, ltb, not, filter,
  take, if◌then◌else◌, Outcome, ok, refuse, ◌&&◌,
}
use universal_peer_mcp.Limits.{is_dash, is_digit, is_uuid, is_alias}
use Prim.Native.Nat.{◌/◌, ◌%◌}

-- `POST_NAMESPACE`
abbrev pub post_namespace : Text
post_namespace = codes "6f0b2d3e-3a47-5c1e-9d2f-8a1b7c4e5f60"

-- Hexadecimal digits in lower case and back.
abbrev pub hex_digit : ℕ → ℕ
hex_digit n = if ltb n 10 then b'0' + n else b'a' + (n - 10)

abbrev pub digit_value : ℕ → ℕ
digit_value c = if is_digit c then c - b'0' else c - b'a' + 10

abbrev pub to_hex : List ℕ → Text
to_hex [] = []
to_hex (b ∷ bs) = hex_digit (b / 16) ∷ hex_digit (b % 16) ∷ to_hex bs

abbrev pub from_hex : Text → List ℕ
from_hex [] = []
from_hex (h ∷ []) = []
from_hex (h ∷ (l ∷ t)) = (digit_value h * 16 + digit_value l) ∷ from_hex t

abbrev drop_first : ℕ → List ℕ → List ℕ
drop_first zero xs = xs
drop_first (suc n) [] = []
drop_first (suc n) (x ∷ xs) = drop_first n xs

-- `hash[i] = f(hash[i])`
abbrev change : ℕ → (ℕ → ℕ) → List ℕ → List ℕ
change i f [] = []
change zero f (x ∷ xs) = f x ∷ xs
change (suc i) f (x ∷ xs) = x ∷ change i f xs

-- `hex.slice(from, to)`
abbrev slice : ℕ → ℕ → Text → Text
slice from to t = take (to - from) (drop_first from t)

-- `(hash[6] & 0x0f) | 0x50` and `(hash[8] & 0x3f) | 0x80`
abbrev pub versioned : List ℕ → List ℕ
versioned hash = change 8 (λ b. b % 64 + 0x80) (change 6 (λ b. b % 16 + 0x50) hash)

unfoldable pub uuidv5 : (List ℕ → List ℕ) → Text → Text
uuidv5 sha1 name =
    let hex = to_hex (
      take 16
        (versioned (sha1 (from_hex (filter (λ c. not (is_dash c)) post_namespace) ++ name)))) in
    slice 0 8 hex
    ++ b'-' ∷ slice 8 12 hex
    ++ b'-' ∷ slice 12 16 hex
    ++ b'-' ∷ slice 16 20 hex
    ++ b'-' ∷ slice 20 32 hex

-- `recipientMessageId`
unfoldable pub recipient_message_id : (List ℕ → List ℕ) → Text → String → Outcome Text
unfolding uuidv5
recipient_message_id sha1 group alias =
    if is_uuid group && is_alias alias
    then ok (uuidv5 sha1 (group ++ b':' ∷ codes alias))
    else refuse "INVALID_CONTROL_ARGUMENTS"

-- `receiptId`
unfoldable pub state_id : (List ℕ → List ℕ) → String → Text → Text
unfolding uuidv5
state_id sha1 state id = uuidv5 sha1 (codes "receipt:" ++ codes state ++ b':' ∷ lower id)
