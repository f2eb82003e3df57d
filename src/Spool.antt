-- ===== src/Spool.antt =====
-- src/core/inbound-spool.mjs: a body is cut to its bound on a character boundary and kept in a file
-- of its own. A body is the list of its UTF-8 bytes. Parameters: `sha256`, the hex
-- digest of bytes, and `protocol_header`, which reads the text that the bytes are of (Protocol/Header).
pub mod Laws
mod Tests
use universal_peer_mcp.Prelude.{
  ℕ, zero, suc, ◌+◌, ◌-◌, ◌*◌, ◌≡◌, Bool, true, false, not, ◌&&◌, Option, none, some, List, [], ◌∷◌,
  String, leb, ltb, if◌then◌else◌, length, take, get_or, ◌==◌,
}
use universal_peer_mcp.Ledger.{Fields, Header}

abbrev pub max_inbound_body_bytes : ℕ
max_inbound_body_bytes = 1024 * 1024

-- `(byte & 0xc0) === 0x80`
abbrev pub is_continuation : ℕ → Bool
is_continuation byte = leb 0x80 byte && ltb byte 0xc0

-- The loop of `utf8Bound`: `end` walks back to the start of a character.
unfoldable pub walk_back : List ℕ → ℕ → ℕ
walk_back bytes zero = 0
walk_back bytes (suc end) =
    let back = walk_back bytes end in
    if is_continuation (get_or bytes (suc end) 0) then back else suc end

unfoldable pub utf8_bound : List ℕ → ℕ → ℕ
unfolding walk_back
utf8_bound bytes max = if leb (length bytes) max then length bytes else walk_back bytes max

abbrev header_or : Option Header → Option Header → Option Header
header_or none old = old
header_or (some header) old = some header

module _ (sha256 : List ℕ → String) (protocol_header : List ℕ → Option Header) where
  -- The fields that `write` gives to the row of a body, put over those of `base`: the file's name is
  -- made from the clock and random bytes; an empty body is not kept.
  unfoldable pub spool_fields : String → List ℕ → Fields → Fields
  unfolding utf8_bound
  spool_fields name [] base = base
  spool_fields name (b ∷ bs) base =
      let end = utf8_bound (b ∷ bs) max_inbound_body_bytes in
      let kept = take end (b ∷ bs) in
      record base {
        body_file = some name;
        body_bytes = some (length kept);
        body_sha256 = some (sha256 kept);
        header = header_or (protocol_header (b ∷ bs)) base.header;
        body_truncated = not (length kept == length (b ∷ bs));
      }
