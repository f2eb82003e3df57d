-- ===== src/Limits/Tests.antt =====
-- Identifiers, aliases and references (src/core/limits.mjs) at concrete inputs.
use universal_peer_mcp.Prelude.{◌≡◌, ◌↔◌, refl, true, false, some, none, [], Text, codes, lower}
use universal_peer_mcp.Limits.{
  is_uuid, is_uuid_any, same_uuid, is_alias, reference_hex, reference_matches, is_code, is_row_type,
}
use universal_peer_mcp.Limits.Canonical.{IsCanonical, same_uuid_iff}

abbrev small : Text
small = codes "0a1b2c3d-1111-4111-8111-00000000000a"

abbrev capital : Text
capital = codes "0A1B2C3D-1111-4111-8111-00000000000A"

spellings :
    (is_uuid small ≡ true)
    × (is_uuid capital ≡ false)
    × (is_uuid_any capital ≡ true)
    × (same_uuid (some small) (some capital) ≡ true)
unfolding is_uuid is_uuid_any same_uuid lower
spellings = (refl, refl, refl, refl)

same_uuid_iff_example :
    (same_uuid (some small) (some capital) ≡ true)
    ↔ ((lower small ≡ lower capital) × IsCanonical (lower small))
same_uuid_iff_example = same_uuid_iff small capital

-- A reference is at least eight hex digits of an id, with or without its dashes.
references :
    (reference_hex (some (codes "0A1B2C3D")) ≡ some (codes "0a1b2c3d"))
    × (reference_hex (some (codes "0a1b2c3")) ≡ none)
    × (reference_matches (some capital) (some (codes "0a1b2c3d11")) ≡ true)
    × (reference_matches (some capital) (some []) ≡ false)
unfolding reference_hex reference_matches lower
references = (refl, refl, refl, refl)

words :
    (is_alias "my-claude" ≡ true)
    × (is_alias "*" ≡ false)
    × (is_code "ENOSPC" ≡ true)
    × (is_row_type "peer_post" ≡ true)
unfolding is_alias is_code is_row_type
words = (refl, refl, refl, refl)
