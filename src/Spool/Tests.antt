-- ===== src/Spool/Tests.antt =====
-- Cutting a body (src/core/inbound-spool.mjs) at concrete inputs.
use universal_peer_mcp.Prelude.{
  ℕ, ◌≤◌, ◌<◌, ◌≡◌, refl, ◌⊎◌, true, false, List, [], ◌∷◌, length, get_or,
}
use universal_peer_mcp.Spool.{is_continuation, utf8_bound}
use universal_peer_mcp.Spool.Laws.{utf8_bound-IsCut}

-- "a", then a character of three bytes.
abbrev sample : List ℕ
sample = 97 ∷ 234 ∷ 176 ∷ 128 ∷ []

cuts : (utf8_bound sample 4 ≡ 4) × (utf8_bound sample 3 ≡ 1) × (utf8_bound sample 1 ≡ 1)
unfolding utf8_bound
cuts = (refl, refl, refl)

utf8_bound-IsCut_example :
    (length sample ≤ 3 → utf8_bound sample 3 ≡ length sample)
    × (3 < length sample
        → (utf8_bound sample 3 ≤ 3)
          × ((utf8_bound sample 3 ≡ 0)
              ⊎ (is_continuation (get_or sample (utf8_bound sample 3) 0) ≡ false))
          × ((j : ℕ)
              → utf8_bound sample 3 < j
              → j ≤ 3
              → is_continuation (get_or sample j 0) ≡ true))
utf8_bound-IsCut_example = utf8_bound-IsCut sample 3
