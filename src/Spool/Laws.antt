-- ===== src/Spool/Laws.antt =====
-- Where a body is cut, and what the row of a kept body says (src/core/inbound-spool.mjs).
use universal_peer_mcp.Prelude.{
  ℕ, zero, suc, ◌≤◌, ◌<◌, ◌≡◌, refl, ◌⊎◌, inl, inr, true, false, Option, List, [], ◌∷◌, String,
  arith, length, get_or, Bool-cases, ◌==◌, subst, sym,
}
use universal_peer_mcp.Ledger.{Fields, Header}
use universal_peer_mcp.Spool.{is_continuation, walk_back, utf8_bound, spool_fields}

walk_back-le : (bytes : List ℕ) (end : ℕ) → walk_back bytes end ≤ end
unfolding walk_back
walk_back-le bytes zero = omega arith
walk_back-le bytes (suc end) = ground (arith, walk_back-le bytes end)

-- The walk stops at the start of a character or of the body.
walk_back-start :
    (bytes : List ℕ) (end : ℕ)
    → (walk_back bytes end ≡ 0) ⊎ (is_continuation (get_or bytes (walk_back bytes end) 0) ≡ false)
unfolding walk_back
walk_back-start bytes zero = inl refl
walk_back-start bytes (suc end) = elim (Bool-cases (is_continuation (get_or bytes (suc end) 0))) [
  | inl inside ↦ rw inside (walk_back-start bytes end)
  | inr here ↦ rw here (inr here)
]

-- It passes continuation bytes only.
walk_back-passed :
    (bytes : List ℕ) (end j : ℕ)
    → walk_back bytes end < j
    → j ≤ end
    → is_continuation (get_or bytes j 0) ≡ true
unfolding walk_back
walk_back-passed bytes zero j h k = absurd (omega arith)
walk_back-passed bytes (suc end) j h k =
    elim (Bool-cases (is_continuation (get_or bytes (suc end) 0))) [
      | inr here ↦ absurd (ground arith)
      | inl inside ↦ elim (Bool-cases (j == suc end)) [
        | inl last ↦
            let e : j ≡ suc end = ground arith in
            subst (λ n. is_continuation (get_or bytes n 0) ≡ true) (sym e) inside
        | inr earlier ↦ walk_back-passed bytes end j (ground arith) (ground arith)
      ]
    ]

utf8_bound-short :
    (bytes : List ℕ) (max : ℕ) → length bytes ≤ max → utf8_bound bytes max ≡ length bytes
unfolding utf8_bound
utf8_bound-short bytes max h = ground arith

utf8_bound-long :
    (bytes : List ℕ) (max : ℕ) → max < length bytes → utf8_bound bytes max ≡ walk_back bytes max
unfolding utf8_bound
utf8_bound-long bytes max h = ground arith

-- A body within the bound is kept whole. A longer one is cut at the last place within the bound that
-- starts a character, or else at its start: the cut is no continuation byte unless it is 0, and all
-- bytes from behind it up to the bound are continuation bytes.
pub utf8_bound-IsCut :
    (bytes : List ℕ) (max : ℕ)
    → (length bytes ≤ max → utf8_bound bytes max ≡ length bytes)
      × (max < length bytes
          → (utf8_bound bytes max ≤ max)
            × ((utf8_bound bytes max ≡ 0)
                ⊎ (is_continuation (get_or bytes (utf8_bound bytes max) 0) ≡ false))
            × ((j : ℕ)
                → utf8_bound bytes max < j
                → j ≤ max
                → is_continuation (get_or bytes j 0) ≡ true))
utf8_bound-IsCut bytes max = (
  utf8_bound-short bytes max,
  λ long.
      let e = utf8_bound-long bytes max long in
      (
        rw e (walk_back-le bytes max),
        rw e (walk_back-start bytes max),
        λ j h k. walk_back-passed bytes max j (rw e at h) k,
      ),
)

module _ (sha256 : List ℕ → String) (protocol_header : List ℕ → Option Header) where
  -- Keeping a body leaves the id, the number and the sender of its row alone.
  pub spool_fields-message_id :
      (name : String) (body : List ℕ) (base : Fields)
      → (spool_fields sha256 protocol_header name body base).message_id ≡ base.message_id
  unfolding spool_fields
  spool_fields-message_id name [] base = refl
  spool_fields-message_id name (b ∷ body) base = refl

  pub spool_fields-own_seq :
      (name : String) (body : List ℕ) (base : Fields)
      → (spool_fields sha256 protocol_header name body base).own_seq ≡ base.own_seq
  unfolding spool_fields
  spool_fields-own_seq name [] base = refl
  spool_fields-own_seq name (b ∷ body) base = refl
