-- ===== src/Successions/Proof.antt =====
-- What the walk of src/core/session-rebind.mjs proves.
use universal_peer_mcp.Prelude.{
  ℕ, zero, suc, ◌+◌, ◌≤◌, ◌≡◌, refl, subst, Bool, true, false, ◌&&◌, inl, inr, Option, none, some,
  List, [], ◌∷◌, Text, arith, ltb, Outcome, ok, err, Bool-cases,
}
use universal_peer_mcp.Successions.{
  Kernel, Found, proves, is_barred, max_ancestor_depth, walk, prove_resume_succession,
}

-- `r` is the `n`th ancestor of `p`, and no live session stands from the first ancestor up to it.
pub data Above (k : Kernel) (boundary : ℕ → Bool) : ℕ → ℕ → ℕ → Type 0 where
  here : {p : ℕ} → Above k boundary p p 0
  up :
      {p q r n : ℕ}
      → k.parent p ≡ ok (some q)
      → boundary q ≡ false
      → Above k boundary q r n
      → Above k boundary p r (suc n)

-- What a walk that starts at `current` has found.
abbrev Reached : Kernel → (ℕ → Bool) → Text → ℕ → ℕ → ℕ → Option Found → Type 0
Reached k boundary expected left depth current none = Unit
Reached k boundary expected left depth current (some found) =
    ((ltb 0 depth && boundary current) ≡ false)
    × (proves k expected found.pid ≡ true)
    × ((n : ℕ) × (n + 1 ≤ left) × (found.depth ≡ depth + n) × Above k boundary current found.pid n)

walk-Reached :
    (k : Kernel) (boundary : ℕ → Bool) (expected : Text) (left depth current : ℕ) (seen : List ℕ)
    → Reached k boundary expected left depth current
        (walk k boundary expected left depth current seen)
unfolding walk
walk-Reached k boundary expected zero depth current seen = tt
walk-Reached k boundary expected (suc left) depth current seen =
    elim (Bool-cases (is_barred boundary depth current seen)) [
      | inl barred ↦ rw barred tt
      | inr free ↦ elim (Bool-cases (proves k expected current)) [
        | inl proved ↦
            rw (free, proved) (ground (arith, free), proved, (0, omega arith, omega arith, here))
        | inr unproved ↦
            rw (free, unproved)
              (above (ground (arith, free))
                (λ p. walk-Reached k boundary expected left (depth + 1) p (current ∷ seen))
                (k.parent current) refl)
      ]
    ]
  where
    further :
        (p : ℕ) (o : Option Found)
        → (ltb 0 depth && boundary current) ≡ false
        → k.parent current ≡ ok (some p)
        → Reached k boundary expected left (depth + 1) p o
        → Reached k boundary expected (suc left) depth current o
    further p none free e h = tt
    further p (some found) free e (clear, proved, (n, less, deep, path)) = (
      free,
      proved,
      (suc n, omega (arith, less), omega (arith, deep), up e (ground (arith, clear)) path),
    )

    above :
        (ltb 0 depth && boundary current) ≡ false
        → ((p : ℕ)
            → Reached k boundary expected left
                (depth + 1)
                p
                (walk k boundary expected left (depth + 1) p (current ∷ seen)))
        → (o : Outcome (Option ℕ)) → k.parent current ≡ o
        → Reached k boundary expected (suc left) depth current (elim o as (λ q. Option Found) [
          | err code ↦ none
          | ok none ↦ none
          | ok (some p) ↦ walk k boundary expected left (depth + 1) p (current ∷ seen)
        ])
    above free h (err code) e = tt
    above free h (ok none) e = tt
    above free h (ok (some p)) e =
        further p (walk k boundary expected left (depth + 1) p (current ∷ seen)) free e (h p)

-- A succession is proved only by a receipt for that very session in the arguments of the process or of an ancestor at
-- most eight above it, with no other live session from its parent up to that ancestor.
pub prove_resume_succession-Above :
    (k : Kernel) (boundary : ℕ → Bool) (pid : ℕ) (expected : Text) (found : Found)
    → prove_resume_succession k boundary pid expected ≡ some found
    → (proves k expected found.pid ≡ true)
      × (found.depth ≤ max_ancestor_depth)
      × Above k boundary pid found.pid found.depth
unfolding prove_resume_succession
prove_resume_succession-Above k boundary pid [] found h = absurd (ground (arith, h))
prove_resume_succession-Above k boundary pid (c ∷ expected) found h =
    let (_, proved, (n, less, deep, path)) =
      subst (Reached k boundary (c ∷ expected) 9 0 pid) h
        (walk-Reached k boundary (c ∷ expected) 9 0 pid []) in
    let e : n ≡ found.depth = omega (arith, deep) in
    (proved, omega (arith, less, deep), subst (Above k boundary pid found.pid) e path)
