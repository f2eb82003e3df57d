-- ===== src/Successions.antt =====
-- src/core/session-rebind.mjs: whether a live process took over the session that the target table names.
-- `proveResumeSuccession` walks from a process to its ancestors and looks for a receipt in their arguments.
pub mod Proof
pub mod Sidecar
pub mod Rebind
pub mod Warrant
pub mod Named
pub mod Safe
mod Tests
use universal_peer_mcp.Prelude.{
  ℕ, zero, suc, ◌+◌, Bool, true, false, ◌&&◌, ◌||◌, Option, none, some, List, [], ◌∷◌, String, Text,
  codes, same_text, leb, ltb, ◌==◌, if◌then◌else◌, any, eat, Outcome, ok, err,
}
use universal_peer_mcp.Limits.{same_uuid}
use universal_peer_mcp.Protocol.{is_among}

abbrev pub resume_flags : List String
resume_flags = "--resume" ∷ "-r" ∷ []

abbrev pub fork_flags : List String
fork_flags = "--fork-session" ∷ []

abbrev pub max_ancestor_depth : ℕ
max_ancestor_depth = 8

abbrev pub is_next : List Text → Text → Bool
is_next [] expected = false
is_next (token ∷ argv) expected = same_uuid (some token) (some expected)

-- One token after another: `--resume=<id>`, or a flag and its id.
abbrev pub assigned : Option Text → Text → Option Bool
assigned none expected = none
assigned (some id) expected = some (same_uuid (some id) (some expected))

unfoldable pub has_receipt : List Text → Text → Bool
has_receipt [] expected = false
has_receipt (token ∷ argv) expected =
    let later = has_receipt argv expected in
    elim (assigned (eat (codes "--resume=") token) expected) [
      | some same ↦ same || later
      | none ↦ (is_among resume_flags token && is_next argv expected) || later
    ]

-- `carriesReceipt`: a fork succeeds nobody.
unfoldable pub carries_receipt : List Text → Text → Bool
unfolding has_receipt
carries_receipt argv expected =
    if any (is_among fork_flags) argv then false else has_receipt argv expected

-- What the kernel answers about processes: the arguments of one, and its parent, if it has one.
pub record Kernel : Type 0 where
  pub argv : ℕ → Outcome (List Text)
  pub parent : ℕ → Outcome (Option ℕ)

abbrev pub proves : Kernel → Text → ℕ → Bool
proves k expected pid = elim (k.argv pid) [
  | err code ↦ false
  | ok argv ↦ carries_receipt argv expected
]

pub record Found : Type 0 where
  pub pid : ℕ
  pub depth : ℕ

-- A process that the walk may not look at: no process, one that it has seen, or a live session above the first.
abbrev pub is_barred : (ℕ → Bool) → ℕ → ℕ → List ℕ → Bool
is_barred boundary depth current seen =
    leb current 1 || (any (λ p. p == current) seen || (ltb 0 depth && boundary current))

-- The loop, with one round for each depth that is left.
unfoldable pub walk : Kernel → (ℕ → Bool) → Text → ℕ → ℕ → ℕ → List ℕ → Option Found
walk k boundary expected zero depth current seen = none
walk k boundary expected (suc left) depth current seen =
    let above = elim (k.parent current) as (λ q. Option Found) [
      | err code ↦ none
      | ok none ↦ none
      | ok (some p) ↦ walk k boundary expected left (depth + 1) p (current ∷ seen)
    ] in
    if is_barred boundary depth current seen
    then none
    else if proves k expected current
    then some (record { pid = current; depth = depth })
    else above

-- `proveResumeSuccession`
unfoldable pub prove_resume_succession : Kernel → (ℕ → Bool) → ℕ → Text → Option Found
unfolding walk
prove_resume_succession k boundary pid [] = none
prove_resume_succession k boundary pid (c ∷ expected) =
    walk k boundary (c ∷ expected) (max_ancestor_depth + 1) 0 pid []
