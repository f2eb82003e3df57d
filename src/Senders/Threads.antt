-- ===== src/Senders/Threads.antt =====
-- src/core/codex-identity.mjs: which Codex thread ran a command. The images of processes, the rollout files and
-- the start times are answers.
use universal_peer_mcp.Prelude.{
  ℕ, zero, suc, ◌+◌, Bool, true, false, not, ◌&&◌, ◌||◌, Option, none, some, List, [], ◌∷◌, String,
  Text, lower, same_text, leb, ◌==◌, if◌then◌else◌, any, Outcome, ok, err,
}
use universal_peer_mcp.Limits.{is_uuid}
use universal_peer_mcp.Processes.{normalize_proc_start}

abbrev pub max_codex_depth : ℕ
max_codex_depth = 10

-- What the kernel kept of a process: the value of CODEX_THREAD_ID when it was started, and whether its executable
-- is called `codex`.
pub record Image : Type 0 where
  pub thread : Option Text
  pub is_codex : Bool

pub record CodexHost : Type 0 where
  pub image_of : ℕ → Outcome Image
  pub parent : ℕ → Outcome (Option ℕ)
  pub has_rollout : Text → Bool
  -- the start time of a process, read before and after the search for the rollout
  pub start_before : ℕ → Outcome String
  pub start_after : ℕ → Outcome String

-- The thread, the process that carries it and its depth.
pub record Carrier : Type 0 where
  pub thread : Text
  pub pid : ℕ
  pub depth : ℕ

-- How the walk ends: with a malformed id, or with what it has found and the depth of the host, if there is one.
pub data Walked : Type 0 where
  malformed : Walked
  walked : Option Carrier → Option ℕ → Walked

-- The thread after one image, unless its id is no uuid.
abbrev pub thread_in : ℕ → ℕ → Option Text → Option (Option Carrier)
thread_in current depth none = some none
thread_in current depth (some []) = some none
thread_in current depth (some (c ∷ t)) =
    if is_uuid (lower (c ∷ t))
    then some (some (record { thread = lower (c ∷ t); pid = current; depth = depth }))
    else none

abbrev pub carried : ℕ → ℕ → Option Carrier → Image → Option (Option Carrier)
carried current depth (some carrier) image = some (some carrier)
carried current depth none image = thread_in current depth image.thread

abbrev pub has_carrier : Option Carrier → Bool
has_carrier none = false
has_carrier (some carrier) = true

-- What an image says: a malformed id, the host, or neither, with the carrier so far.
pub data Looked : Type 0 where
  bad_id : Looked
  at_host going_on : Option Carrier → Looked

abbrev pub look : ℕ → ℕ → Option Carrier → Outcome Image → Looked
look current depth carrier (err code) = going_on carrier
look current depth carrier (ok image) = elim (carried current depth carrier image) [
  | none ↦ bad_id
  | some next ↦ if has_carrier next && image.is_codex then at_host next else going_on next
]

-- The loop.
unfoldable pub codex_walk : CodexHost → ℕ → ℕ → ℕ → List ℕ → Option Carrier → Walked
codex_walk h zero depth current seen carrier = walked carrier none
codex_walk h (suc left) depth current seen carrier =
    if leb current 1 || any (λ p. p == current) seen
    then walked carrier none
    else elim (look current depth carrier (h.image_of current)) [
      | bad_id ↦ malformed
      | at_host next ↦ walked next (some depth)
      | going_on next ↦ elim (h.parent current) as (λ q. Walked) [
        | err code ↦ walked next none
        | ok none ↦ walked next none
        | ok (some p) ↦ codex_walk h left (depth + 1) p (current ∷ seen) next
      ]
    ]

-- The answer: a thread with the process that carries it and the depths, or a reason.
pub data CodexThread : Type 0 where
  proven : Carrier → ℕ → Text → CodexThread
  unproven : String → CodexThread

abbrev pub rendered : Outcome String → Option Text
rendered (err code) = none
rendered (ok start) = some (normalize_proc_start (some start))

abbrev pub settled : Carrier → ℕ → Option Text → Option Text → CodexThread
settled carrier host_depth none after = unproven "process_identity_changed"
settled carrier host_depth (some before) none = unproven "process_identity_changed"
settled carrier host_depth (some before) (some after) =
    if same_text before after
    then proven carrier host_depth before
    else unproven "process_identity_changed"

abbrev pub after_walk : CodexHost → Walked → CodexThread
after_walk h malformed = unproven "codex_thread_malformed"
after_walk h (walked none host) = unproven "no_codex_thread"
after_walk h (walked (some carrier) none) = unproven "codex_host_not_ancestor"
after_walk h (walked (some carrier) (some host_depth)) =
    if not (h.has_rollout carrier.thread)
    then unproven "codex_thread_unregistered"
    else settled carrier host_depth (rendered (h.start_before carrier.pid))
        (rendered (h.start_after carrier.pid))

-- `resolveCodexThread`
unfoldable pub resolve_codex_thread : CodexHost → ℕ → CodexThread
unfolding codex_walk
resolve_codex_thread h pid = after_walk h (codex_walk h (max_codex_depth + 1) 0 pid [] none)
