-- ===== src/Senders.antt =====
-- src/core/sender-auth.mjs: which of the operator's sessions wrote. The rows of the sessions directory, the
-- start times and the parents of processes are answers of a `Host`.
pub mod Proved
pub mod Threads
mod Tests
use universal_peer_mcp.Prelude.{
  ℕ, zero, suc, ◌+◌, Bool, true, false, not, ◌&&◌, ◌||◌, Option, none, some, List, [], ◌∷◌, String,
  Text, same_text, leb, str_eq, ◌==◌, if◌then◌else◌, find?, Outcome, ok, err,
}
use universal_peer_mcp.Limits.{same_uuid}
use universal_peer_mcp.Processes.{normalize_proc_start}
use universal_peer_mcp.Frames.{Peer}

abbrev pub max_sender_depth : ℕ
max_sender_depth = 8

-- What `<pid>.json` parses to, and whether it is a file of this account that others cannot write.
pub record Published : Type 0 where
  pub is_private : Bool
  pub pid : Option ℕ
  pub session : Option Text
  pub proc_start : Option String
  pub name : Option String

pub record SenderRow : Type 0 where
  pub session : Text
  pub proc_start : String
  pub name : Option String

pub record Host : Type 0 where
  pub file_of : ℕ → Outcome Published
  pub start_of : ℕ → Outcome String
  pub parent : ℕ → Outcome (Option ℕ)
  -- the target table: aliases and their sessions
  pub allowlist : List (String × Option Text)
  pub self_pid : ℕ

-- `readRow`
abbrev pub row_with : Option String → Option String → Option Text → Option SenderRow
row_with name (some start) (some session) =
    some (record { session = session; proc_start = start; name = name })
row_with name none session = none
row_with name (some start) none = none

abbrev pub read_row : Host → ℕ → Option SenderRow
read_row h pid = elim (h.file_of pid) [
  | err code ↦ none
  | ok f ↦
      if f.is_private && elim f.pid [ none ↦ false | some p ↦ p == pid ]
      then row_with f.name f.proc_start f.session
      else none
]

-- The answer: an alias with its session, the process and the depth that it was found at, or a reason.
pub data Sender : Type 0 where
  proved : String → Text → ℕ → ℕ → Sender
  unproved : String → Sender

abbrev pub is_of_session : Text → String × Option Text → Bool
is_of_session session target = same_uuid target.1 (some session)

abbrev pub alias_for : Host → Text → Option (String × Option Text)
alias_for h session = find? (is_of_session session) h.allowlist

abbrev pub allowed : Host → SenderRow → ℕ → ℕ → Sender
allowed h row pid depth = elim (alias_for h row.session) [
  | none ↦ unproved "session_not_allowlisted"
  | some target ↦ proved target.0 row.session pid depth
]

-- The start time that the kernel gave for the writer, if it gave one.
abbrev pub is_other_start : Option String → Text → Bool
is_other_start none live = false
is_other_start (some start) live =
    not (str_eq start "") && not (same_text (normalize_proc_start (some start)) live)

abbrev pub judge_live : Host → Peer → SenderRow → ℕ → ℕ → Outcome String → Sender
judge_live h peer row pid depth (err code) = unproved "process_identity_changed"
judge_live h peer row pid depth (ok start) =
    let live = normalize_proc_start (some start) in
    if not (same_text live (normalize_proc_start (some row.proc_start)))
    then unproved "process_identity_changed"
    else if depth == 0 && is_other_start peer.proc_start live
    then unproved "process_identity_changed"
    else allowed h row pid depth

abbrev pub is_own_row : Host → SenderRow → ℕ → Bool
is_own_row h row pid =
    elim row.name [ none ↦ false | some n ↦ str_eq n "universal-peer-mcp" ] || pid == h.self_pid

abbrev pub judge : Host → Peer → SenderRow → ℕ → ℕ → Sender
judge h peer row pid depth =
    if is_own_row h row pid
    then unproved "self_registration"
    else judge_live h peer row pid depth (h.start_of pid)

-- The loop: the first process with a row decides; without `walk` only the writer is looked at.
unfoldable pub sender_walk : Host → Peer → Bool → ℕ → ℕ → ℕ → Sender
sender_walk h peer walk zero depth pid = unproved "no_session_row"
sender_walk h peer walk (suc left) depth pid =
    let above = elim (h.parent pid) as (λ q. Sender) [
      | err code ↦ unproved "no_session_row"
      | ok none ↦ unproved "no_session_row"
      | ok (some p) ↦ sender_walk h peer walk left (depth + 1) p
    ] in
    if leb pid 1 then unproved "no_session_row" else elim (read_row h pid) [
      | some row ↦ judge h peer row pid depth
      | none ↦ if walk then above else unproved "no_session_row"
    ]

-- `resolveSender`
unfoldable pub resolve_sender : Host → Option Peer → Bool → Sender
unfolding sender_walk
resolve_sender h none walk = unproved "no_peer_identity"
resolve_sender h (some peer) walk =
    sender_walk h peer walk (if walk then max_sender_depth + 1 else 1) 0 peer.pid
