-- ===== src/Registry.antt =====
-- src/adapters/claude-native-v1/registry.mjs: the sessions that publish a row in the sessions directory, and which of them a
-- target names or is succeeded by. A `Registry` answers for the files and processes. An error carries
-- the reason that `resolveReason` of src/core/peer-core.mjs reads from its message, or its own diagnostic.
use universal_peer_mcp.Prelude.{
  ℕ, Bool, true, false, not, ◌&&◌, ◌||◌, Option, none, some, List, [], ◌∷◌, ◌++◌, String, Text,
  lower, same_text, leb, str_eq, ◌==◌, if◌then◌else◌, any, all, filter, length, Outcome, ok, err,
  refuse, ◌>>=◌,
}
use universal_peer_mcp.Processes.{normalize_proc_start, prove_permission_mode}
use universal_peer_mcp.Successions.{Kernel, Found, prove_resume_succession}

-- A row as a session publishes it. A row whose pid is no process id is none: `uidReader` refuses it.
pub record SessionRow : Type 0 where
  pub session : Option Text
  pub pid : ℕ
  pub name : Option String
  pub cwd : String
  pub proc_start : Option String
  pub peer_protocol : Option ℕ
  pub peer_features : List String
  pub socket : String

-- A file of the directory: whether its name is `<digits>.json`, whether it is this account's and not writable by
-- others, and what it parses to.
pub record SessionFile : Type 0 where
  pub is_numbered : Bool
  pub is_private : Bool
  pub row : Outcome SessionRow

pub record Key : Type 0 where
  pub is_private : Bool
  pub key_start : Option String
  pub token_length : ℕ

pub record Registry : Type 0 where
  pub kernel : Kernel
  -- the files, if the directory is private
  pub directory : Outcome (List SessionFile)
  pub is_ours : ℕ → Outcome Bool
  -- the start times of processes, read one after another
  pub start_of : ℕ → ℕ → Outcome String
  pub realpath : String → Outcome String
  pub socket_is_private : String → Outcome Bool
  pub key_of : SessionRow → Outcome Key
  pub self_pid : ℕ

pub record Expected : Type 0 where
  pub session : Text
  pub cwd : Option String
  pub permission_mode : String

-- What `verifyCandidate` answers.
pub record Verified : Type 0 where
  pub session : Option Text
  pub cwd : String
  pub pid : ℕ
  pub proc_start : Text
  pub socket : String
  pub permission : String

abbrev pub is_ok {ℓ} : {A : Type ℓ} → (A → Bool) → Outcome A → Bool
is_ok p (ok a) = p a
is_ok p (err code) = false

-- The process is this account's and started when the row says.
abbrev pub is_running : Registry → ℕ → SessionRow → Bool
is_running r k row = elim row.proc_start [
  | none ↦ false
  | some start ↦
      is_ok (λ ours. ours) (r.is_ours row.pid)
      && is_ok
          (λ now. same_text (normalize_proc_start (some now)) (normalize_proc_start (some start)))
          (r.start_of k row.pid)
]

abbrev pub live_row : Registry → (SessionRow → Bool) → SessionFile → List SessionRow
live_row r accept file = elim file.row [
  | err code ↦ []
  | ok row ↦
      if file.is_numbered && (file.is_private && (accept row && is_running r 0 row))
      then row ∷ []
      else []
]

-- `liveRows`
unfoldable pub live_rows : Registry → (SessionRow → Bool) → List SessionFile → List SessionRow
live_rows r accept [] = []
live_rows r accept (file ∷ files) = live_row r accept file ++ live_rows r accept files

-- `sessionLiveness`
pub data Liveness : Type 0 where
  running not_running unknown : Liveness

abbrev pub has_session : Text → SessionRow → Bool
has_session id row = elim row.session [ none ↦ false | some s ↦ same_text (lower s) (lower id) ]

unfoldable pub session_liveness : Registry → Text → Liveness
unfolding live_rows
session_liveness r id = elim r.directory [
  | err code ↦ unknown
  | ok files ↦ if leb 1 (length (live_rows r (has_session id) files)) then running else not_running
]

abbrev pub speaks_protocol : SessionRow → Bool
speaks_protocol row =
    elim row.peer_protocol [ none ↦ false | some v ↦ v == 1 ]
    && all (λ feature. any (str_eq feature) row.peer_features)
        ("notify_idle" ∷ "reply_across_default_dirs" ∷ [])

abbrev pub same_path : Registry → String → String → Bool
same_path r a b = is_ok (λ x. is_ok (λ y. str_eq x y) (r.realpath b)) (r.realpath a)

-- `verifyCandidate`: the row of a session must be what the target expects.
abbrev pub checked_key : SessionRow → Key → Outcome {0} Unit
checked_key row key =
    if not key.is_private
    then refuse "key_not_private"
    else if not
          (same_text (normalize_proc_start key.key_start) (normalize_proc_start row.proc_start))
        || not (leb 16 key.token_length)
    then refuse "key_identity_mismatch"
    else ok tt

abbrev pub fails_with : String → Bool → Outcome {0} Unit
fails_with reason good = if good then ok tt else refuse reason

abbrev pub path_or_empty : Option String → String
path_or_empty none = ""
path_or_empty (some p) = p

abbrev pub verified : SessionRow → String → String → Verified
verified row actual mode = record {
  session = row.session;
  cwd = actual;
  pid = row.pid;
  proc_start = normalize_proc_start row.proc_start;
  socket = row.socket;
  permission = mode;
}

unfoldable pub verify_candidate : Registry → SessionRow → Expected → Outcome Verified
verify_candidate r row expected = r.realpath (path_or_empty expected.cwd) >>= λ wanted.
    r.realpath row.cwd >>= λ actual. fails_with "cwd_mismatch" (str_eq wanted actual) >>= λ _.
    fails_with "unsupported_peer_protocol" (speaks_protocol row) >>= λ _.
    r.start_of 1 row.pid >>= λ now.
    fails_with "process_identity_changed"
      (same_text (normalize_proc_start (some now)) (normalize_proc_start row.proc_start))
    >>= λ _. r.socket_is_private row.socket >>= fails_with "socket_not_private" >>= λ _.
        r.key_of row >>= checked_key row >>= λ _.
        prove_permission_mode expected.permission_mode (normalize_proc_start row.proc_start)
          (r.start_of 2 row.pid) (r.kernel.argv row.pid) (r.start_of 3 row.pid)
        >>= λ mode. ok (verified row actual mode)

abbrev pub names_session : Text → SessionRow → Bool
names_session id row = elim row.session [ none ↦ false | some s ↦ same_text s id ]

abbrev pub only_candidate : Registry → Expected → List SessionRow → Outcome Verified
only_candidate r expected [] = refuse "no_live_session_for_session_id"
only_candidate r expected (row ∷ []) = verify_candidate r row expected
only_candidate r expected (a ∷ (b ∷ rows)) = refuse "multiple_live_sessions_for_session_id"

-- `resolveTarget`
unfoldable pub resolve_target : Registry → Expected → Outcome Verified
unfolding live_rows verify_candidate
resolve_target r expected = r.directory >>= λ files.
    only_candidate r expected (live_rows r (names_session expected.session) files)

-- `sameLaneRows`, and no row of the daemon itself
abbrev pub is_self : Registry → SessionRow → Bool
is_self r row =
    elim row.name [ none ↦ false | some n ↦ str_eq n "universal-peer-mcp" ] || row.pid == r.self_pid

abbrev pub is_in_lane : Registry → Expected → SessionRow → Bool
is_in_lane r expected row =
    elim row.session [ none ↦ false | some s ↦ not (same_text s expected.session) ]
    && (speaks_protocol row
        && elim expected.cwd [ none ↦ true | some cwd ↦ same_path r row.cwd cwd ])

abbrev pub lane : Registry → Expected → List SessionRow → List SessionRow
lane r expected live = filter (λ row. is_in_lane r expected row && not (is_self r row)) live

-- Every live session is a boundary of the walk.
abbrev pub is_live_pid : List SessionRow → ℕ → Bool
is_live_pid live pid = any (λ row. row.pid == pid) live

abbrev pub with_found : SessionRow → Option Found → List (SessionRow × Found)
with_found row none = []
with_found row (some found) = (row, found) ∷ []

unfoldable pub proven_rows :
    Registry → (ℕ → Bool) → Text → List SessionRow → List (SessionRow × Found)
proven_rows r boundary expected [] = []
proven_rows r boundary expected (row ∷ rows) =
    with_found row (prove_resume_succession r.kernel boundary row.pid expected)
    ++ proven_rows r boundary expected rows

-- A process as the ledger saw it.
pub record Generation : Type 0 where
  pub pid : ℕ
  pub proc_start : Option String

abbrev pub is_same_process : Option Generation → SessionRow → Bool
is_same_process none row = false
is_same_process (some prior) row =
    row.pid == prior.pid
    && same_text (normalize_proc_start row.proc_start) (normalize_proc_start prior.proc_start)

-- The answer: a session and its proof, a diagnostic with the number of candidates that it reports, or the
-- failure of another step.
pub data Succession : Type 0 where
  succeeded : Verified → Found → Succession
  refused : String → ℕ → Succession
  failed : Option String → Succession

abbrev pub verified_succession : Found → Outcome Verified → Succession
verified_succession found (ok t) = succeeded t found
verified_succession found (err code) = failed code

-- A receipt for an older id of the alias.
abbrev pub is_chained : Registry → (ℕ → Bool) → List Text → List SessionRow → Bool
is_chained r boundary previous rows =
    any (λ id. leb 1 (length (proven_rows r boundary id rows))) previous

abbrev pub choose :
    Registry → Expected → Option Generation → Bool → List (SessionRow × Found) → Succession
choose r expected prior chained [] =
    if chained then refused "rebind_chain_unsupported" 0 else refused "rebind_no_proof" 0
choose r expected prior chained ((row, found) ∷ []) =
    if is_same_process prior row
    then refused "rebind_same_process" 1
    else verified_succession found (verify_candidate r row expected)
choose r expected prior chained (a ∷ (b ∷ rows)) =
    refused "rebind_ambiguous" (length (a ∷ (b ∷ rows)))

abbrev pub among_live :
    Registry → Expected → Option Generation → List Text → List SessionRow → Succession
among_live r expected prior previous live =
    choose r expected prior (is_chained r (is_live_pid live) previous (lane r expected live))
      (proven_rows r (is_live_pid live) expected.session (lane r expected live))

-- `resolveSuccessor`
unfoldable pub resolve_successor : Registry → Expected → Option Generation → List Text → Succession
unfolding live_rows verify_candidate proven_rows
resolve_successor r expected prior previous = elim r.directory [
  | err code ↦ failed code
  | ok files ↦ among_live r expected prior previous (live_rows r (λ row. true) files)
]
