-- ===== src/Successions/Warrant.antt =====
-- A session that `resolveSuccessor` (src/adapters/claude-native-v1/registry.mjs) answers, and the table
-- that src/core/session-rebind.mjs rewrites.
use mathlib.Core.List.{Memᴰ}
use universal_peer_mcp.Prelude.{
  ℕ, ◌≤◌, ◌≡◌, refl, subst, Bool, true, false, not, ◌&&◌, inl, inr, Option, none, some, List, [],
  ◌∷◌, ◌++◌, String, Text, same_text, str_eq, arith, All, All-filter, All-members, if◌then◌else◌,
  Outcome, ok, err, ◌>>=◌, Bool-cases,
}
use universal_peer_mcp.Processes.{normalize_proc_start, prove_permission_mode}
use universal_peer_mcp.Registry.{
  SessionRow, SessionFile, Registry, Expected, Verified, Generation, Succession, succeeded, refused,
  failed, is_live_pid, is_in_lane, is_self, lane, live_rows, verify_candidate, verified,
  path_or_empty, fails_with, speaks_protocol, checked_key, with_found, proven_rows, is_same_process,
  verified_succession, choose, among_live, resolve_successor,
}
use universal_peer_mcp.Successions.{Found, proves, max_ancestor_depth, prove_resume_succession}
use universal_peer_mcp.Successions.Proof.{Above, prove_resume_succession-Above}

-- Why the registry answers a session `t` for the one that is expected: the only live session of the lane with a
-- receipt, which is not the daemon's own row and not the process that held the expected session.
abbrev pub Warranted : Registry → Expected → Option Generation → List SessionRow → Verified → Type 0
Warranted r expected prior live t =
    (row : SessionRow) × (found : Found) × Memᴰ row live
    × (is_in_lane r expected row ≡ true)
    × (is_self r row ≡ false)
    × (is_same_process prior row ≡ false)
    × (proven_rows r (is_live_pid live) expected.session (lane r expected live) ≡ (row, found) ∷ [])
    × (proves r.kernel expected.session found.pid ≡ true)
    × (found.depth ≤ max_ancestor_depth)
    × Above r.kernel (is_live_pid live) row.pid found.pid found.depth
    × (t.session ≡ row.session)
    × (t.pid ≡ row.pid)

abbrev pub Chosen : (Verified → Type 0) → Succession → Type 0
Chosen P (succeeded t found) = P t
Chosen P (refused reason count) = Unit
Chosen P (failed code) = Unit

-- What a proved row of the lane is.
abbrev InLane : Registry → Expected → List SessionRow → SessionRow → Type 0
InLane r expected live row =
    Memᴰ row live × ((is_in_lane r expected row && not (is_self r row)) ≡ true)

lane-All :
    (r : Registry) (expected : Expected) (live : List SessionRow)
    → All (InLane r expected live) (lane r expected live)
lane-All r expected live =
    All-filter (λ row. Memᴰ row live) (λ row. is_in_lane r expected row && not (is_self r row)) live
      (All-members live)

abbrev ProvenRow :
    Registry → (ℕ → Bool) → Text → (SessionRow → Type 0) → SessionRow × Found → Type 0
ProvenRow r boundary id Q (row, found) =
    Q row × (prove_resume_succession r.kernel boundary row.pid id ≡ some found)

proven-All :
    (r : Registry) (boundary : ℕ → Bool) (id : Text) (Q : SessionRow → Type 0)
    (rows : List SessionRow)
    → All Q rows
    → All (ProvenRow r boundary id Q) (proven_rows r boundary id rows)
unfolding proven_rows
proven-All r boundary id Q [] h = tt
proven-All r boundary id Q (row ∷ rows) (q, h) =
    go (prove_resume_succession r.kernel boundary row.pid id) refl
      (proven-All r boundary id Q rows h)
  where
    go :
        (o : Option Found)
        → prove_resume_succession r.kernel boundary row.pid id ≡ o
        → All (ProvenRow r boundary id Q) (proven_rows r boundary id rows)
        → All (ProvenRow r boundary id Q) (with_found row o ++ proven_rows r boundary id rows)
    go none e k = k
    go (some found) e k = ((q, e), k)

-- The session that passes the checks is the row's.
IsOf : SessionRow → Outcome Verified → Type 0
IsOf row (err code) = Unit
IsOf row (ok t) = (t.session ≡ row.session) × (t.pid ≡ row.pid)

bind-IsOf {ℓ} :
    {A : Type ℓ} (row : SessionRow) (o : Outcome A) (f : A → Outcome Verified)
    → ((a : A) → IsOf row (f a))
    → IsOf row (o >>= f)
unfolding IsOf
bind-IsOf row (ok a) f h = h a
bind-IsOf row (err code) f h = tt

verified-IsOf : (row : SessionRow) (actual mode : String) → IsOf row (ok (verified row actual mode))
unfolding IsOf
verified-IsOf row actual mode = (refl, refl)

verify_candidate-IsOf :
    (r : Registry) (row : SessionRow) (expected : Expected)
    → IsOf row (verify_candidate r row expected)
unfolding verify_candidate
verify_candidate-IsOf r row expected =
    bind-IsOf row (r.realpath (path_or_empty expected.cwd)) _ (λ wanted.
      bind-IsOf row (r.realpath row.cwd) _ (λ actual.
        bind-IsOf row (fails_with "cwd_mismatch" (str_eq wanted actual)) _ (λ same_cwd.
          bind-IsOf row (fails_with "unsupported_peer_protocol" (speaks_protocol row)) _ (λ speaks.
            bind-IsOf row (r.start_of 1 row.pid) _ (λ now.
              bind-IsOf row
                (fails_with "process_identity_changed" (
                  same_text (normalize_proc_start (some now))
                    (normalize_proc_start row.proc_start)))
                _
                (λ same.
                  bind-IsOf row (r.socket_is_private row.socket >>= fails_with "socket_not_private")
                    _
                    (λ socket. bind-IsOf row (r.key_of row >>= checked_key row) _ (λ key.
                      bind-IsOf row
                        (prove_permission_mode expected.permission_mode
                          (normalize_proc_start row.proc_start) (r.start_of 2 row.pid)
                          (r.kernel.argv row.pid) (r.start_of 3 row.pid))
                        _ (λ mode. verified-IsOf row actual mode)))))))))

module _ (r : Registry) (expected : Expected) (prior : Option Generation)
    (live : List SessionRow) where
  one-Chosen :
      (row : SessionRow) (found : Found)
      → InLane r expected live row
      → prove_resume_succession r.kernel (is_live_pid live) row.pid expected.session ≡ some found
      → (proven_rows r (is_live_pid live) expected.session (lane r expected live)
          ≡ (row, found) ∷ [])
      → is_same_process prior row ≡ false
      → (o : Outcome Verified) → IsOf row o
      → Chosen (Warranted r expected prior live) (verified_succession found o)
  unfolding IsOf
  one-Chosen row found (here, in_lane) proof only other (err code) h = tt
  one-Chosen row found (here, in_lane) proof only other (ok t) (session, pid) =
      let (proved, near, above) =
        prove_resume_succession-Above r.kernel (is_live_pid live) row.pid expected.session found
          proof in
      (
        row,
        found,
        here,
        ground (arith, in_lane),
        ground (arith, in_lane),
        other,
        only,
        proved,
        near,
        above,
        session,
        pid,
      )

  choose-Chosen :
      (chained : Bool) (proven : List (SessionRow × Found))
      → proven_rows r (is_live_pid live) expected.session (lane r expected live) ≡ proven
      → Chosen (Warranted r expected prior live) (choose r expected prior chained proven)
  choose-Chosen chained (a ∷ (b ∷ rows)) e = tt
  choose-Chosen chained [] e = pick chained
    where
      pick :
          (b : Bool)
          → Chosen
              (Warranted r expected prior live)
              (if b then refused "rebind_chain_unsupported" 0 else refused "rebind_no_proof" 0)
      pick true = tt
      pick false = tt
  choose-Chosen chained ((row, found) ∷ []) e = elim (Bool-cases (is_same_process prior row)) [
    | inl same ↦ rw same tt
    | inr other ↦
        let (placed, proof) = (subst (All Proven) e proven_all).0 in
        rw other (
          one-Chosen row found placed proof e other (verify_candidate r row expected)
            (verify_candidate-IsOf r row expected))
  ]
    where
      Proven : SessionRow × Found → Type 0
      Proven = ProvenRow r (is_live_pid live) expected.session (InLane r expected live)

      proven_all :
          All Proven (proven_rows r (is_live_pid live) expected.session (lane r expected live))
      proven_all =
          proven-All r (is_live_pid live) expected.session (InLane r expected live)
            (lane r expected live) (lane-All r expected live)

-- A session that the registry answers as the successor is warranted among the live rows of its directory.
pub resolve_successor-Chosen :
    (r : Registry) (expected : Expected) (prior : Option Generation) (previous : List Text)
    → Chosen
        (λ t.
          (files : List SessionFile) × (r.directory ≡ ok files)
          × Warranted r expected prior (live_rows r (λ row. true) files) t)
        (resolve_successor r expected prior previous)
unfolding resolve_successor
resolve_successor-Chosen r expected prior previous = go r.directory refl
  where
    wrap :
        (files : List SessionFile) (s : Succession)
        → r.directory ≡ ok files
        → Chosen (Warranted r expected prior (live_rows r (λ row. true) files)) s
        → Chosen
            (λ t.
              (fs : List SessionFile) × (r.directory ≡ ok fs)
              × Warranted r expected prior (live_rows r (λ row. true) fs) t)
            s
    wrap files (succeeded t found) e h = (files, e, h)
    wrap files (refused reason count) e h = tt
    wrap files (failed code) e h = tt

    go :
        (o : Outcome (List SessionFile))
        → r.directory ≡ o
        → Chosen
            (λ t.
              (fs : List SessionFile) × (r.directory ≡ ok fs)
              × Warranted r expected prior (live_rows r (λ row. true) fs) t)
            (elim o as (λ q. Succession) [
              | err code ↦ failed code
              | ok files ↦ among_live r expected prior previous (live_rows r (λ row. true) files)
            ])
    go (err code) e = tt
    go (ok files) e =
        wrap files (among_live r expected prior previous (live_rows r (λ row. true) files)) e
          (choose-Chosen r expected prior (live_rows r (λ row. true) files) _ _ refl)
