-- ===== src/Senders/Proved.antt =====
-- A sender that src/core/sender-auth.mjs has proved.
use universal_peer_mcp.Prelude.{
  ℕ, zero, suc, ◌+◌, ◌≤◌, ◌≡◌, refl, sym, ◌∙◌, subst, Bool, true, false, ◌&&◌, inl, inr, Option,
  none, some, String, Text, arith, same_text, same_text_sound, leb, ◌==◌, if◌then◌else◌, Outcome,
  ok, err, Bool-cases, Option-cases,
}
use universal_peer_mcp.Processes.{normalize_proc_start}
use universal_peer_mcp.Frames.{Peer}
use universal_peer_mcp.Senders.{
  SenderRow, Host, read_row, Sender, proved, unproved, alias_for, is_other_start, judge_live,
  is_own_row, judge, sender_walk, resolve_sender, max_sender_depth,
}

-- `q` is the `n`th ancestor of `p`, and none of the processes before it has a row.
pub data Nearest (h : Host) : ℕ → ℕ → ℕ → Type 0 where
  here : {p : ℕ} → Nearest h p p 0
  up :
      {p q r n : ℕ}
      → read_row h p ≡ none
      → h.parent p ≡ ok (some q)
      → Nearest h q r n
      → Nearest h p r (suc n)

-- The row of the process is not the daemon's, the process has the row's start time, and the table has the row's session.
abbrev pub IsProved : Host → Peer → String → Text → ℕ → ℕ → Type 0
IsProved h peer alias session pid depth =
    (row : SenderRow) × (read_row h pid ≡ some row)
    × (row.session ≡ session)
    × (is_own_row h row pid ≡ false)
    × ((start : String) × (h.start_of pid ≡ ok start)
        × (normalize_proc_start (some start) ≡ normalize_proc_start (some row.proc_start))
        × ((depth == 0 && is_other_start peer.proc_start (normalize_proc_start (some start)))
            ≡ false))
    × ((target : Option Text) × (alias_for h session ≡ some (alias, target)))

abbrev Judged : Host → Peer → ℕ → ℕ → Sender → Type 0
Judged h peer pid depth (proved alias session p d) =
    (p ≡ pid) × (d ≡ depth) × IsProved h peer alias session pid depth
Judged h peer pid depth (unproved reason) = Unit

module _ (h : Host) (peer : Peer) where
  judge-Judged :
      (row : SenderRow) (pid depth : ℕ)
      → read_row h pid ≡ some row
      → Judged h peer pid depth (judge h peer row pid depth)
  judge-Judged row pid depth read = elim (Bool-cases (is_own_row h row pid)) [
    | inl own ↦ rw own tt
    | inr foreign ↦ rw foreign (live foreign (h.start_of pid) refl)
  ]
    where
      listed :
          (start : String)
          → is_own_row h row pid ≡ false
          → h.start_of pid ≡ ok start
          → normalize_proc_start (some start) ≡ normalize_proc_start (some row.proc_start)
          → (depth == 0 && is_other_start peer.proc_start (normalize_proc_start (some start)))
            ≡ false
          → (o : Option (String × Option Text)) → alias_for h row.session ≡ o
          → Judged h peer pid depth (elim o as (λ q. Sender) [
            | none ↦ unproved "session_not_allowlisted"
            | some target ↦ proved target.0 row.session pid depth
          ])
      listed start foreign e same calm none f = tt
      listed start foreign e same calm (some (alias, target)) f =
          (refl, refl, (row, read, refl, foreign, (start, e, same, calm), (target, f)))

      live :
          is_own_row h row pid ≡ false
          → (o : Outcome String) → h.start_of pid ≡ o
          → Judged h peer pid depth (judge_live h peer row pid depth o)
      live foreign (err code) e = tt
      live foreign (ok start) e =
          elim (Bool-cases (
            same_text (normalize_proc_start (some start))
              (normalize_proc_start (some row.proc_start)))) [
                | inr other ↦ rw other tt
                | inl same ↦
                    elim (Bool-cases (
                      depth == 0
                      && is_other_start peer.proc_start (normalize_proc_start (some start)))) [
                        | inl moved ↦ rw (same, moved) tt
                        | inr calm ↦
                            rw (same, calm)
                              (listed start foreign e (same_text_sound _ _ same) calm
                                (alias_for h row.session) refl)
                      ]
              ]

  abbrev Walked : Bool → ℕ → ℕ → ℕ → Sender → Type 0
  Walked walk left depth pid (unproved reason) = Unit
  Walked walk left depth pid (proved alias session p d) =
      (n : ℕ) × (n + 1 ≤ left)
      × (d ≡ depth + n)
      × Nearest h pid p n
      × ((walk ≡ false) → n ≡ 0)
      × IsProved h peer alias session p d

  found_here :
      (walk : Bool) (left depth pid : ℕ) (o : Sender)
      → Judged h peer pid depth o
      → Walked walk (suc left) depth pid o
  found_here walk left depth pid (unproved reason) j = tt
  found_here walk left depth pid (proved alias session p d) (same, deep, why) = (
    0,
    omega arith,
    omega (arith, deep),
    subst (λ q. Nearest h pid q 0) (sym same) here,
    λ _. refl,
    subst (λ q. IsProved h peer alias session q d) (sym same)
        (subst (λ n. IsProved h peer alias session pid n) (sym deep) why),
  )

  found_above :
      (left depth pid p : ℕ) (o : Sender)
      → read_row h pid ≡ none
      → h.parent pid ≡ ok (some p)
      → Walked true left (depth + 1) p o
      → Walked true (suc left) depth pid o
  found_above left depth pid p (unproved reason) no_row e w = tt
  found_above left depth pid p (proved alias session q d) no_row e (n, less, deep, path, _, why) = (
    suc n,
    omega (arith, less),
    omega (arith, deep),
    up no_row e path,
    λ no. absurd (ground (arith, no)),
    why,
  )

  sender_walk-Walked :
      (walk : Bool) (left depth pid : ℕ)
      → Walked walk left depth pid (sender_walk h peer walk left depth pid)
  unfolding sender_walk
  sender_walk-Walked walk zero depth pid = tt
  sender_walk-Walked walk (suc left) depth pid = elim (Bool-cases (leb pid 1)) [
    | inl nobody ↦ rw nobody tt
    | inr someone ↦ elim (Option-cases (read_row h pid)) [
      | inr (row, read) ↦
          rw (someone, read)
            (found_here walk left depth pid (judge h peer row pid depth)
              (judge-Judged row pid depth read))
      | inl no_row ↦
          rw (someone, no_row)
            (higher walk no_row (λ p. sender_walk-Walked walk left (depth + 1) p) (h.parent pid)
              refl)
    ]
  ]
    where
      climb :
          ((p : ℕ) → Walked true left (depth + 1) p (sender_walk h peer true left (depth + 1) p))
          → read_row h pid ≡ none
          → (o : Outcome (Option ℕ)) → h.parent pid ≡ o
          → Walked true (suc left) depth pid (elim o as (λ q. Sender) [
            | err code ↦ unproved "no_session_row"
            | ok none ↦ unproved "no_session_row"
            | ok (some p) ↦ sender_walk h peer true left (depth + 1) p
          ])
      climb w no_row (err code) e = tt
      climb w no_row (ok none) e = tt
      climb w no_row (ok (some p)) e =
          found_above left depth pid p (sender_walk h peer true left (depth + 1) p) no_row e (w p)

      higher :
          (b : Bool)
          → read_row h pid ≡ none
          → ((p : ℕ) → Walked b left (depth + 1) p (sender_walk h peer b left (depth + 1) p))
          → (o : Outcome (Option ℕ)) → h.parent pid ≡ o
          → Walked b (suc left) depth pid (
              if b
              then elim o as (λ q. Sender) [
                | err code ↦ unproved "no_session_row"
                | ok none ↦ unproved "no_session_row"
                | ok (some p) ↦ sender_walk h peer b left (depth + 1) p
              ]
              else unproved "no_session_row")
      higher false no_row w o e = tt
      higher true no_row w o e = climb w no_row o e

-- A sender is proved only by the row of the writer or of its nearest ancestor with a row, at most eight above and only if
-- asked to walk: the row is not the daemon's own, the kernel gives the process the row's start time (and the writer the
-- one that it was seen with), and the alias is the first of the target table for the row's session.
pub resolve_sender-IsProved :
    (h : Host) (peer : Peer) (walk : Bool) (alias : String) (session : Text) (pid depth : ℕ)
    → resolve_sender h (some peer) walk ≡ proved alias session pid depth
    → (depth ≤ max_sender_depth)
      × ((walk ≡ false) → depth ≡ 0)
      × Nearest h peer.pid pid depth
      × IsProved h peer alias session pid depth
unfolding resolve_sender
resolve_sender-IsProved h peer walk alias session pid depth e =
    go walk (if walk then max_sender_depth + 1 else 1) (bound walk) (
      subst (Walked h peer walk (if walk then max_sender_depth + 1 else 1) 0 peer.pid) e
        (sender_walk-Walked h peer walk (if walk then max_sender_depth + 1 else 1) 0 peer.pid))
  where
    bound : (b : Bool) → (if b then max_sender_depth + 1 else 1) ≤ 9
    bound true = omega arith
    bound false = omega arith

    go :
        (b : Bool) (left : ℕ)
        → left ≤ 9
        → Walked h peer b left 0 peer.pid (proved alias session pid depth)
        → (depth ≤ max_sender_depth)
          × ((b ≡ false) → depth ≡ 0)
          × Nearest h peer.pid pid depth
          × IsProved h peer alias session pid depth
    go b left few (n, less, deep, path, flat, why) =
        let same : n ≡ depth = omega (arith, deep) in
        (
          omega (arith, few, less, same),
          λ no. sym same ∙ flat no,
          subst (Nearest h peer.pid pid) same path,
          why,
        )
