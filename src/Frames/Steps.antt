-- ===== src/Frames/Steps.antt =====
-- The steps of `acceptFrame` (src/core/peer-core.mjs) keep the evidence of the ledger proved.
use universal_peer_mcp.Prelude.{
  ℕ, ◌≡◌, refl, sym, ap, Bool, true, false, not, inl, inr, Option, none, some, String, arith, ◌==◌,
  ==_iff, same_text_sound, if◌then◌else◌, ltb, Outcome, ok, err, Option-cases,
}
use universal_peer_mcp.Ledger.{Row, Fields, Store, no_fields, is_type}
use universal_peer_mcp.Receipts.{says}
use universal_peer_mcp.Core.{Line, pause, append_line}
use universal_peer_mcp.Processes.{normalize_proc_start}
use universal_peer_mcp.Frames.{Peer, Frame, Station, Ending, thrown, peer_fault}
use universal_peer_mcp.Frames.Accept.{
  wrote, evidence_fields, is_status, is_terminal, status_fields, take_status, idle_fields,
  take_idle, from_target, notice,
}
use universal_peer_mcp.Frames.Attested.{
  is_evidence_type, IsTargetOf, Shown, Keeps, Keeps-refl, Keeps-trans, Memᴰ-Grows, plain-Shown,
  append-Keeps,
}
use universal_peer_mcp.Frames.Finds.{IsRequest}

-- A writer that passes is the process that the request was sent to.
abbrev pub IsTarget : String → Row → Peer → Type 0
IsTarget rendering r p =
    (says r.target_proc_start_rendering rendering ≡ true)
    × (r.target_pid ≡ some p.pid)
    × (normalize_proc_start p.proc_start ≡ normalize_proc_start r.target_proc_start)

pid_eq : (o : Option ℕ) (n : ℕ) → elim o [ none ↦ false | some pid ↦ n == pid ] ≡ true → o ≡ some n
pid_eq none n h = absurd (ground arith)
pid_eq (some pid) n h = ap some (sym ((==_iff n pid).0 h))

pub peer_fault-IsTarget :
    (st : Station) (r : Row) (p : Peer)
    → peer_fault st r (some p) ≡ none
    → IsTarget st.net.rendering r p
unfolding peer_fault
peer_fault-IsTarget st r p h = (
  ground (arith, h),
  pid_eq r.target_pid p.pid (ground (arith, h)),
  same_text_sound _ _ (ground (arith, h)),
)

-- What others do while the handler waits adds rows only and keeps the evidence proved.
abbrev pub Fair : Station → Type 0
Fair st =
    ((k : ℕ) (s : Store) → Keeps st.net.rendering s (st.net.others k s))
    × ((j k : ℕ) (s : Store) → Keeps st.net.rendering s (st.others_in_post j k s))

abbrev pub From : {A : Type 0} → Station → Line → A × Line → Type 0
From st l r = Keeps st.net.rendering l.store r.1.store

module _ (st : Station) (fair : Fair st) where
  pub pause-From : (l : Line) → Keeps st.net.rendering l.store (pause st.net l).store
  pause-From l = fair.0 l.waits l.store

  append-From :
      (type : String) (fields : Fields) (l : Line)
      → Shown st.net.rendering (st.net.others l.waits l.store).events type fields
      → From st l (append_line st.net type fields l)
  append-From type fields l shown =
      Keeps-trans st.net.rendering l.store (st.net.others l.waits l.store)
        (append_line st.net type fields l).1.store (fair.0 l.waits l.store)
        (append-Keeps st.net.rendering st.net.line_bytes (st.net.moment l.waits) type fields
          (st.net.others l.waits l.store) shown)

  -- A row that is no evidence.
  pub append_plain-From :
      (type : String) (fields : Fields) (l : Line)
      → is_evidence_type type ≡ false
      → From st l (append_line st.net type fields l)
  append_plain-From type fields l plain =
      append-From type fields l (plain-Shown st.net.rendering type fields _ plain)

  -- A row of evidence for a request that stands in the ledger, from its target.
  pub append_evidence-From :
      (type : String) (fields : Fields) (l : Line) (r : Row)
      → IsRequest l.store.events r
      → IsTargetOf st.net.rendering r fields
      → From st l (append_line st.net type fields l)
  append_evidence-From type fields l r request target = append-From type fields l (λ is_evidence. (
    r,
    Memᴰ-Grows st.net.rendering r l.store (st.net.others l.waits l.store) (fair.0 l.waits l.store).0
        request.0,
    target,
  ))

  pub wrote-From : (l : Line) (r : Outcome Row × Line) → From st l r → From st l (wrote r)
  wrote-From l (ok row, l') h = h
  wrote-From l (err code, l') h = h

  wrote_evidence-From :
      (type : String) (fields : Fields) (l : Line) (r : Row)
      → IsRequest l.store.events r
      → IsTargetOf st.net.rendering r fields
      → From st l (wrote (append_line st.net type fields l))
  wrote_evidence-From type fields l r request target =
      wrote-From l (append_line st.net type fields l)
        (append_evidence-From type fields l r request target)

  pub pick-From :
      (l : Line) (b : Bool) (x y : Ending × Line)
      → From st l x
      → From st l y
      → From st l (if b then x else y)
  pick-From l true x y h k = h
  pick-From l false x y h k = k

  pub stay : (l : Line) → Keeps st.net.rendering l.store l.store
  stay l = Keeps-refl st.net.rendering l.store

  module _ (frame : Frame) (r : Row) (p : Peer) where
    pub evidence-IsTargetOf :
        (evidence : String) (base : Fields)
        → (is_type "send_requested" r ≡ true)
        → IsTarget st.net.rendering r p
        → IsTargetOf st.net.rendering r (evidence_fields evidence r p base)
    evidence-IsTargetOf evidence base typed (rendered, pid, start) =
        (typed, inl refl, rendered, (p.pid, refl, pid), start)

    pub take_status-From :
        (l : Line)
        → IsRequest l.store.events r
        → IsTarget st.net.rendering r p
        → From st l (take_status st frame r p l)
    take_status-From l request target = go frame.status
      where
        go :
            (o : Option String)
            → From st l (elim o as (λ q. Ending × Line) [
              | none ↦ (thrown none none, l)
              | some status ↦
                  if not (is_status status)
                  then (thrown none none, l)
                  else wrote (
                      append_line st.net
                        (if is_terminal status
                          then "peer_terminal_failure"
                          else "peer_message_status")
                        (status_fields frame status r p)
                        l)
            ])
        go none = stay l
        go (some status) = pick-From l (not (is_status status)) _ _ (stay l) (
            wrote_evidence-From
              (if is_terminal status then "peer_terminal_failure" else "peer_message_status")
              (status_fields frame status r p) l r request
              (evidence-IsTargetOf "message_status"
                (record no_fields {
                  transport_message_id = frame.orig_msg_id;
                  status = some status;
                  source_address = frame.from;
                })
                request.1 target))

    pub take_idle-From :
        (l : Line)
        → IsRequest l.store.events r
        → IsTarget st.net.rendering r p
        → From st l (take_idle st frame r p l)
    take_idle-From l request target = go frame.state
      where
        go :
            (o : Option String)
            → From st l (elim o as (λ q. Ending × Line) [
              | none ↦ (thrown none none, l)
              | some state ↦
                  if ltb 256 (st.string_bytes state)
                  then (thrown none none, l)
                  else wrote (append_line st.net "peer_idle_notice" (idle_fields frame state r p) l)
            ])
        go none = stay l
        go (some state) = pick-From l (ltb 256 (st.string_bytes state)) _ _ (stay l) (
            wrote_evidence-From "peer_idle_notice" (idle_fields frame state r p) l r request (
              evidence-IsTargetOf "idle_notice"
                (record no_fields { subscription_id = frame.orig_msg_id; state = some state })
                request.1 target))

  pub from_target-From :
      (r : Row) (peer : Option Peer) (next : Peer → Line → Ending × Line) (l : Line)
      → ((p : Peer) → IsTarget st.net.rendering r p → From st l (next p l))
      → From st l (from_target st r peer next l)
  from_target-From r none next l h = go (peer_fault st r none)
    where
      go :
          (o : Option String)
          → From st l (elim o as (λ q. Ending × Line) [
            | some code ↦ (thrown (some code) r.message_id, l)
            | none ↦ (thrown none none, l)
          ])
      go none = stay l
      go (some code) = stay l
  from_target-From r (some p) next l h = elim (Option-cases (peer_fault st r (some p))) [
    | inl passed ↦ rw (from_target, passed) (h p (peer_fault-IsTarget st r p passed))
    | inr (code, fault) ↦ rw (from_target, fault) (stay l)
  ]

  pub notice-From :
      (reason : String) (peer : Option Peer) (next : Row → Peer → Line → Ending × Line)
      (found : Outcome (Option Row)) (l : Line)
      → ((r : Row) → found ≡ ok (some r) → IsRequest l.store.events r)
      → ((r : Row) (p : Peer)
          → IsRequest l.store.events r
          → IsTarget st.net.rendering r p
          → From st l (next r p l))
      → From st l (notice st reason peer next found l)
  notice-From reason peer next (err code) l sound h = stay l
  notice-From reason peer next (ok none) l sound h = stay l
  notice-From reason peer next (ok (some r)) l sound h =
      from_target-From r peer (next r) l (λ p target. h r p (sound r refl) target)
