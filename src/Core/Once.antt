-- ===== src/Core/Once.antt =====
-- `send` of src/core/peer-core.mjs writes a message into a socket once for each reservation of it.
use universal_peer_mcp.Prelude.{
  ℕ, refl, Bool, true, false, not, Option, none, some, List, String, Text, str_eq, if◌then◌else◌,
  any, Outcome, ok, err, refuse, inl, inr, Option-cases,
}
use universal_peer_mcp.Ledger.{Row, is_type}
use universal_peer_mcp.Ledger.Requests.{request, list}
use universal_peer_mcp.Receipts.{says}
use universal_peer_mcp.Core.{
  Net, Line, Message, Target, Resolved, found, lost, pause, unavailable_fields, unavailable,
  rebound, after_lost, resolve, snapshot_fault, canonical_send,
}
use universal_peer_mcp.Core.Send.{
  Internal, is_stale, is_recovery, is_stranger, Sent, request_fields, recovery_fields,
  after_resolve, recover_resolved, recover_send, with_prior, send_once, sent_in_turn, send,
}
use universal_peer_mcp.Core.Owed.{Owed, Quiet, pause-Owed, append_line-Owed}
use universal_peer_mcp.Core.Transmits.{
  if-Owed, reserve-Owed, recovery-Owed, after_reserve-Owed, after_recovery-Owed,
}

module _ (n : Net) (id : Text) (quiet : Quiet id n) where
  unavailable-Owed :
      (alias reason : String) (seq : Option ℕ) (l : Line)
      → Owed id 0 0 l
      → Owed id 0 0 (unavailable n alias reason seq l).1
  unavailable-Owed alias reason seq l =
      append_line-Owed n id quiet 0 0 "target_resolve_failed" (unavailable_fields alias reason seq)
        l refl refl

  resolve-Owed : (alias : String) (l : Line) → Owed id 0 0 l → Owed id 0 0 (resolve n alias l).1
  unfolding resolve
  resolve-Owed alias l h = go (n.resolver l.waits alias)
    where
      paused : Owed id 0 0 (pause n l)
      paused = pause-Owed n id quiet 0 0 l h

      again : (r : Resolved) (x : Line) → Owed id 0 0 x → Owed id 0 0 (rebound n alias r x).1
      again (found t) x k = k
      again (lost reason seq) x k = unavailable-Owed alias reason seq x k

      pick :
          (b : Bool) (x y : Outcome Target × Line)
          → Owed id 0 0 x.1
          → Owed id 0 0 y.1
          → Owed id 0 0 (if b then x else y).1
      pick true x y a b = a
      pick false x y a b = b

      missing :
          (reason : String) (rebinder : Option (ℕ → String → Resolved))
          → Owed id 0 0
              (elim rebinder as (λ q. Outcome Target × Line) [
                | none ↦ unavailable n alias reason none (pause n l)
                | some rebind ↦
                    if str_eq reason "no_live_session_for_session_id"
                    then rebound n alias (rebind (pause n l).waits alias) (pause n (pause n l))
                    else unavailable n alias reason none (pause n l)
              ]).1
      missing reason none = unavailable-Owed alias reason none (pause n l) paused
      missing reason (some rebind) =
          pick (str_eq reason "no_live_session_for_session_id") _ _
            (again (rebind (pause n l).waits alias) (pause n (pause n l))
              (pause-Owed n id quiet 0 0 (pause n l) paused))
            (unavailable-Owed alias reason none (pause n l) paused)

      go :
          (r : Resolved)
          → Owed id 0 0
              (elim r as (λ q. Outcome Target × Line) [
                | found t ↦ (ok t, pause n l)
                | lost reason seq ↦ after_lost n alias reason (pause n l)
              ]).1
      go (found t) = paused
      go (lost reason seq) = missing reason n.rebinder

  after_resolve-Owed :
      (internal : Internal) (m : Message) (hash : String) (r : Outcome Target × Line)
      → Owed id 0 0 r.1
      → Owed id 0 0 (after_resolve n internal m hash r).1
  after_resolve-Owed internal m hash (err code, l) h = h
  after_resolve-Owed internal m hash (ok t, l) h = if-Owed id (is_stale internal t) _ _ h (
      after_reserve-Owed n id quiet internal m hash t.session (n.random_id l.waits 0) _ (
        reserve-Owed n id quiet (request_fields n m t hash (n.random_id l.waits 0)) m.id l refl
          (pause-Owed n id quiet 0 0 l h)))

  recover_resolved-Owed :
      (internal : Internal) (m : Message) (hash : String) (prior : Row) (r : Outcome Target × Line)
      → Owed id 0 0 r.1
      → Owed id 0 0 (recover_resolved n internal m hash prior r).1
  recover_resolved-Owed internal m hash prior (err code, l) h = h
  recover_resolved-Owed internal m hash prior (ok t, l) h =
      elim (Option-cases (snapshot_fault n prior m.alias t)) [
        | inr (code, fault) ↦ rw (recover_resolved, fault) h
        | inl same ↦
            rw (recover_resolved, same)
              (after_recovery-Owed n id quiet internal m t.session (n.random_id l.waits 0)
                (n.random_id l.waits 1) _
                (recovery-Owed n id quiet
                  (recovery_fields n m t hash (n.random_id l.waits 0) (n.random_id l.waits 1)) m.id
                  l refl (pause-Owed n id quiet 0 0 l h)))
      ]

  recover_send-Owed :
      (internal : Internal) (m : Message) (hash : String) (prior : Row) (l : Line)
      → Owed id 0 0 l
      → Owed id 0 0 (recover_send n internal m hash prior l).1
  unfolding recover_send
  recover_send-Owed internal m hash prior l h = go (list l.store.events (some 0) (some m.id))
    where
      go :
          (o : Outcome (List Row))
          → Owed id 0 0
              (elim o as (λ q. Outcome Sent × Line) [
                | err code ↦ (err code, l)
                | ok events ↦
                    if any (is_type "peer_terminal_failure") events
                    then (refuse "RECOVERY_FORBIDDEN", l)
                    else if not (n.is_allowed m.alias)
                    then (refuse "TARGET_UNAVAILABLE", l)
                    else recover_resolved n internal m hash prior (resolve n m.alias l)
              ]).1
      go (err code) = h
      go (ok events) = if-Owed id (any (is_type "peer_terminal_failure") events) _ _ h (
          if-Owed id (not (n.is_allowed m.alias)) _ _ h (
            recover_resolved-Owed internal m hash prior (resolve n m.alias l)
              (resolve-Owed m.alias l h)))

  with_prior-Owed :
      (internal : Internal) (m : Message) (hash : String) (o : Outcome (Option Row)) (l : Line)
      → Owed id 0 0 l
      → Owed id 0 0 (with_prior n internal m hash o l).1
  with_prior-Owed internal m hash (err code) l h = h
  with_prior-Owed internal m hash (ok none) l h =
      after_resolve-Owed internal m hash (resolve n m.alias l) (resolve-Owed m.alias l h)
  with_prior-Owed internal m hash (ok (some prior)) l h =
      if-Owed id (not (says prior.request_hash hash)) _ _ h
        (if-Owed id (is_recovery internal) _ _ (recover_send-Owed internal m hash prior l h) h)

  send_once-Owed :
      (internal : Internal) (m : Message) (l : Line)
      → Owed id 0 0 l
      → Owed id 0 0 (send_once n internal m l).1
  unfolding send_once
  send_once-Owed internal m l h =
      if-Owed id (is_stranger internal) _ _ h
        (if-Owed id (not (n.is_allowed m.alias)) _ _ h (go (canonical_send n m)))
    where
      go :
          (o : Outcome Text)
          → Owed id 0 0
              (elim o as (λ q. Outcome Sent × Line) [
                | err code ↦ (err code, l)
                | ok canonical ↦
                    with_prior n internal m
                      (n.sha256 canonical)
                      (request l.store.events (some m.id))
                      l
              ]).1
      go (err code) = h
      go (ok canonical) =
          with_prior-Owed internal m (n.sha256 canonical) (request l.store.events (some m.id)) l h

  -- After a send, whatever it answers and whatever fails on the way, each message has gone into a socket at most once for
  -- its request and once for its recovery, and each of these has at most one row, if that was so before and the
  -- rest of the daemon keeps the rows of that message and adds no second one.
  pub send-Owed :
      (reentrant : Bool) (internal : Internal) (alias : String) (i thread reply : Option Text)
      (kind body : Text) (l : Line)
      → Owed id 0 0 l
      → Owed id 0 0 (send n reentrant internal alias i thread reply kind body l).1
  unfolding send
  send-Owed reentrant internal alias i thread reply kind body l h = go _
    where
      go : (o : Outcome Message) → Owed id 0 0 (sent_in_turn n reentrant internal l o).1
      go (err code) = h
      go (ok m) =
          if-Owed id reentrant _ _ h
            (send_once-Owed internal m (pause n l) (pause-Owed n id quiet 0 0 l h))
