-- ===== src/Doorbells/Sends.antt =====
-- The pieces that an attempt sends (`#ringClaude`, `#queueFallback` and the wake of a Codex thread in
-- src/core/doorbell-service.mjs), each after its own check.
use universal_peer_mcp.Prelude.{
  ℕ, Text, ◌≡◌, refl, true, not, Option, none, some, String, str_eq, arith, Outcome, ok, err, inl,
  inr, Option-cases, if◌then◌else◌,
}
use universal_peer_mcp.Ledger.{Row, Fields, Store}
use universal_peer_mcp.Posts.Accept.{Grows, Grows-trans, append-Grows}
use universal_peer_mcp.Doorbells.{
  Host, Bell, Sent, wait, send_out, woke, queued, wrote, Woken, woken, wake_failed, append_row,
  id_of, is_some, Attempt, authorize, ring_code, or_else, binding_of,
}
use universal_peer_mcp.Doorbells.Ring.{
  Rung, outcome_fields, with_state, record_outcome, wording_ok, ring_claude, same_version,
  queue_fallback, ring_codex,
}
use universal_peer_mcp.Doorbells.Aims.{
  Later, Later-refl, Later-trans, May, Rings, quiet, sends, if-Rings, IsFound, Later-IsFound,
  authorize-May,
}

or_else-some : (o p : Option Text) → is_some o ≡ true → is_some (or_else o p) ≡ is_some o
or_else-some none p h = absurd (ground arith)
or_else-some (some t) p h = refl

module _ (h : Host) (adds : (k : ℕ) (s : Store) → Grows s (h.others k s)) where
  pub wait-Later : (b : Bell) → Later b (wait h b)
  wait-Later b = (adds b.waits b.store, omega arith, refl)

  pub append_row-Later :
      (type : String) (fields : Fields) (b : Bell) → Later b (append_row h type fields b).1
  append_row-Later type fields b = (
    Grows-trans b.store (h.others b.waits b.store) (append_row h type fields b).1.store
        (adds b.waits b.store)
        (append-Grows h.line_bytes (h.moment b.waits) type fields (h.others b.waits b.store)),
    omega arith,
    refl,
  )

  pub record_outcome-Later :
      (post : Row) (attempt : Attempt) (state : String) (error : Option String) (b : Bell)
      → Later b (record_outcome h post attempt state error b).1
  unfolding record_outcome
  record_outcome-Later post attempt state error b =
      go (append_row h "doorbell_outcome" (outcome_fields post state error attempt) b)
        (append_row-Later "doorbell_outcome" (outcome_fields post state error attempt) b)
    where
      go : (r : Outcome Row × Bell) → Later b r.1 → Later b (with_state state r).1
      go (ok row, c) e = e
      go (err code, c) e = e

  module _ (post : Row) (attempt : Attempt) (bound : is_some attempt.binding ≡ true) where
    recorded :
        (state : String) (error : Option String) (b : Bell)
        → Rings h post attempt b (record_outcome h post attempt state error b).1
    recorded state error b = quiet (record_outcome-Later post attempt state error b)

    again-May :
        (b : Bell)
        → IsFound post b
        → authorize h b.waits post.recipient (id_of post) attempt b.store.events ≡ none
        → May h post attempt b
    again-May b found allowed =
        (authorize-May h post attempt b found
          (or_else-some attempt.binding (binding_of post b.store.events) bound) allowed).1

    pub ring_claude-Rings :
        (b : Bell) → IsFound post b → Rings h post attempt b (ring_claude h post attempt b).1
    unfolding ring_claude
    ring_claude-Rings b found =
        if-Rings h post attempt b (not h.sends_claude) _ _ (recorded _ _ b) (
          if-Rings h post attempt b (not (wording_ok h attempt b.store.events)) _ _ (recorded _ _ b)
            (elim (Option-cases
              (authorize h b.waits post.recipient (id_of post) attempt b.store.events)) [
                | inr (verdict, e) ↦ rw e (recorded _ _ b)
                | inl allowed ↦ rw allowed (
                    sends (wrote attempt.binding attempt.claude_id) (Later-refl b)
                      (again-May b found allowed) refl
                      (recorded _ _ (send_out h (wrote attempt.binding attempt.claude_id) b)))
              ]))

    queue_fallback-Rings :
        (b : Bell) → IsFound post b → Rings h post attempt b (queue_fallback h post attempt b).1
    unfolding queue_fallback
    queue_fallback-Rings b found = pinned h.pinned_version
      where
        c : Bell
        c = wait h b

        piece : Sent
        piece = queued attempt.binding

        d : Bell
        d = send_out h piece c

        waited :
            (state : String) (error : Option String)
            → Rings h post attempt b (record_outcome h post attempt state error c).1
        waited state error = quiet (
            Later-trans b c (record_outcome h post attempt state error c).1 (wait-Later b)
              (record_outcome-Later post attempt state error c))

        asked :
            Rings h post attempt b
              (elim (authorize h c.waits post.recipient (id_of post) attempt c.store.events)
                as (λ _. Outcome Rung × Bell) [
                  | some verdict ↦ record_outcome h post attempt "not_sent" (some verdict) c
                  | none ↦ elim (h.enqueue c.waits) [
                    | none ↦ record_outcome h post attempt "held" none d
                    | some error ↦
                        record_outcome h post attempt
                          (if str_eq (ring_code error) "INVALID_QUEUE_CALL"
                            then "not_sent"
                            else "unknown")
                          (some (ring_code error))
                          d
                  ]
                ]).1
        asked =
            elim (Option-cases
              (authorize h c.waits post.recipient (id_of post) attempt c.store.events)) [
                | inr (verdict, e) ↦ rw e (waited "not_sent" (some verdict))
                | inl allowed ↦
                    let may = again-May c (Later-IsFound post b c (wait-Later b) found) allowed in
                    rw allowed (elim (Option-cases (h.enqueue c.waits)) [
                      | inl went ↦ rw went (sends piece (wait-Later b) may refl (recorded _ _ d))
                      | inr (error, e) ↦ rw e (sends piece (wait-Later b) may refl (recorded _ _ d))
                    ])
              ]

        pinned :
            (o : Option String)
            → Rings h post attempt b
                (elim o as (λ _. Outcome Rung × Bell) [
                  | none ↦ record_outcome h post attempt "not_sent" (some "VERSION_UNKNOWN") b
                  | some pin ↦
                      if not (same_version (h.cli_version b.waits) pin)
                      then record_outcome h post attempt "not_sent" (some "VERSION_MISMATCH") c
                      else elim (authorize h c.waits post.recipient
                          (id_of post)
                          attempt
                          c.store.events) [
                            | some verdict ↦
                                record_outcome h post attempt "not_sent" (some verdict) c
                            | none ↦ elim (h.enqueue c.waits) [
                              | none ↦ record_outcome h post attempt "held" none d
                              | some error ↦
                                  record_outcome h post attempt
                                    (if str_eq (ring_code error) "INVALID_QUEUE_CALL"
                                      then "not_sent"
                                      else "unknown")
                                    (some (ring_code error))
                                    d
                            ]
                          ]
                ]).1
        pinned none = recorded "not_sent" (some "VERSION_UNKNOWN") b
        pinned (some pin) =
            if-Rings h post attempt b (not (same_version (h.cli_version b.waits) pin)) _ _
              (waited _ _) asked

    pub ring_codex-Rings :
        (b : Bell)
        → IsFound post b
        → May h post attempt b
        → Rings h post attempt b (ring_codex h post attempt b).1
    unfolding ring_codex
    ring_codex-Rings b found may =
        if-Rings h post attempt b (not h.configured) _ _ (recorded _ _ b)
          (answered (h.wake b.waits))
      where
        c : Bell
        c = send_out h (woke attempt.binding attempt.attempt_key) b

        then_on : {d : Bell} → Rings h post attempt c d → Rings h post attempt b d
        then_on rest = sends (woke attempt.binding attempt.attempt_key) (Later-refl b) may refl rest

        answered :
            (answer : Woken)
            → Rings h post attempt b
                (elim answer as (λ _. Outcome Rung × Bell) [
                  | woken held ↦
                      record_outcome h post attempt (if held then "held" else "sent") none c
                  | wake_failed error ↦
                      if str_eq (ring_code error) "DELIVERY_UNCERTAIN"
                      then record_outcome h post attempt "unknown" (some (ring_code error)) c
                      else if str_eq (ring_code error) "TARGET_UNAVAILABLE"
                      then queue_fallback h post attempt c
                      else record_outcome h post attempt "not_sent" (some (ring_code error)) c
                ]).1
        answered (woken held) = then_on (recorded _ _ c)
        answered (wake_failed error) = then_on (
            if-Rings h post attempt c (str_eq (ring_code error) "DELIVERY_UNCERTAIN") _ _
              (recorded _ _ c)
              (if-Rings h post attempt c (str_eq (ring_code error) "TARGET_UNAVAILABLE") _ _
                (queue_fallback-Rings c (Later-IsFound post b (wait h b) (wait-Later b) found))
                (recorded _ _ c)))
