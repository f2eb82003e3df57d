-- ===== src/Doorbells/Keeps.antt =====
-- The hook, the sweep and the second chances of src/core/doorbell-service.mjs keep the bounds of its claims.
use universal_peer_mcp.Prelude.{
  ℕ, ◌+◌, refl, not, ◌&&◌, ◌||◌, Option, none, some, List, [], ◌∷◌, String, Text, ◌==◌, any,
  Outcome, ok, err, inl, inr, Option-cases, Outcome-cases,
}
use universal_peer_mcp.Ledger.{Row, is_type}
use universal_peer_mcp.Ledger.Requests.{is_for}
use universal_peer_mcp.Receipts.{says}
use universal_peer_mcp.Doorbells.{
  Host, Bell, wait, append_row, append_claim, post_of, outcome_of, is_done, id_of, has_session,
  generation_of, attempt_of,
}
use universal_peer_mcp.Doorbells.Ring.{Rung, first, retry, plain, record_outcome, ring}
use universal_peer_mcp.Doorbells.Sweep.{
  done_with, done_row, stale_fields, note_stale, on_append, alert_fields, is_young, after_alert,
  alert, resume, sweep_post, sweep_posts,
}
use universal_peer_mcp.Doorbells.Again.{
  rering_fields, Rings, rang, claim_again, is_dup, ring_pending, pending_not_sent, ring_again,
  joined_rings, has_pending, ring_aliases, relink_ring_test, relink_ring_fields, after_relink_claim,
  ring_relinked,
}
use universal_peer_mcp.Doorbells.Counts.{Bounded, rering-Bounded, relink-Bounded}
use universal_peer_mcp.Doorbells.Bounds.{
  Fair, if-Bounded, post_of-id, append_row-Kept, record_outcome-Bounded, ring-Bounded,
}

module _ (h : Host) (fair : Fair h) where
  done_with-Bounded :
      (r : Outcome Rung × Bell) → Bounded r.1.store.events → Bounded (done_with r).1.store.events
  done_with-Bounded (ok rung, b) k = k
  done_with-Bounded (err code, b) k = k

  pub on_append-Bounded :
      (row : Row) (b : Bell) → Bounded b.store.events → Bounded (on_append h row b).1.store.events
  unfolding on_append
  on_append-Bounded row b k = if-Bounded (is_type "peer_post_processed" row) _ _ noted (
      if-Bounded (is_type "peer_post" row && has_session row) _ _
        (done_with-Bounded (ring h (id_of row) first none b)
          (ring-Bounded h fair (id_of row) first none b k))
        k)
    where
      stale :
          (out : Row)
          → (r : Outcome Row × Bell) → Bounded r.1.store.events
          → Bounded (done_row r).1.store.events
      stale out (ok e, c) kc = kc
      stale out (err code, c) kc = kc

      noted : Bounded (note_stale h row b).1.store.events
      noted = elim (Option-cases (outcome_of (id_of row) b.store.events)) [
        | inl none_yet ↦ rw (note_stale, none_yet) k
        | inr (out, found) ↦
            rw (note_stale, found)
              (if-Bounded
                (says out.state "held"
                  && not (any (is_for "doorbell_stale" row.message_id) b.store.events))
                _ _
                (stale out (append_row h "doorbell_stale" (stale_fields row out) b)
                  (append_row-Kept h fair "doorbell_stale" (stale_fields row out) b refl k))
                k)
      ]

  alert-Bounded :
      (post outcome : Row) (b : Bell)
      → Bounded b.store.events
      → Bounded (alert h post outcome b).1.store.events
  unfolding alert
  alert-Bounded post outcome b k =
      if-Bounded (not (says outcome.state "not_sent") && not (says outcome.state "unknown")) _ _ k (
        if-Bounded (says outcome.state "unknown" && is_young h b.waits outcome) _ _ k (
          if-Bounded (any (is_for "doorbell_alerted" post.message_id) b.store.events) _ _ k (
            raised (append_row h "doorbell_alerted" (alert_fields post outcome) b)
              (append_row-Kept h fair "doorbell_alerted" (alert_fields post outcome) b refl k))))
    where
      raised :
          (r : Outcome Row × Bell)
          → Bounded r.1.store.events
          → Bounded (after_alert h r).1.store.events
      raised (ok row, c) kc = fair c.waits c.store kc
      raised (err code, c) kc = kc

  sweep_post-Bounded :
      (post : Row) (b : Bell)
      → Bounded b.store.events
      → Bounded (sweep_post h post b).1.store.events
  unfolding sweep_post resume
  sweep_post-Bounded post b k =
      if-Bounded (is_done (id_of post) b.store.events || h.is_running b.waits (id_of post)) _ _ k (
        if-Bounded (not (any (is_for "doorbell_intent" post.message_id) b.store.events)) _ _
          (done_with-Bounded (ring h (id_of post) first none b)
            (ring-Bounded h fair (id_of post) first none b k))
          (elim (Option-cases (outcome_of (id_of post) b.store.events)) [
            | inr (outcome, found) ↦ rw found (alert-Bounded post outcome b k)
            | inl none_yet ↦ rw none_yet (
                if-Bounded (any (is_for "doorbell_retry" post.message_id) b.store.events) _ _
                  (done_with-Bounded
                    (record_outcome h post (attempt_of h post b.store.events) "unknown"
                      (some "RETRY_EXHAUSTED") b)
                    (record_outcome-Bounded h fair post (attempt_of h post b.store.events) _ _ b k))
                  (done_with-Bounded (ring h (id_of post) retry none b)
                    (ring-Bounded h fair (id_of post) retry none b k)))
          ]))

  pub sweep_posts-Bounded :
      (posts : List Row) (b : Bell)
      → Bounded b.store.events
      → Bounded (sweep_posts h posts b).1.store.events
  unfolding sweep_posts
  sweep_posts-Bounded [] b k = k
  sweep_posts-Bounded (post ∷ posts) b k =
      let next = sweep_post-Bounded post b k in
      elim (Outcome-cases (sweep_post h post b).0) [
        | inl (u, e) ↦ rw (sweep_posts, e) (sweep_posts-Bounded posts (sweep_post h post b).1 next)
        | inr (code, e) ↦ rw (sweep_posts, e) next
      ]

  rang-Bounded :
      (rung : Rung) (r : Rings) → Bounded r.1.store.events → Bounded (rang rung r).1.store.events
  rang-Bounded rung (ok rest, b) k = k
  rang-Bounded rung (err code, b) k = k

  ring_pending-Bounded :
      (alias : String) (posts : List Row) (b : Bell)
      → Bounded b.store.events
      → Bounded (ring_pending h alias posts b).1.store.events
  unfolding ring_pending
  ring_pending-Bounded alias [] b k = k
  ring_pending-Bounded alias (post ∷ posts) b k = elim (Outcome-cases claimed.0) [
    | inr (code, e) ↦
        rw (ring_pending, e)
          (if-Bounded (is_dup code) _ _ (ring_pending-Bounded alias posts claimed.1 kc) kc)
    | inl (row, e) ↦ elim (Outcome-cases answered.0) [
      | inl (rung, f) ↦
          rw (ring_pending, e, f)
            (rang-Bounded rung (ring_pending h alias posts answered.1)
              (ring_pending-Bounded alias posts answered.1 ka))
      | inr (code, f) ↦ rw (ring_pending, e, f) ka
    ]
  ]
    where
      claimed : Outcome Row × Bell
      claimed = claim_again h alias post b

      kc : Bounded claimed.1.store.events
      kc =
          rering-Bounded h.line_bytes (h.moment b.waits) (rering_fields post alias)
            (h.others b.waits b.store) h (b.waits + 1) post refl (fair b.waits b.store k)

      answered : Outcome Rung × Bell
      answered = ring h (id_of post) plain none claimed.1

      ka : Bounded answered.1.store.events
      ka = ring-Bounded h fair (id_of post) plain none claimed.1 kc

  pub ring_again-Bounded :
      (alias : String) (binding : Option Text) (b : Bell)
      → Bounded b.store.events
      → Bounded (ring_again h alias binding b).1.store.events
  unfolding ring_again
  ring_again-Bounded alias binding b =
      ring_pending-Bounded alias (pending_not_sent h b.waits alias binding b.store.events) b

  joined_rings-Bounded :
      (done : List Rung) (r : Rings)
      → Bounded r.1.store.events
      → Bounded (joined_rings done r).1.store.events
  joined_rings-Bounded done (ok rest, b) k = k
  joined_rings-Bounded done (err code, b) k = k

  pub ring_aliases-Bounded :
      (aliases : List String) (b : Bell)
      → Bounded b.store.events
      → Bounded (ring_aliases h aliases b).1.store.events
  unfolding ring_aliases
  ring_aliases-Bounded [] b k = k
  ring_aliases-Bounded (alias ∷ aliases) b k = elim (Option-cases (h.claude_peer b.waits alias)) [
    | inl gone ↦ rw (ring_aliases, gone) (ring_aliases-Bounded aliases b k)
    | inr (session, named) ↦
        rw (ring_aliases, named)
          (if-Bounded (not (has_pending h b.waits alias session b.store.events)) _ _
            (ring_aliases-Bounded aliases b k)
            (if-Bounded (h.is_live b.waits session) _ _
              (alive (h.claude_peer b.waits alias) (ring_aliases-Bounded aliases))
              (ring_aliases-Bounded aliases (wait h b) (fair b.waits b.store k))))
  ]
    where
      alive :
          (binding : Option Text)
          → ((c : Bell)
              → Bounded c.store.events
              → Bounded (ring_aliases h aliases c).1.store.events)
          → Bounded
              (elim (ring_again h alias binding (wait h b)).0 as (λ _. Rings) [
                | ok done ↦
                    joined_rings done
                      (ring_aliases h aliases (ring_again h alias binding (wait h b)).1)
                | err code ↦ (err code, (ring_again h alias binding (wait h b)).1)
              ]).1.store.events
      alive binding rest =
          let kr = ring_again-Bounded alias binding (wait h b) (fair b.waits b.store k) in
          elim (Outcome-cases (ring_again h alias binding (wait h b)).0) [
            | inl (done, e) ↦ rw e (
                joined_rings-Bounded done
                  (ring_aliases h aliases (ring_again h alias binding (wait h b)).1)
                  (rest (ring_again h alias binding (wait h b)).1 kr))
            | inr (code, e) ↦ rw e kr
          ]

  pub ring_relinked-Bounded :
      (id : Text) (b : Bell)
      → Bounded b.store.events
      → Bounded (ring_relinked h id b).1.store.events
  unfolding ring_relinked
  ring_relinked-Bounded id b k = elim (Option-cases (post_of id b.store.events)) [
    | inl unknown ↦ rw (ring_relinked, unknown) k
    | inr (post, found) ↦
        rw (ring_relinked, found)
          (if-Bounded (is_done id b.store.events || generation_of post b.store.events == 0) _ _ k (
            rung (id_of post) (generation_of post b.store.events)
              (append_claim h "doorbell_relink_ring"
                (relink_ring_fields post (generation_of post b.store.events) b.store.events)
                (relink_ring_test id (generation_of post b.store.events)) b)
              (relink-Bounded h.line_bytes (h.moment b.waits)
                (relink_ring_fields post (generation_of post b.store.events) b.store.events)
                (h.others b.waits b.store) id (generation_of post b.store.events)
                (post_of-id id b.store.events post found) refl (fair b.waits b.store k))))
  ]
    where
      rung :
          (i : Text) (g : ℕ) (r : Outcome Row × Bell)
          → Bounded r.1.store.events
          → Bounded (after_relink_claim h i g r).1.store.events
      rung i g (err code, c) kc = if-Bounded (is_dup code) _ _ kc kc
      rung i g (ok row, c) kc =
          let kr = ring-Bounded h fair i plain (some g) c kc in
          elim (Outcome-cases (ring h i plain (some g) c).0) [
            | inl (done, e) ↦ rw (after_relink_claim, e) kr
            | inr (code, e) ↦ rw (after_relink_claim, e) kr
          ]
