-- ===== src/Doorbells/Bounds.antt =====
-- Every operation of src/core/doorbell-service.mjs keeps the bounds of its claims, however it ends and
-- whatever its transports answer.
use universal_peer_mcp.Prelude.{
  ℕ, ◌≡◌, refl, Bool, true, false, not, Option, none, some, List, String, Text, str_eq, ◌==◌,
  find?-sound, and-eq-true, Outcome, ok, err, inl, inr, Bool-cases, Option-cases, if◌then◌else◌,
}
use universal_peer_mcp.Limits.{same_uuid}
use universal_peer_mcp.Ledger.{Row, Fields, Store, is_type}
use universal_peer_mcp.Ledger.Requests.{is_for}
use universal_peer_mcp.Receipts.{says}
use universal_peer_mcp.Doorbells.{
  Host, Bell, wait, send_out, woke, queued, wrote, Woken, woken, wake_failed, append_row,
  append_claim, post_of, id_of, has_session, Attempt, attempt_of, authorize, ring_code,
}
use universal_peer_mcp.Doorbells.Ring.{
  Rung, Mode, first, retry, plain, outcome_fields, with_state, record_outcome, wording_ok,
  ring_claude, same_version, queue_fallback, ring_codex, ring_attempt, intent_fields, intent_dup,
  after_claim, after_retry, retry_fields, ring_mode, expected_generation, ring,
}
use universal_peer_mcp.Doorbells.Counts.{Bounded, is_counted, append-Bounded, intent-Bounded}

-- A post that is found has the id that was asked for.
pub post_of-id :
    (id : Text) (events : List Row) (post : Row)
    → post_of id events ≡ some post
    → same_uuid post.message_id (some id) ≡ true
post_of-id id events post found =
    (and-eq-true (is_type "peer_post" post) _
      (find?-sound (is_for "peer_post" (some id)) events post found)).1

pub if-Bounded {ℓ} :
    {A : Type ℓ} (t : Bool) (x y : A × Bell)
    → Bounded x.1.store.events
    → Bounded y.1.store.events
    → Bounded (if t then x else y).1.store.events
if-Bounded true x y hx hy = hx
if-Bounded false x y hx hy = hy

-- What the rest of the daemon does while the service waits keeps the bounds.
abbrev pub Fair : Host → Type 0
Fair h = (k : ℕ) (s : Store) → Bounded s.events → Bounded (h.others k s).events

module _ (h : Host) (fair : Fair h) where
  pub append_row-Kept :
      (type : String) (fields : Fields) (b : Bell)
      → is_counted type ≡ false
      → Bounded b.store.events
      → Bounded (append_row h type fields b).1.store.events
  append_row-Kept type fields b plain_type k =
      append-Bounded h.line_bytes (h.moment b.waits) fields (h.others b.waits b.store) type
        plain_type (fair b.waits b.store k)

  pub record_outcome-Bounded :
      (post : Row) (attempt : Attempt) (state : String) (error : Option String) (b : Bell)
      → Bounded b.store.events
      → Bounded (record_outcome h post attempt state error b).1.store.events
  unfolding record_outcome
  record_outcome-Bounded post attempt state error b k =
      go (append_row h "doorbell_outcome" (outcome_fields post state error attempt) b)
        (append_row-Kept "doorbell_outcome" (outcome_fields post state error attempt) b refl k)
    where
      go :
          (r : Outcome Row × Bell)
          → Bounded r.1.store.events
          → Bounded (with_state state r).1.store.events
      go (ok row, c) k = k
      go (err code, c) k = k

  ring_claude-Bounded :
      (post : Row) (attempt : Attempt) (b : Bell)
      → Bounded b.store.events
      → Bounded (ring_claude h post attempt b).1.store.events
  unfolding ring_claude
  ring_claude-Bounded post attempt b k =
      if-Bounded (not h.sends_claude) _ _ (record_outcome-Bounded post attempt _ _ b k)
        (elim (Bool-cases (wording_ok h attempt b.store.events)) [
          | inr unknown ↦ rw unknown (record_outcome-Bounded post attempt _ _ b k)
          | inl known ↦
              rw known
                (elim (Option-cases
                  (authorize h b.waits post.recipient (id_of post) attempt b.store.events)) [
                    | inr (verdict, e) ↦ rw e (record_outcome-Bounded post attempt _ _ b k)
                    | inl allowed ↦ rw allowed (
                        record_outcome-Bounded post attempt _ _
                          (send_out h (wrote attempt.binding attempt.claude_id) b)
                          (fair b.waits b.store k))
                  ])
        ])

  queue_fallback-Bounded :
      (post : Row) (attempt : Attempt) (b : Bell)
      → Bounded b.store.events
      → Bounded (queue_fallback h post attempt b).1.store.events
  unfolding queue_fallback
  queue_fallback-Bounded post attempt b k = elim (Option-cases h.pinned_version) [
    | inl none_set ↦ rw (queue_fallback, none_set) (record_outcome-Bounded post attempt _ _ b k)
    | inr (pin, set) ↦ elim (Bool-cases (same_version (h.cli_version b.waits) pin)) [
      | inr other ↦ rw (queue_fallback, set, other) (record_outcome-Bounded post attempt _ _ c kc)
      | inl same ↦
          elim (Option-cases
            (authorize h c.waits post.recipient (id_of post) attempt c.store.events)) [
              | inr (verdict, e) ↦
                  rw (queue_fallback, set, same, e) (record_outcome-Bounded post attempt _ _ c kc)
              | inl allowed ↦ elim (Option-cases (h.enqueue c.waits)) [
                | inl went ↦
                    rw (queue_fallback, set, same, allowed, went)
                      (record_outcome-Bounded post attempt _ _
                        (send_out h (queued attempt.binding) c) (fair c.waits c.store kc))
                | inr (error, e) ↦
                    rw (queue_fallback, set, same, allowed, e)
                      (record_outcome-Bounded post attempt _ _
                        (send_out h (queued attempt.binding) c) (fair c.waits c.store kc))
              ]
            ]
    ]
  ]
    where
      c : Bell
      c = wait h b

      kc : Bounded c.store.events
      kc = fair b.waits b.store k

  ring_codex-Bounded :
      (post : Row) (attempt : Attempt) (b : Bell)
      → Bounded b.store.events
      → Bounded (ring_codex h post attempt b).1.store.events
  unfolding ring_codex
  ring_codex-Bounded post attempt b k =
      if-Bounded (not h.configured) _ _ (record_outcome-Bounded post attempt _ _ b k)
        (answered (h.wake b.waits))
    where
      c : Bell
      c = send_out h (woke attempt.binding attempt.attempt_key) b

      kc : Bounded c.store.events
      kc = fair b.waits b.store k

      answered :
          (answer : Woken)
          → Bounded
              (elim answer as (λ _. Outcome Rung × Bell) [
                | woken held ↦
                    record_outcome h post attempt (if held then "held" else "sent") none c
                | wake_failed error ↦
                    if str_eq (ring_code error) "DELIVERY_UNCERTAIN"
                    then record_outcome h post attempt "unknown" (some (ring_code error)) c
                    else if str_eq (ring_code error) "TARGET_UNAVAILABLE"
                    then queue_fallback h post attempt c
                    else record_outcome h post attempt "not_sent" (some (ring_code error)) c
              ]).1.store.events
      answered (woken held) = record_outcome-Bounded post attempt _ _ c kc
      answered (wake_failed error) =
          if-Bounded (str_eq (ring_code error) "DELIVERY_UNCERTAIN") _ _
            (record_outcome-Bounded post attempt _ _ c kc)
            (if-Bounded (str_eq (ring_code error) "TARGET_UNAVAILABLE") _ _
              (queue_fallback-Bounded post attempt c kc)
              (record_outcome-Bounded post attempt _ _ c kc))

  ring_attempt-Bounded :
      (post : Row) (expected : ℕ) (b : Bell)
      → Bounded b.store.events
      → Bounded (ring_attempt h post expected b).1.store.events
  unfolding ring_attempt
  ring_attempt-Bounded post expected b k =
      if-Bounded (not (attempt.generation == expected)) _ _ k
        (elim (Option-cases
          (authorize h b.waits post.recipient (id_of post) attempt b.store.events)) [
            | inr (verdict, e) ↦ rw e (record_outcome-Bounded post attempt _ _ b k)
            | inl allowed ↦ rw allowed (
                if-Bounded (says post.recipient_kind "claude") _ _
                  (ring_claude-Bounded post attempt b k) (ring_codex-Bounded post attempt b k))
          ])
    where
      attempt : Attempt
      attempt = attempt_of h post b.store.events

  ring_mode-Bounded :
      (id : Text) (mode : Mode) (post : Row) (expected : ℕ) (b : Bell)
      → same_uuid post.message_id (some id) ≡ true
      → Bounded b.store.events
      → Bounded (ring_mode h id mode post expected b).1.store.events
  unfolding ring_mode
  ring_mode-Bounded id plain post expected b same k = ring_attempt-Bounded post expected b k
  ring_mode-Bounded id retry post expected b same k =
      go (append_row h "doorbell_retry" (retry_fields post) b)
        (append_row-Kept "doorbell_retry" (retry_fields post) b refl k)
    where
      go :
          (r : Outcome Row × Bell)
          → Bounded r.1.store.events
          → Bounded (after_retry h post expected r).1.store.events
      go (ok row, c) kc = ring_attempt-Bounded post expected c kc
      go (err code, c) kc = kc
  ring_mode-Bounded id first post expected b same k =
      go (append_claim h "doorbell_intent" fields (intent_dup id) b) (
        intent-Bounded h.line_bytes (h.moment b.waits) fields (h.others b.waits b.store) id same
          (fair b.waits b.store k))
    where
      fields : Fields
      fields = intent_fields post b.store.events

      go :
          (r : Outcome Row × Bell)
          → Bounded r.1.store.events
          → Bounded (after_claim h post expected r).1.store.events
      go (ok row, c) kc = ring_attempt-Bounded post expected c kc
      go (err none, c) kc = kc
      go (err (some code), c) kc = if-Bounded (str_eq code "DUP") _ _ kc kc

  pub ring-Bounded :
      (id : Text) (mode : Mode) (generation : Option ℕ) (b : Bell)
      → Bounded b.store.events
      → Bounded (ring h id mode generation b).1.store.events
  unfolding ring
  ring-Bounded id mode generation b k =
      if-Bounded (h.is_running b.waits id) _ _ (fair b.waits b.store k)
        (elim (Option-cases (post_of id b.store.events)) [
          | inl unknown ↦ rw unknown k
          | inr (post, found) ↦ rw found (
              if-Bounded (has_session post) _ _
                (ring_mode-Bounded id mode post (expected_generation generation id b.store.events) b
                  (post_of-id id b.store.events post found) k)
                k)
        ])
