-- ===== src/Doorbells/Targets.antt =====
-- A ring of src/core/doorbell-service.mjs sends only while it may.
use universal_peer_mcp.Prelude.{
  ◌≡◌, ◌∙◌, refl, sym, ap, subst, Bool, true, false, Option, none, some, find?, List, String, Text,
  arith, str_eq, ◌==◌, Outcome, ok, err, inl, inr, Bool-cases, Option-cases, if◌then◌else◌, ℕ,
}
use universal_peer_mcp.Limits.{same_uuid}
use universal_peer_mcp.Ledger.{Row, Fields, Store}
use universal_peer_mcp.Receipts.{says}
use universal_peer_mcp.Doorbells.{
  Host, Bell, wait, append_row, append_claim, post_of, id_of, has_session, Attempt, attempt_of,
  authorize, or_else, text_or_empty, is_some,
}
use universal_peer_mcp.Doorbells.Ring.{
  Rung, Mode, first, retry, plain, ring_attempt, intent_fields, intent_dup, after_claim,
  after_retry, retry_fields, ring_mode, expected_generation, ring,
}
use universal_peer_mcp.Posts.Accept.{Grows, Grows-trans, append_checked-Grows}
use universal_peer_mcp.Ledger.Requests.{is_for}
use universal_peer_mcp.Ledger.Reserve.{is_for-congr}
use universal_peer_mcp.Doorbells.Bounds.{post_of-id}
use universal_peer_mcp.Doorbells.Aims.{
  Later, Later-refl, Later-trans, Rings, quiet, IsFound, Later-IsFound, authorize-May,
}
use universal_peer_mcp.Doorbells.Sends.{
  wait-Later, append_row-Later, record_outcome-Later, ring_claude-Rings, ring_codex-Rings,
}

-- The attempt that is made at some moment after `b`, before which nothing is sent, sends what is sent up to `d`.
abbrev pub Allowed : Host → Row → Bell → Bell → Type 0
Allowed h post b d = (c : Bell) × Later b c × Rings h post (attempt_of h post c.store.events) c d

or_else-same : (o : Option Text) → or_else o o ≡ o
or_else-same none = refl
or_else-same (some t) = refl

some_id : (m : Option Text) (id : Text) → same_uuid m (some id) ≡ true → m ≡ some (text_or_empty m)
unfolding same_uuid
some_id none id h = absurd (ground arith)
some_id (some t) id h = refl

-- A post that is found by an id is found by its own.
post_of-own :
    (id : Text) (events : List Row) (post : Row)
    → post_of id events ≡ some post
    → post_of (id_of post) events ≡ some post
post_of-own id events post found =
    let same = post_of-id id events post found in
    subst (λ (p : Row → Bool). find? p events ≡ some post)
      (sym (is_for-congr "peer_post" post.message_id (some id) same)
        ∙ ap (is_for "peer_post") (some_id post.message_id id same))
      found

Allowed-from :
    (h : Host) (post : Row) (b c d : Bell) → Later b c → Allowed h post c d → Allowed h post b d
Allowed-from h post b c d later (e, further, rings) = (e, Later-trans b c e later further, rings)

Allowed-quiet : (h : Host) (post : Row) (b c : Bell) → Later b c → Allowed h post b c
Allowed-quiet h post b c later = (b, Later-refl b, quiet later)

if-Allowed :
    (h : Host) (post : Row) (b : Bell) (t : Bool) (x y : Outcome Rung × Bell)
    → Allowed h post b x.1
    → Allowed h post b y.1
    → Allowed h post b (if t then x else y).1
if-Allowed h post b true x y p q = p
if-Allowed h post b false x y p q = q

module _ (h : Host) (adds : (k : ℕ) (s : Store) → Grows s (h.others k s)) where
  ring_attempt-Allowed :
      (post : Row) (expected : ℕ) (b : Bell)
      → IsFound post b
      → Allowed h post b (ring_attempt h post expected b).1
  unfolding ring_attempt attempt_of
  ring_attempt-Allowed post expected b found = elim (Bool-cases (attempt.generation == expected)) [
    | inr stale ↦ rw (ring_attempt, stale) (Allowed-quiet h post b b (Later-refl b))
    | inl current ↦ elim (Option-cases verdict) [
      | inr (code, e) ↦
          rw (ring_attempt, current, e)
            (Allowed-quiet h post b _
              (record_outcome-Later h adds post attempt "not_sent" (some code) b))
      | inl allowed ↦
          let (bound, may) =
            authorize-May h post attempt b found (ap is_some (or_else-same attempt.binding))
              allowed in
          rw (ring_attempt, current, allowed)
            (elim (Bool-cases (says post.recipient_kind "claude")) [
              | inl claude ↦
                  rw claude (b, Later-refl b, ring_claude-Rings h adds post attempt bound b found)
              | inr codex ↦
                  rw codex (b, Later-refl b, ring_codex-Rings h adds post attempt bound b found may)
            ])
    ]
  ]
    where
      attempt : Attempt
      attempt = attempt_of h post b.store.events

      verdict : Option String
      verdict = authorize h b.waits post.recipient (id_of post) attempt b.store.events

  append_claim-Later :
      (type : String) (fields : Fields) (test : List Row → Option String) (b : Bell)
      → Later b (append_claim h type fields test b).1
  append_claim-Later type fields test b = (
    Grows-trans b.store (h.others b.waits b.store) (append_claim h type fields test b).1.store
        (adds b.waits b.store)
        (append_checked-Grows h.line_bytes (h.moment b.waits) type fields test
          (h.others b.waits b.store)),
    omega arith,
    refl,
  )

  ring_mode-Allowed :
      (id : Text) (mode : Mode) (post : Row) (expected : ℕ) (b : Bell)
      → IsFound post b
      → Allowed h post b (ring_mode h id mode post expected b).1
  unfolding ring_mode
  ring_mode-Allowed id plain post expected b found = ring_attempt-Allowed post expected b found
  ring_mode-Allowed id retry post expected b found =
      go (append_row h "doorbell_retry" (retry_fields post) b)
        (append_row-Later h adds "doorbell_retry" (retry_fields post) b)
    where
      go :
          (r : Outcome Row × Bell)
          → Later b r.1
          → Allowed h post b (after_retry h post expected r).1
      go (ok row, c) later =
          Allowed-from h post b c (ring_attempt h post expected c).1 later
            (ring_attempt-Allowed post expected c (Later-IsFound post b c later found))
      go (err code, c) later = Allowed-quiet h post b c later
  ring_mode-Allowed id first post expected b found =
      go (append_claim h "doorbell_intent" (intent_fields post b.store.events) (intent_dup id) b)
        (append_claim-Later "doorbell_intent" (intent_fields post b.store.events) (intent_dup id) b)
    where
      go :
          (r : Outcome Row × Bell)
          → Later b r.1
          → Allowed h post b (after_claim h post expected r).1
      go (ok row, c) later =
          Allowed-from h post b c (ring_attempt h post expected c).1 later
            (ring_attempt-Allowed post expected c (Later-IsFound post b c later found))
      go (err none, c) later = Allowed-quiet h post b c later
      go (err (some code), c) later = elim (Bool-cases (str_eq code "DUP")) [
        | inl dup ↦ rw dup (Allowed-quiet h post b c later)
        | inr other ↦ rw other (Allowed-quiet h post b c later)
      ]

  -- Each piece that a call of `ring` sends goes out at a moment at which its message was not processed and not linked
  -- again since the attempt was made, and the alias of the recipient names the session or thread that the post
  -- was bound to then; and it goes to that session or thread. The rest of the daemon only adds rows.
  pub ring-Allowed :
      (id : Text) (mode : Mode) (generation : Option ℕ) (b : Bell) (post : Row)
      → post_of id b.store.events ≡ some post
      → Allowed h post b (ring h id mode generation b).1
  unfolding ring
  ring-Allowed id mode generation b post found =
      rw (ring, found)
        (if-Allowed h post b (h.is_running b.waits id) _ _
          (Allowed-quiet h post b (wait h b) (wait-Later h adds b))
          (if-Allowed h post b (has_session post) _ _
            (ring_mode-Allowed id mode post (expected_generation generation id b.store.events) b
              (post_of-own id b.store.events post found))
            (Allowed-quiet h post b b (Later-refl b))))
