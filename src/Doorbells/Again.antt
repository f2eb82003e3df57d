-- ===== src/Doorbells/Again.antt =====
-- The second chances of src/core/doorbell-service.mjs: `eligibleAgain`, `pendingNotSent`, `ringAgain`,
-- `ringReturnedClaude` and `ringRelinked`. The maps of `againIndex` are lists and counts of rows.
use universal_peer_mcp.Prelude.{
  ℕ, ◌+◌, Bool, true, false, not, ◌&&◌, ◌||◌, Option, none, some, List, [], ◌∷◌, ◌++◌, String, Text,
  lower, same_text, ltb, str_eq, ◌==◌, if◌then◌else◌, any, all, filter, count, Outcome, ok, err,
}
use universal_peer_mcp.Limits.{same_uuid}
use universal_peer_mcp.Ledger.{Row, Fields, no_fields, is_type}
use universal_peer_mcp.Ledger.Requests.{is_for}
use universal_peer_mcp.Receipts.{says}
use universal_peer_mcp.Doorbells.{
  Host, Bell, wait, append_claim, post_of, is_done, id_of, has_session, generation_of, binding_of,
  current_peer,
}
use universal_peer_mcp.Doorbells.Ring.{Rung, plain, ring}

-- `MAX_RERINGS`
abbrev pub max_rerings : ℕ
max_rerings = 2

-- `QUIET`
abbrev pub is_quiet_code : Option String → Bool
is_quiet_code code =
    says code "DOORBELL_NOT_CONFIGURED"
    || (says code "WAKE_ALREADY_PROCESSED" || says code "WAKE_TARGET_MISMATCH")

-- The rows of one type with an id, by its lower case.
abbrev pub keyed : String → Text → Row → Bool
keyed type id row =
    is_type type row
    && elim row.message_id [ none ↦ false | some m ↦ same_text (lower m) (lower id) ]

-- What the outcomes of a message say: there is one, none of them went out, and the first is not quiet.
abbrev pub all_not_sent : List Row → Bool
all_not_sent [] = false
all_not_sent (first ∷ rest) =
    all (λ e. says e.state "not_sent") (first ∷ rest) && not (is_quiet_code first.error_code)

abbrev pub peer_now : Host → ℕ → Row → Option Text
peer_now h k post = elim post.recipient [
  | none ↦ none
  | some alias ↦ if has_session post then current_peer h k post alias else none
]

-- `eligibleAgain`, on the ledger `events`, with the index of that ledger.
unfoldable pub eligible_again : Host → ℕ → List Row → Row → Bool
eligible_again h k events post =
    generation_of post events == 0
    && (ltb (count (keyed "doorbell_rering" (id_of post)) events) max_rerings
        && (all_not_sent (filter (keyed "doorbell_outcome" (id_of post)) events)
            && (not (any (keyed "peer_post_processed" (id_of post)) events)
                && (not (h.is_running k (id_of post))
                    && same_uuid (peer_now h k post) (binding_of post events)))))

abbrev pub bound_to : Option Text → Row → List Row → Bool
bound_to none post events = true
bound_to (some binding) post events = same_uuid (binding_of post events) (some binding)

-- `pendingNotSent`
unfoldable pub pending_not_sent : Host → ℕ → String → Option Text → List Row → List Row
unfolding eligible_again
pending_not_sent h k alias binding events =
    filter
      (λ post.
        is_type "peer_post" post
        && (says post.recipient alias
            && (has_session post
                && (bound_to binding post events && eligible_again h k events post))))
      events

-- The `trigger` is not kept.
abbrev pub rering_fields : Row → String → Fields
rering_fields post alias = record no_fields { message_id = post.message_id; recipient = some alias }

-- The claim of a re-ring, decided again inside the chain.
abbrev pub rering_test : Host → ℕ → Row → List Row → Option String
rering_test h k post events = if eligible_again h k events post then none else some "DUP"

abbrev pub Rings : Type 0
Rings = Outcome (List Rung) × Bell

abbrev pub rang : Rung → Rings → Rings
rang rung (ok rest, b) = (ok (rung ∷ rest), b)
rang rung (err code, b) = (err code, b)

abbrev pub claim_again : Host → String → Row → Bell → Outcome Row × Bell
claim_again h alias post b =
    append_claim h "doorbell_rering" (rering_fields post alias) (rering_test h (b.waits + 1) post) b

abbrev pub is_dup : Option String → Bool
is_dup none = false
is_dup (some code) = str_eq code "DUP"

-- The loop of `ringAgain`.
unfoldable pub ring_pending : Host → String → List Row → Bell → Rings
ring_pending h alias [] b = (ok [], b)
ring_pending h alias (post ∷ posts) b =
    let claimed = claim_again h alias post b in
    let answered = ring h (id_of post) plain none claimed.1 in
    let rest = ring_pending h alias posts answered.1 in
    let skipped = ring_pending h alias posts claimed.1 in
    elim claimed.0 [
      | err code ↦ if is_dup code then skipped else (err code, claimed.1)
      | ok row ↦ elim answered.0 [ ok rung ↦ rang rung rest | err code ↦ (err code, answered.1) ]
    ]

-- `ringAgain`
unfoldable pub ring_again : Host → String → Option Text → Bell → Rings
unfolding ring_pending pending_not_sent
ring_again h alias binding b =
    ring_pending h alias (pending_not_sent h b.waits alias binding b.store.events) b

abbrev pub joined_rings : List Rung → Rings → Rings
joined_rings done (ok rest, b) = (ok (done ++ rest), b)
joined_rings done (err code, b) = (err code, b)

abbrev pub has_pending : Host → ℕ → String → Text → List Row → Bool
has_pending h k alias session events = elim (pending_not_sent h k alias (some session) events) [
  | [] ↦ false
  | post ∷ posts ↦ true
]

-- The loop of `ringReturnedClaude`: the session is asked for its liveness, which waits.
unfoldable pub ring_aliases : Host → List String → Bell → Rings
unfolding ring_again
ring_aliases h [] b = (ok [], b)
ring_aliases h (alias ∷ aliases) b =
    let skipped = ring_aliases h aliases b in
    let asleep = ring_aliases h aliases (wait h b) in
    let rung = ring_again h alias (h.claude_peer b.waits alias) (wait h b) in
    let rest = ring_aliases h aliases rung.1 in
    elim (h.claude_peer b.waits alias) [
      | none ↦ skipped
      | some session ↦
          if not (has_pending h b.waits alias session b.store.events)
          then skipped
          else if h.is_live b.waits session
          then elim rung.0 [ ok done ↦ joined_rings done rest | err code ↦ (err code, rung.1) ]
          else asleep
    ]

abbrev pub is_lost_claude : Row → Bool
is_lost_claude row =
    is_type "doorbell_outcome" row
    && (says row.state "not_sent" && says row.recipient_kind "claude")

-- The `Set` of the recipients, in the order of their first rows.
abbrev pub add_alias : List String → Option String → List String
add_alias aliases none = aliases
add_alias aliases (some a) = if any (str_eq a) aliases then aliases else aliases ++ a ∷ []

unfoldable pub lost_aliases : List String → List Row → List String
lost_aliases aliases [] = aliases
lost_aliases aliases (row ∷ rows) =
    lost_aliases (if is_lost_claude row then add_alias aliases row.recipient else aliases) rows

-- `ringReturnedClaude`
unfoldable pub ring_returned_claude : Host → Bell → Rings
unfolding ring_aliases lost_aliases
ring_returned_claude h b = ring_aliases h (lost_aliases [] b.store.events) b

-- One ring for each relink of a message.
abbrev pub is_relink_ring : Text → ℕ → Row → Bool
is_relink_ring id g row =
    is_for "doorbell_relink_ring" (some id) row
    && elim row.relink_seq [ none ↦ false | some n ↦ n == g ]

abbrev pub relink_ring_test : Text → ℕ → List Row → Option String
relink_ring_test id g events =
    if any (λ e. is_for "peer_post_processed" (some id) e || is_relink_ring id g e) events
    then some "DUP"
    else none

abbrev pub relink_ring_fields : Row → ℕ → List Row → Fields
relink_ring_fields post g events = record no_fields {
  message_id = post.message_id;
  recipient = post.recipient;
  thread_id = binding_of post events;
  relink_seq = some g;
}

abbrev pub after_relink_claim : Host → Text → ℕ → Outcome Row × Bell → Outcome (Option Rung) × Bell
after_relink_claim h id g (err code, b) = if is_dup code then (ok none, b) else (err code, b)
after_relink_claim h id g (ok row, b) = elim (ring h id plain (some g) b).0 [
  | ok rung ↦ (ok (some rung), (ring h id plain (some g) b).1)
  | err code ↦ (err code, (ring h id plain (some g) b).1)
]

-- `ringRelinked`
unfoldable pub ring_relinked : Host → Text → Bell → Outcome (Option Rung) × Bell
ring_relinked h id b = elim (post_of id b.store.events) [
  | none ↦ (ok none, b)
  | some post ↦
      let g = generation_of post b.store.events in
      if is_done id b.store.events || g == 0
      then (ok none, b)
      else after_relink_claim h (id_of post) g (
          append_claim h "doorbell_relink_ring" (relink_ring_fields post g b.store.events)
            (relink_ring_test id g) b)
]
