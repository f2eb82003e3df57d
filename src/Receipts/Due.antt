-- ===== src/Receipts/Due.antt =====
-- What a receipt that is due says of the ledger (`receiptsDue` of src/core/receipts.mjs).
use universal_peer_mcp.Prelude.{
  ℕ, ◌+◌, ◌≤◌, ◌≡◌, ◌⊎◌, refl, Bool, true, false, not, ◌&&◌, ◌||◌, Option, none, some, List, [],
  ◌∷◌, String, Text, arith, any, find?, filter, map, same_text, All, All-append, leb, inl, inr,
  Bool-cases, Option-cases,
}
use universal_peer_mcp.Ledger.{Row, is_type}
use universal_peer_mcp.Posts.Inbox.{lower_id}
use universal_peer_mcp.Receipts.{
  says, is_quiet, of_id, answers, receipt_index, Receipt, Binding, sender_binding, outcome_states,
  reply_states, states_due, receipt_of, has_alias, receipts_due, reply_grace_ms, state_id,
}

-- The message with this id is not marked as processed, and the first outcome of its doorbell is that it
-- was not sent, for a reason that matters, or that it was held.
abbrev pub NotRung : List Row → Text → String → Type 0
NotRung events id state =
    (find? (of_id "peer_post_processed" id) events ≡ none)
    × (first : Row) × (find? (of_id "doorbell_outcome" id) events ≡ some first)
    × (((state ≡ "not_delivered")
          × (says first.state "not_sent" ≡ true)
          × (is_quiet first.error_code ≡ false))
        ⊎ ((state ≡ "queued_busy") × (says first.state "held" ≡ true)))

-- The message asked for an answer, and the time that its reader has for one is over.
abbrev pub Overdue : List Row → Text → Row → ℕ → String → Type 0
Overdue events id post now state =
    (state ≡ "no_reply_yet")
    × (post.expect_reply ≡ true)
    × (done : Row) × (find? (of_id "peer_post_processed" id) events ≡ some done)
    × (done.at + reply_grace_ms ≤ now)

abbrev pub Reason : List Row → Row → ℕ → String × Option String → Type 0
Reason events post now (state, code) =
    (any (answers (lower_id post)) events ≡ false)
    × (NotRung events (lower_id post) state ⊎ Overdue events (lower_id post) post now state)

-- A receipt says something of the ledger, and no post has its id.
abbrev pub Warranted : List Row → Row → ℕ → Receipt → Type 0
Warranted events post now r =
    (any (of_id "peer_post" r.receipt_id) events ≡ false)
    × Reason events post now (r.receipt_state, r.receipt_code)

module _ (events : List Row) (post : Row) (now : ℕ) where
  outcome_states-Reason :
      any (answers (lower_id post)) events ≡ false
      → All (Reason events post now) (outcome_states (receipt_index events) (lower_id post))
  unfolding receipt_index
  outcome_states-Reason open' = elim (Option-cases (find? (of_id "doorbell_outcome" id) events)) [
    | inl silent ↦ rw (outcome_states, silent) tt
    | inr (first, rang) ↦
        rw (outcome_states, rang)
          (elim (Option-cases (find? (of_id "peer_post_processed" id) events)) [
            | inr (done, found) ↦ rw found tt
            | inl unread ↦
                rw unread
                  (elim (Bool-cases
                    (says first.state "not_sent" && not (is_quiet first.error_code))) [
                      | inl lost ↦ rw lost (
                        (open', inl (unread, first, rang, inl (refl, ground arith, ground arith))),
                        tt,
                      )
                      | inr other ↦ rw other (elim (Bool-cases (says first.state "held")) [
                        | inl held ↦
                            rw held ((open', inl (unread, first, rang, inr (refl, held))), tt)
                        | inr sent ↦ rw sent tt
                      ])
                    ])
          ])
  ]
    where
      id : Text
      id = lower_id post

  reply_states-Reason :
      any (answers (lower_id post)) events ≡ false
      → All (Reason events post now) (reply_states (receipt_index events) (lower_id post) post now)
  unfolding receipt_index
  reply_states-Reason open' = elim (Bool-cases asked) [
    | inr silent ↦ rw silent tt
    | inl asks ↦
        rw asks (elim (Option-cases (find? (of_id "peer_post_processed" (lower_id post)) events)) [
          | inl unread ↦ rw unread tt
          | inr (done, found) ↦ rw found (elim (Bool-cases (leb (done.at + reply_grace_ms) now)) [
            | inr early ↦ rw early tt
            | inl late ↦ rw late ((open', inr (refl, ground arith, done, found, ground arith)), tt)
          ])
        ])
  ]
    where
      asked : Bool
      asked = post.expect_reply && elim post.reply_to [ none ↦ true | some r ↦ same_text r [] ]

  kept-Warranted :
      (sha1 : List ℕ → List ℕ) (binding : Binding) (states : List (String × Option String))
      → All (Reason events post now) states
      → All (Warranted events post now) (
          filter
            (λ r. not ((receipt_index events).posts r.receipt_id))
            (map (receipt_of sha1 post binding) states))
  unfolding receipt_index
  kept-Warranted sha1 binding [] reasons = tt
  kept-Warranted sha1 binding ((state, code) ∷ states) (reason, reasons) =
      elim (Bool-cases (any (of_id "peer_post" (state_id sha1 state (lower_id post))) events)) [
        | inl sent ↦ rw sent (kept-Warranted sha1 binding states reasons)
        | inr new ↦ rw new ((new, reason), kept-Warranted sha1 binding states reasons)
      ]

-- Every receipt that is due for a post says what is so: the post has no answer in the ledger, and
-- either it is unread and its doorbell failed or was held, or it asked for an answer and the reader's
-- time is over; and the receipt has not been posted. A receipt itself has no receipts.
pub receipts_due-Warranted :
    (sha1 : List ℕ → List ℕ) (events : List Row) (post : Row) (now : ℕ)
    → All (Warranted events post now) (receipts_due sha1 post (receipt_index events) now)
      × (says post.source "receipt" ≡ true → receipts_due sha1 post (receipt_index events) now ≡ [])
unfolding receipts_due receipt_index
receipts_due-Warranted sha1 events post now = (
  elim (Bool-cases
      (not (is_type "peer_post" post) || (says post.source "receipt" || not (has_alias post)))) [
        | inl none_due ↦ rw none_due tt
        | inr plain ↦ rw plain (elim (Option-cases (sender_binding post)) [
          | inl unbound ↦ rw unbound tt
          | inr (binding, bound) ↦ rw bound (
              kept-Warranted events post now sha1 binding
                (states_due (receipt_index events) (lower_id post) post now) states)
        ])
      ],
  λ receipt. ground arith,
)
  where
    states :
        All (Reason events post now) (states_due (receipt_index events) (lower_id post) post now)
    states = elim (Bool-cases (any (answers (lower_id post)) events)) [
      | inl answered ↦ rw answered tt
      | inr waiting ↦ rw waiting (
          All-append (Reason events post now)
            (outcome_states (receipt_index events) (lower_id post))
            (reply_states (receipt_index events) (lower_id post) post now)
            (outcome_states-Reason events post now waiting)
            (reply_states-Reason events post now waiting))
    ]
