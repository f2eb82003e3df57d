-- ===== src/Receipts/Sends.antt =====
-- When a receipt is posted (`#send`, `sweep` and `onAppend` of src/core/receipts.mjs).
use universal_peer_mcp.Prelude.{
  ℕ, arith, ◌+◌, ◌≡◌, refl, Bool, true, List, [], ◌∷◌, All, any, same_text, same_text_sound,
  Outcome, ok, err, inl, inr, Bool-cases, Option-cases, Outcome-cases,
}
use universal_peer_mcp.Ledger.{Store}
use universal_peer_mcp.Posts.{World, Accepted, accept_post}
use universal_peer_mcp.Receipts.{
  Receipt, receipt_index, receipt_post, receipts_due, still_due, sent_with, send, cutoff, all_due,
  sweep_receipts,
}
use universal_peer_mcp.Receipts.Due.{Warranted, receipts_due-Warranted}

any-All {ℓ κ} :
    {A : Type ℓ} (P : A → Type κ) (p : A → Bool) (xs : List A)
    → All P xs
    → any p xs ≡ true
    → (x : A) × P x × (p x ≡ true)
any-All P p [] h e = absurd (ground arith)
any-All P p (x ∷ xs) (here, later) e = elim (Bool-cases (p x)) [
  | inl hit ↦ (x, here, hit)
  | inr miss ↦ any-All P p xs later (rw (any, miss) at e)
]

module _ (sha1 : List ℕ → List ℕ) (wording : Receipt → List ℕ) (worlds : ℕ → World)
    (clock : ℕ → ℕ) where
  -- From the `k`th turn on, all posts that change the ledger are of receipts that the ledger of their turn warrants.
  pub data Posting : ℕ → Store → Store → Type 0 where
    over : {k : ℕ} {s : Store} → Posting k s s
    passes : {k : ℕ} {s t : Store} → Posting (k + 1) s t → Posting k s t
    posts :
        {k : ℕ} {s t : Store} (r due : Receipt)
        → due.receipt_id ≡ r.receipt_id
        → Warranted s.events r.original (clock k) due
        → Posting (k + 1) (accept_post (worlds k) (receipt_post sha1 wording r) s).1 t
        → Posting k s t

  sent_with-store : (a : Accepted) (r : Outcome (List Accepted) × Store) → (sent_with a r).1 ≡ r.1
  sent_with-store a (ok rest, s) = refl
  sent_with-store a (err code, s) = refl

  still_due-Warranted :
      (r : Receipt) (s : Store) (now : ℕ)
      → still_due sha1 wording r s.events now ≡ true
      → (due : Receipt) × Warranted s.events r.original now due
        × (same_text due.receipt_id r.receipt_id ≡ true)
  still_due-Warranted r s now h =
      any-All (Warranted s.events r.original now) (λ d. same_text d.receipt_id r.receipt_id)
        (receipts_due sha1 r.original (receipt_index s.events) now)
        (receipts_due-Warranted sha1 s.events r.original now).0 h

  send-Posting :
      (k : ℕ) (receipts : List Receipt) (s : Store)
      → Posting k s (send sha1 wording worlds clock k receipts s).1
  unfolding send
  send-Posting k [] s = over
  send-Posting k (r ∷ rs) s = elim (Bool-cases (still_due sha1 wording r s.events (clock k))) [
    | inr settled ↦ rw (send, settled) (passes (send-Posting (k + 1) rs s))
    | inl still ↦
        let (due, why, same) = still_due-Warranted r s (clock k) still in
        elim (Outcome-cases (accept_post (worlds k) (receipt_post sha1 wording r) s).0) [
          | inr (code, failed) ↦
              rw (send, still, failed)
                (posts r due (same_text_sound due.receipt_id r.receipt_id same) why over)
          | inl (a, accepted) ↦
              rw
                (
                  send,
                  still,
                  accepted,
                  sent_with-store a (
                      send sha1 wording worlds clock (k + 1) rs
                        (accept_post (worlds k) (receipt_post sha1 wording r) s).1),
                )
                (posts r due (same_text_sound due.receipt_id r.receipt_id same) why (
                  send-Posting (k + 1) rs
                    (accept_post (worlds k) (receipt_post sha1 wording r) s).1))
        ]
  ]

  -- A sweep changes the ledger only by posts of receipts, and each of them is posted while the ledger of that turn,
  -- which other operations may have changed since the sweep began, still warrants a receipt of that id: it is
  -- not posted yet, its message has no answer, and it is unread after a doorbell that failed or was held, or
  -- overdue for an answer.
  pub sweep_receipts-Posting :
      (now : ℕ) (s : Store) → Posting 0 s (sweep_receipts sha1 wording worlds clock now s).1
  unfolding sweep_receipts
  sweep_receipts-Posting now s = elim (Option-cases (cutoff s.events)) [
    | inl off ↦ rw (sweep_receipts, off) over
    | inr (n, on) ↦
        rw (sweep_receipts, on)
          (send-Posting 0 (all_due sha1 (receipt_index s.events) s.events now s.events) s)
  ]
