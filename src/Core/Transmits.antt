-- ===== src/Core/Transmits.antt =====
-- What each part of `send` (src/core/peer-core.mjs) leaves to be written.
use universal_peer_mcp.Prelude.{
  ℕ, suc, ◌+◌, ◌≤◌, ◌≡◌, refl, sym, subst, Bool, true, false, Option, none, some, ◌∷◌, String, Text,
  arith, if◌then◌else◌, count, Outcome, ok, err, inl, inr, Bool-cases, Option-cases,
}
use universal_peer_mcp.Limits.{same_uuid}
use universal_peer_mcp.Ledger.{Row, Fields, Store}
use universal_peer_mcp.Ledger.Requests.{Reservation, reserve_request, reserve_recovery}
use universal_peer_mcp.Ledger.Reserve.{reserve_request_once, reserve_recovery_once}
use universal_peer_mcp.Receipts.{says}
use universal_peer_mcp.Core.{
  Net, Line, Message, first_wire, second_wire, pause, landed, append_line,
}
use universal_peer_mcp.Core.Send.{
  Internal, outside, stranger, inside, Sent, sent, replay_same, complete_fields, failed_fields,
  uncertain, failed_send, noted, after_write, write_wire, transmit, after_callback, after_reserve,
  after_recovery,
}
use universal_peer_mcp.Core.Owed.{
  Owed, OwedAt, Owed-less, Quiet, is_first, is_second, requests, recoveries, one_if, owed_of,
  appended-count, Reserves, reserve_request-Reserves, reserve_recovery-Reserves, pause-Owed,
  append_line-Owed,
}

abbrev pub created_of : Text → Outcome Reservation → Text → ℕ
created_of i (ok r) id = owed_of i r.created id
created_of i (err code) id = 0

one_more : (b : Bool) (x y : ℕ) → x + one_if b ≤ y → (if b then suc x else x) + 0 ≤ y
one_more true x y h = omega (arith, h)
one_more false x y h = omega (arith, h)

pub if-Owed :
    (id : Text) (b : Bool) (x y : Outcome Sent × Line)
    → Owed id 0 0 x.1
    → Owed id 0 0 y.1
    → Owed id 0 0 (if b then x else y).1
if-Owed id true x y h k = h
if-Owed id false x y h k = k

module _ (n : Net) (id : Text) (quiet : Quiet id n) where
  -- A reservation of one kind, and what it lets be written.
  pub reserve-Owed :
      (fields : Fields) (i : Text) (l : Line)
      → fields.message_id ≡ some i
      → Owed id 0 0 (pause n l)
      → Owed id
          (created_of i
            (reserve_request n.line_bytes (n.moment l.waits) fields (n.others l.waits l.store)).0
            id)
          0
          (landed l
            (reserve_request n.line_bytes (n.moment l.waits) fields (n.others l.waits l.store))).1
  unfolding Owed
  reserve-Owed fields i l named (p, q, p', q') =
      go (reserve_request n.line_bytes (n.moment l.waits) fields s)
        (reserve_request-Reserves n.line_bytes (n.moment l.waits) fields s)
        (reserve_request_once n.line_bytes (n.moment l.waits) fields s (some id) q)
    where
      s : Store
      s = n.others l.waits l.store

      go :
          (r : Outcome Reservation × Store)
          → Reserves n.line_bytes (n.moment l.waits) "send_requested" fields s r
          → requests id r.1.events ≤ 1
          → OwedAt id (created_of i r.0 id) 0 l.wires r.1.events
      go (err code, t) e once = subst (OwedAt id 0 0 l.wires) (sym e) (p, q, p', q')
      go (ok r, t) (inr (old, e)) once =
          rw old (subst (λ (u : Store). OwedAt id 0 0 l.wires u.events) (sym e) (p, q, p', q'))
      go (ok r, t) (inl (new, e)) once =
          let more =
            appended-count n.line_bytes (n.moment l.waits) "send_requested" "send_requested" fields
              s t r.event i id named e in
          let same =
            appended-count n.line_bytes (n.moment l.waits) "send_requested" "send_recovery_reserved"
              fields s t r.event i id named e in
          rw new (omega (arith, p, more), once, omega (arith, p', same), omega (arith, q', same))

  pub recovery-Owed :
      (fields : Fields) (i : Text) (l : Line)
      → fields.message_id ≡ some i
      → Owed id 0 0 (pause n l)
      → Owed id 0
          (created_of i
            (reserve_recovery n.line_bytes (n.moment l.waits) fields (n.others l.waits l.store)).0
            id)
          (landed l
            (reserve_recovery n.line_bytes (n.moment l.waits) fields (n.others l.waits l.store))).1
  unfolding Owed
  recovery-Owed fields i l named (p, q, p', q') =
      go (reserve_recovery n.line_bytes (n.moment l.waits) fields s)
        (reserve_recovery-Reserves n.line_bytes (n.moment l.waits) fields s)
        (reserve_recovery_once n.line_bytes (n.moment l.waits) fields s (some id) q')
    where
      s : Store
      s = n.others l.waits l.store

      go :
          (r : Outcome Reservation × Store)
          → Reserves n.line_bytes (n.moment l.waits) "send_recovery_reserved" fields s r
          → recoveries id r.1.events ≤ 1
          → OwedAt id 0 (created_of i r.0 id) l.wires r.1.events
      go (err code, t) e once = subst (OwedAt id 0 0 l.wires) (sym e) (p, q, p', q')
      go (ok r, t) (inr (old, e)) once =
          rw old (subst (λ (u : Store). OwedAt id 0 0 l.wires u.events) (sym e) (p, q, p', q'))
      go (ok r, t) (inl (new, e)) once =
          let more =
            appended-count n.line_bytes (n.moment l.waits) "send_recovery_reserved"
              "send_recovery_reserved" fields s t r.event i id named e in
          let same =
            appended-count n.line_bytes (n.moment l.waits) "send_recovery_reserved" "send_requested"
              fields s t r.event i id named e in
          rw new (omega (arith, p, same), omega (arith, q, same), omega (arith, p', more), once)

  first_wire-Owed :
      (i : Text) (session : Option Text) (l : Line)
      → Owed id (one_if (same_uuid (some i) (some id))) 0 l
      → Owed id 0 0 (write_wire n (first_wire i session) l)
  unfolding Owed
  first_wire-Owed i session l (p, q, p', q') =
      pause-Owed n id quiet 0 0 (record l { wires = first_wire i session ∷ l.wires })
        (
          one_more (same_uuid (some i) (some id)) (count (is_first id) l.wires)
              (requests id l.store.events) p,
          q,
          p',
          q',
        )

  second_wire-Owed :
      (i : Text) (session : Option Text) (l : Line)
      → Owed id 0 (one_if (same_uuid (some i) (some id))) l
      → Owed id 0 0 (write_wire n (second_wire i session) l)
  unfolding Owed
  second_wire-Owed i session l (p, q, p', q') =
      pause-Owed n id quiet 0 0 (record l { wires = second_wire i session ∷ l.wires })
        (
          p,
          q,
          one_more (same_uuid (some i) (some id)) (count (is_second id) l.wires)
              (recoveries id l.store.events) p',
          q',
        )

  -- Everything after the write adds rows of other types.
  failed_send-Owed :
      (m : Message) (transport : Option Text) (subscription : Text) (code : Option String)
      (l : Line)
      → Owed id 0 0 l
      → Owed id 0 0 (failed_send n m transport subscription code l).1
  failed_send-Owed m transport subscription code l h =
      go (append_line n "send_failed" (failed_fields m transport subscription code) l) (
        append_line-Owed n id quiet 0 0 "send_failed" (failed_fields m transport subscription code)
          l refl refl h)
    where
      go : (r : Outcome Row × Line) → Owed id 0 0 r.1 → Owed id 0 0 (uncertain r).1
      go (ok row, x) k = k
      go (err e, x) k = k

  noted-Owed :
      (m : Message) (transport : Option Text) (subscription : Text) (answer : Sent)
      (r : Outcome Row × Line)
      → Owed id 0 0 r.1
      → Owed id 0 0 (noted n m transport subscription answer r).1
  noted-Owed m transport subscription answer (ok row, l) h = h
  noted-Owed m transport subscription answer (err code, l) h =
      failed_send-Owed m transport subscription code l h

  after_write-Owed :
      (m : Message) (transport : Text) (failed : Option Text) (subscription : Text) (answer : Sent)
      (o : Outcome ℕ) (l : Line)
      → Owed id 0 0 l
      → Owed id 0 0 (after_write n m transport failed subscription answer o l).1
  after_write-Owed m transport failed subscription answer (err code) l h =
      failed_send-Owed m failed subscription code l h
  after_write-Owed m transport failed subscription answer (ok bytes) l h =
      noted-Owed m failed subscription answer _ (
        append_line-Owed n id quiet 0 0 "socket_write_complete"
          (complete_fields m transport subscription bytes) l refl refl h)

  -- A callback is waited for before the write.
  after_callback-Owed :
      (internal : Internal) (a b : ℕ) (go : Line → Outcome Sent × Line) (l : Line)
      → ((x : Line) → Owed id a b x → Owed id 0 0 (go x).1)
      → Owed id a b l
      → Owed id 0 0 (after_callback n internal go l).1
  after_callback-Owed outside a b go l f h = f l h
  after_callback-Owed stranger a b go l f h = f l h
  after_callback-Owed (inside o) a b go l f h = elim (Option-cases o.after_reservation) [
    | inl none_thrown ↦ rw none_thrown (f (pause n l) (pause-Owed n id quiet a b l h))
    | inr (code, thrown) ↦ rw thrown (Owed-less id a b (pause n l) (pause-Owed n id quiet a b l h))
  ]

  replay_same-Owed :
      (m : Message) (hash : String) (prior : Row) (l : Line)
      → Owed id 0 0 l
      → Owed id 0 0 (replay_same m hash prior l).1
  replay_same-Owed m hash prior l h = if-Owed id (says prior.request_hash hash) _ _ h h

  pub after_reserve-Owed :
      (internal : Internal) (m : Message) (hash : String) (session : Option Text)
      (subscription : Text) (r : Outcome Reservation × Line)
      → Owed id (created_of m.id r.0 id) 0 r.1
      → Owed id 0 0 (after_reserve n internal m hash (first_wire m.id session) subscription r).1
  unfolding transmit
  after_reserve-Owed internal m hash session subscription (err code, l) h = h
  after_reserve-Owed internal m hash session subscription (ok r, l) h =
      elim (Bool-cases r.created) [
        | inl new ↦ rw new (
            after_callback-Owed internal (one_if (same_uuid (some m.id) (some id))) 0
              (transmit n (first_wire m.id session) m m.id none subscription
                (sent m.id subscription))
              l
              (λ x k.
                after_write-Owed m m.id none subscription (sent m.id subscription)
                  (n.sender x.waits) (write_wire n (first_wire m.id session) x)
                  (first_wire-Owed m.id session x k))
              (subst (λ c. Owed id (if c then one_if (same_uuid (some m.id) (some id)) else 0) 0 l)
                new h))
        | inr old ↦ rw old (
            replay_same-Owed m hash r.event l (
              subst (λ c. Owed id (if c then one_if (same_uuid (some m.id) (some id)) else 0) 0 l)
                old h))
      ]

  pub after_recovery-Owed :
      (internal : Internal) (m : Message) (session : Option Text) (transport subscription : Text)
      (r : Outcome Reservation × Line)
      → Owed id 0 (created_of m.id r.0 id) r.1
      → Owed id 0 0
          (after_recovery n internal m (second_wire m.id session) transport subscription r).1
  unfolding transmit
  after_recovery-Owed internal m session transport subscription (err code, l) h = h
  after_recovery-Owed internal m session transport subscription (ok r, l) h =
      elim (Bool-cases r.created) [
        | inl new ↦ rw new (
            after_callback-Owed internal 0 (one_if (same_uuid (some m.id) (some id)))
              (transmit n (second_wire m.id session) m transport (some transport) subscription
                (sent transport subscription))
              l
              (λ x k.
                after_write-Owed m transport (some transport) subscription
                  (sent transport subscription) (n.sender x.waits)
                  (write_wire n (second_wire m.id session) x) (second_wire-Owed m.id session x k))
              (subst (λ c. Owed id 0 (if c then one_if (same_uuid (some m.id) (some id)) else 0) l)
                new h))
        | inr old ↦ rw old (
            subst (λ c. Owed id 0 (if c then one_if (same_uuid (some m.id) (some id)) else 0) l) old
              h)
      ]
