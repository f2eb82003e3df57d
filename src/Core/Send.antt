-- ===== src/Core/Send.antt =====
-- `send` of src/core/peer-core.mjs with `#sendOnce` and `#recoverSend`. The frames of a
-- message are made without a failure: the daemon's own address is a valid one.
use universal_peer_mcp.Prelude.{
  ℕ, Bool, true, false, not, Option, none, some, ◌∷◌, String, Text, if◌then◌else◌, any, Outcome, ok,
  err, refuse, ◌>>=◌,
}
use universal_peer_mcp.Limits.{same_uuid, require_uuid}
use universal_peer_mcp.Ledger.{Row, Fields, no_fields, is_type}
use universal_peer_mcp.Ledger.Requests.{
  request, list, Reservation, reserve_request, reserve_recovery,
}
use universal_peer_mcp.Receipts.{says}
use universal_peer_mcp.Core.{
  Target, Message, Wire, first_wire, second_wire, Net, Line, pause, landed, append_line,
  canonical_send, durable_state, resolve, snapshot, snapshot_fault,
}

-- The options of a call: none, some that are not the daemon's own, or its own. `after_reservation` is
-- what the callback throws, if it does.
pub record Options : Type 0 where
  pub recovery : Bool
  pub expect_session : Option Text
  pub after_reservation : Option (Option String)

pub data Internal : Type 0 where
  outside stranger : Internal
  inside : Options → Internal

abbrev pub is_recovery : Internal → Bool
is_recovery outside = false
is_recovery stranger = false
is_recovery (inside o) = o.recovery

abbrev pub callback_fault : Internal → Option (Option String)
callback_fault outside = none
callback_fault stranger = none
callback_fault (inside o) = o.after_reservation

-- The session is another than the one that the attempt was for.
abbrev pub is_stale : Internal → Target → Bool
is_stale outside t = false
is_stale stranger t = false
is_stale (inside o) t = elim o.expect_session [
  | none ↦ false
  | some s ↦ not (same_uuid t.session (some s))
]

pub data Sent : Type 0 where
  replay : String → Sent
  sent : Text → Text → Sent

-- A replay reads the rows of the message.
abbrev pub replay_of : Text → Line → Outcome Sent × Line
replay_of id l =
    (list l.store.events (some 0) (some id) >>= λ events. ok (replay (durable_state events)), l)

abbrev pub replay_same : Message → String → Row → Line → Outcome Sent × Line
replay_same m hash prior l =
    if says prior.request_hash hash then replay_of m.id l else (refuse "MESSAGE_ID_CONFLICT", l)

-- The row of a write that succeeded or failed. A fault of the first one counts as a failed write.
abbrev pub complete_fields : Message → Text → Text → ℕ → Fields
complete_fields m transport subscription bytes = record no_fields {
  message_id = some m.id;
  transport_message_id = some transport;
  subscription_id = some subscription;
  alias = some m.alias;
  bytes_written = some bytes;
}

abbrev pub failed_fields : Message → Option Text → Text → Option String → Fields
failed_fields m transport subscription code = record no_fields {
  message_id = some m.id;
  transport_message_id = transport;
  subscription_id = some subscription;
  alias = some m.alias;
  error_code = elim code [ none ↦ some "SEND_FAILED" | some c ↦ some c ];
}

abbrev pub uncertain : Outcome Row × Line → Outcome Sent × Line
uncertain (ok row, l) = (refuse "DELIVERY_UNCERTAIN", l)
uncertain (err code, l) = (err code, l)

abbrev pub failed_send :
    Net → Message → Option Text → Text → Option String → Line → Outcome Sent × Line
failed_send n m transport subscription code l =
    uncertain (append_line n "send_failed" (failed_fields m transport subscription code) l)

abbrev pub noted :
    Net → Message → Option Text → Text → Sent → Outcome Row × Line → Outcome Sent × Line
noted n m transport subscription answer (ok row, l) = (ok answer, l)
noted n m transport subscription answer (err code, l) =
    failed_send n m transport subscription code l

abbrev pub after_write :
    Net → Message → Text → Option Text → Text → Sent → Outcome ℕ → Line → Outcome Sent × Line
after_write n m transport failed_transport subscription answer (err code) l =
    failed_send n m failed_transport subscription code l
after_write n m transport failed_transport subscription answer (ok bytes) l =
    noted n m failed_transport subscription answer
      (append_line n "socket_write_complete" (complete_fields m transport subscription bytes) l)

-- The frames go to the socket, and its answer is waited for.
abbrev pub write_wire : Net → Wire → Line → Line
write_wire n w l = pause n (record l { wires = w ∷ l.wires })

unfoldable pub transmit :
    Net → Wire → Message → Text → Option Text → Text → Sent → Line → Outcome Sent × Line
transmit n w m transport failed_transport subscription answer l =
    after_write n m transport failed_transport subscription answer (n.sender l.waits)
      (write_wire n w l)

abbrev pub request_fields : Net → Message → Target → String → Text → Fields
request_fields n m t hash subscription = snapshot n m.alias t (record no_fields {
  message_id = some m.id;
  transport_message_id = some m.id;
  thread_id = some m.thread;
  reply_to = m.reply;
  kind = some m.kind;
  alias = some m.alias;
  request_hash = some hash;
  subscription_id = some subscription;
})

abbrev pub recovery_fields : Net → Message → Target → String → Text → Text → Fields
recovery_fields n m t hash transport subscription = snapshot n m.alias t (record no_fields {
  message_id = some m.id;
  transport_message_id = some transport;
  subscription_id = some subscription;
  request_hash = some hash;
  alias = some m.alias;
})

-- The callback after a reservation is waited for, if there is one.
abbrev pub after_callback :
    Net → Internal → (Line → Outcome Sent × Line) → Line → Outcome Sent × Line
after_callback n internal go l = elim internal [
  | inside o ↦ elim o.after_reservation [
    | none ↦ go (pause n l)
    | some code ↦ (err code, pause n l)
  ]
  | outside ↦ go l
  | stranger ↦ go l
]

-- A reservation that was there before is a replay of it.
abbrev pub after_reserve :
    Net
    → Internal
    → Message
    → String
    → Wire
    → Text
    → Outcome Reservation × Line
    → Outcome Sent × Line
after_reserve n internal m hash w subscription (err code, l) = (err code, l)
after_reserve n internal m hash w subscription (ok r, l) =
    if r.created
    then after_callback n internal (transmit n w m m.id none subscription (sent m.id subscription))
        l
    else replay_same m hash r.event l

abbrev pub after_resolve :
    Net → Internal → Message → String → Outcome Target × Line → Outcome Sent × Line
after_resolve n internal m hash (err code, l) = (err code, l)
after_resolve n internal m hash (ok t, l) =
    let subscription = n.random_id l.waits 0 in
    if is_stale internal t
    then (refuse "WAKE_GENERATION_STALE", l)
    else after_reserve n internal m hash (first_wire m.id t.session) subscription (
        landed l (
          reserve_request n.line_bytes (n.moment l.waits) (request_fields n m t hash subscription)
            (n.others l.waits l.store)))

abbrev pub after_recovery :
    Net → Internal → Message → Wire → Text → Text → Outcome Reservation × Line → Outcome Sent × Line
after_recovery n internal m w transport subscription (err code, l) = (err code, l)
after_recovery n internal m w transport subscription (ok r, l) =
    if r.created
    then after_callback n internal
        (transmit n w m transport (some transport) subscription (sent transport subscription)) l
    else replay_of m.id l

abbrev pub recover_resolved :
    Net → Internal → Message → String → Row → Outcome Target × Line → Outcome Sent × Line
recover_resolved n internal m hash prior (err code, l) = (err code, l)
recover_resolved n internal m hash prior (ok t, l) =
    let transport = n.random_id l.waits 0 in
    let subscription = n.random_id l.waits 1 in
    elim (snapshot_fault n prior m.alias t) [
      | some code ↦ (refuse code, l)
      | none ↦ after_recovery n internal m (second_wire m.id t.session) transport subscription (
          landed l (
            reserve_recovery n.line_bytes (n.moment l.waits)
              (recovery_fields n m t hash transport subscription) (n.others l.waits l.store)))
    ]

-- `#recoverSend`
unfoldable pub recover_send : Net → Internal → Message → String → Row → Line → Outcome Sent × Line
unfolding resolve transmit snapshot_fault
recover_send n internal m hash prior l = elim (list l.store.events (some 0) (some m.id)) [
  | err code ↦ (err code, l)
  | ok events ↦
      if any (is_type "peer_terminal_failure") events
      then (refuse "RECOVERY_FORBIDDEN", l)
      else if not (n.is_allowed m.alias)
      then (refuse "TARGET_UNAVAILABLE", l)
      else recover_resolved n internal m hash prior (resolve n m.alias l)
]

abbrev pub with_prior :
    Net → Internal → Message → String → Outcome (Option Row) → Line → Outcome Sent × Line
with_prior n internal m hash (err code) l = (err code, l)
with_prior n internal m hash (ok none) l = after_resolve n internal m hash (resolve n m.alias l)
with_prior n internal m hash (ok (some prior)) l =
    if not (says prior.request_hash hash)
    then (refuse "MESSAGE_ID_CONFLICT", l)
    else if is_recovery internal
    then recover_send n internal m hash prior l
    else replay_of m.id l

abbrev pub is_stranger : Internal → Bool
is_stranger stranger = true
is_stranger outside = false
is_stranger (inside o) = false

-- `#sendOnce`
unfoldable pub send_once : Net → Internal → Message → Line → Outcome Sent × Line
unfolding recover_send resolve transmit
send_once n internal m l =
    if is_stranger internal
    then (refuse "INTERNAL_SEND_FORBIDDEN", l)
    else if not (n.is_allowed m.alias)
    then (refuse "TARGET_UNAVAILABLE", l)
    else elim (canonical_send n m) [
      | err code ↦ (err code, l)
      | ok canonical ↦
          with_prior n internal m (n.sha256 canonical) (request l.store.events (some m.id)) l
    ]

abbrev pub normal_reply : Option Text → Outcome (Option Text)
normal_reply none = ok none
normal_reply (some t) = require_uuid (some t) >>= λ r. ok (some r)

abbrev pub sent_in_turn : Net → Bool → Internal → Line → Outcome Message → Outcome Sent × Line
sent_in_turn n reentrant internal l (err code) = (err code, l)
sent_in_turn n reentrant internal l (ok m) =
    if reentrant then (refuse "INTERNAL_SEND_REENTRANT", l) else send_once n internal m (pause n l)

-- `send`: the ids in lower case; then it waits for the sends of the same message before it.
unfoldable pub send :
    Net
    → Bool
    → Internal
    → String
    → Option Text
    → Option Text
    → Option Text
    → Text
    → Text
    → Line
    → Outcome Sent × Line
unfolding send_once
send n reentrant internal alias id thread reply kind body l = sent_in_turn n reentrant internal l (
    require_uuid id >>= λ i. require_uuid thread >>= λ t. normal_reply reply >>= λ r.
    ok (record { alias = alias; id = i; thread = t; reply = r; kind = kind; body = body }))
