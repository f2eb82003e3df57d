-- ===== src/Receipts.antt =====
-- src/core/receipts.mjs: the sender of a message that is stuck gets one notice, which is a post like any
-- other. The maps of `receiptIndex` are functions of their keys. The wording of a notice is a
-- parameter, and the data of its row that nothing reads (its state and code) is left out.
mod Names
pub mod Due
pub mod Sends
mod Tests
unfoldable pub use Names.*
use universal_peer_mcp.Prelude.{
  ℕ, ◌+◌, ◌*◌, Bool, true, false, not, ◌&&◌, ◌||◌, Option, none, some, List, [], ◌∷◌, ◌++◌, String,
  Text, lower, same_text, leb, ltb, str_eq, if◌then◌else◌, any, find?, filter, map, Outcome, ok,
  err,
}
use universal_peer_mcp.Limits.{same_uuid}
use universal_peer_mcp.Ledger.{Row, no_fields, is_type, Store}
use universal_peer_mcp.Posts.{World, Who, Post, Accepted, accept_post, append_in}
use universal_peer_mcp.Posts.Inbox.{lower_id}

-- `REPLY_GRACE_MS`
abbrev pub reply_grace_ms : ℕ
reply_grace_ms = 10 * 60 * 1000

-- `QUIET_CODES`
abbrev pub is_quiet : Option String → Bool
is_quiet none = false
is_quiet (some code) =
    str_eq code "DOORBELL_NOT_CONFIGURED"
    || (str_eq code "WAKE_ALREADY_PROCESSED" || str_eq code "WAKE_GENERATION_STALE")

abbrev pub says : Option String → String → Bool
says none s = false
says (some t) s = str_eq t s

-- `senderBinding`: the session or the thread of the sender.
pub data Binding : Type 0 where
  codex claude : Text → Binding

abbrev pub bound_by : (Text → Binding) → Option Text → Option Binding
bound_by kind none = none
bound_by kind (some id) = some (kind id)

abbrev pub sender_binding : Row → Option Binding
sender_binding post =
    if says post.sender_kind "codex"
    then bound_by codex post.sender_thread_id
    else bound_by claude post.sender_session_id

-- The keys of the index: rows of a type with an id, and answers to an id.
abbrev pub of_id : String → Text → Row → Bool
of_id type id row =
    is_type type row && elim row.message_id [ none ↦ false | some m ↦ same_text (lower m) id ]

abbrev pub answers : Text → Row → Bool
answers id row =
    is_type "peer_post" row && elim row.reply_to [ none ↦ false | some r ↦ same_text (lower r) id ]

abbrev pub is_between : Option String → Option String → Row → Bool
is_between sender recipient row =
    is_type "peer_post" row
    && (not (says row.source "receipt") && elim sender [
      | none ↦ false
      | some a ↦
          says row.sender_alias a && elim recipient [ none ↦ false | some b ↦ says row.recipient b ]
    ])

-- A later row of the map replaces an earlier one.
pub last_seq : (Row → Bool) → List Row → Option ℕ → Option ℕ
last_seq p [] found = found
last_seq p (row ∷ rows) found = last_seq p rows (if p row then some row.seq else found)

-- `receiptIndex`
pub record Index : Type 0 where
  pub processed : Text → Option Row
  pub answered : Text → Bool
  pub first_outcome : Text → Option Row
  pub posts : Text → Bool
  pub last_between : Option String → Option String → Option ℕ

unfoldable pub receipt_index : List Row → Index
unfolding last_seq
receipt_index events = record {
  processed = λ id. find? (of_id "peer_post_processed" id) events;
  answered = λ id. any (answers id) events;
  first_outcome = λ id. find? (of_id "doorbell_outcome" id) events;
  posts = λ id. any (of_id "peer_post" id) events;
  last_between = λ sender recipient. last_seq (is_between sender recipient) events none;
}

pub record Receipt : Type 0 where
  pub receipt_state : String
  pub receipt_code : Option String
  pub original : Row
  pub binding : Binding
  pub receipt_id : Text

-- `due`, for a message that is not answered: by its first doorbell outcome, and by the time since it was
-- marked as processed.
abbrev pub outcome_states : Index → Text → List (String × Option String)
outcome_states index id = elim (index.first_outcome id) [
  | none ↦ []
  | some first ↦ elim (index.processed id) [
    | some row ↦ []
    | none ↦
        if says first.state "not_sent" && not (is_quiet first.error_code)
        then ("not_delivered", first.error_code) ∷ []
        else if says first.state "held"
        then ("queued_busy", none) ∷ []
        else []
  ]
]

abbrev pub later_code : Index → Row → Option String
later_code index post = elim (index.last_between post.recipient post.sender_alias) [
  | none ↦ none
  | some back ↦ if ltb post.seq back then some "LATER_POST_WITHOUT_REPLY_TO" else none
]

abbrev pub reply_states : Index → Text → Row → ℕ → List (String × Option String)
reply_states index id post now =
    if post.expect_reply && elim post.reply_to [ none ↦ true | some r ↦ same_text r [] ]
    then elim (index.processed id) [
      | none ↦ []
      | some done ↦
          if leb (done.at + reply_grace_ms) now
          then ("no_reply_yet", later_code index post) ∷ []
          else []
    ]
    else []

abbrev pub states_due : Index → Text → Row → ℕ → List (String × Option String)
states_due index id post now =
    if index.answered id then [] else outcome_states index id ++ reply_states index id post now

abbrev pub has_alias : Row → Bool
has_alias post = elim post.sender_alias [ none ↦ false | some a ↦ true ]

abbrev pub sent_with : Accepted → Outcome (List Accepted) × Store → Outcome (List Accepted) × Store
sent_with a (ok rest, s) = (ok (a ∷ rest), s)
sent_with a (err code, s) = (err code, s)

-- `cutoff`
abbrev pub cutoff : List Row → Option ℕ
cutoff events = elim (find? (is_type "receipts_enabled") events) [
  | none ↦ none
  | some row ↦ some row.seq
]

-- `#candidate`
abbrev pub is_candidate : List Row → Row → Bool
is_candidate events post = elim (cutoff events) [ none ↦ false | some n ↦ ltb n post.seq ]

-- `enable`: one row, by the first daemon that has receipts.
unfoldable pub enable : World → Store → Outcome Bool × Store
enable w s = elim (cutoff s.events) [
  | some n ↦ (ok false, s)
  | none ↦ elim (append_in w 0 "receipts_enabled" no_fields s).0 [
    | ok row ↦ (ok true, (append_in w 0 "receipts_enabled" no_fields s).1)
    | err code ↦ (err code, (append_in w 0 "receipts_enabled" no_fields s).1)
  ]
]

-- Parameters: SHA-1, and the wording of a notice as bytes.
module _ (sha1 : List ℕ → List ℕ) where
  abbrev pub receipt_of : Row → Binding → String × Option String → Receipt
  receipt_of post binding (state, code) = record {
    receipt_state = state;
    receipt_code = code;
    original = post;
    binding = binding;
    receipt_id = state_id sha1 state (lower_id post);
  }

  -- `receiptsDue`
  unfoldable pub receipts_due : Row → Index → ℕ → List Receipt
  receipts_due post index now =
      if not (is_type "peer_post" post) || (says post.source "receipt" || not (has_alias post))
      then []
      else elim (sender_binding post) [
        | none ↦ []
        | some binding ↦
            filter (λ r. not (index.posts r.receipt_id))
              (map (receipt_of post binding) (states_due index (lower_id post) post now))
      ]

  -- The receipts of all posts that are candidates.
  unfoldable pub all_due : Index → List Row → ℕ → List Row → List Receipt
  unfolding receipts_due
  all_due index events now [] = []
  all_due index events now (post ∷ posts) =
      let rest = all_due index events now posts in
      if is_type "peer_post" post && is_candidate events post
      then receipts_due post index now ++ rest
      else rest

  module _ (wording : Receipt → List ℕ) where
    -- `who` and the other arguments of `acceptPost`.
    abbrev pub receipt_who : Receipt → Who
    receipt_who r = record {
      sender_alias = some "universal-peer";
      sender_kind = some "system";
      sender_session_id = none;
      sender_thread_id = none;
      recipient_kind =
          some (elim r.binding as (λ _. String) [ codex t ↦ "codex" | claude s ↦ "claude" ]);
      recipient_session_id = elim r.binding [ codex t ↦ none | claude s ↦ some s ];
      recipient_thread_id = elim r.binding [ codex t ↦ some t | claude s ↦ none ];
      reply_to = none;
      expect_reply = false;
      receipt_for = r.original.message_id;
      sender_auth = none;
      peer_pid = none;
      peer_proc_start = none;
    }

    abbrev pub receipt_post : Receipt → Post
    receipt_post r = record {
      id = r.receipt_id;
      to = elim r.original.sender_alias [ none ↦ "" | some a ↦ a ];
      body = wording r;
      who = receipt_who r;
      from = "receipt";
    }

    abbrev pub still_due : Receipt → List Row → ℕ → Bool
    still_due r events now =
        any (λ d. same_text d.receipt_id r.receipt_id)
          (receipts_due r.original (receipt_index events) now)

    -- `#send`: each receipt is judged again when its turn comes. `worlds k` is the world of the `k`th
    -- post, and `clock k` the time at which it is judged.
    unfoldable pub send :
        (ℕ → World) → (ℕ → ℕ) → ℕ → List Receipt → Store → Outcome (List Accepted) × Store
    unfolding receipts_due receipt_index
    send worlds clock k [] s = (ok [], s)
    send worlds clock k (r ∷ rs) s =
        let skipped = send worlds clock (k + 1) rs s in
        let posted = accept_post (worlds k) (receipt_post r) s in
        let rest = send worlds clock (k + 1) rs posted.1 in
        if still_due r s.events (clock k)
        then elim posted.0 [ ok a ↦ sent_with a rest | err code ↦ (err code, posted.1) ]
        else skipped

    -- `sweep`
    unfoldable pub sweep_receipts :
        (ℕ → World) → (ℕ → ℕ) → ℕ → Store → Outcome (List Accepted) × Store
    unfolding send all_due
    sweep_receipts worlds clock now s = elim (cutoff s.events) [
      | none ↦ (ok [], s)
      | some n ↦ send worlds clock 0 (all_due (receipt_index s.events) s.events now s.events) s
    ]

    -- `onAppend`
    unfoldable pub on_append :
        (ℕ → World) → (ℕ → ℕ) → ℕ → Row → Store → Outcome (List Accepted) × Store
    unfolding send
    on_append worlds clock now row s =
        if not (is_type "doorbell_outcome" row)
        then (ok [], s)
        else elim (find? (λ e. is_type "peer_post" e && same_uuid e.message_id row.message_id)
            s.events) [
              | none ↦ (ok [], s)
              | some post ↦
                  if is_candidate s.events post
                  then send worlds clock 0
                      (filter (λ r. not (str_eq r.receipt_state "no_reply_yet"))
                        (receipts_due post (receipt_index s.events) now))
                      s
                  else (ok [], s)
            ]
