-- ===== src/Posts/Acks/Effect.antt =====
-- What an acknowledgement takes from the inboxes (`ackInbox` and `inbox` of src/core/posts.mjs).
use universal_peer_mcp.Prelude.{
  ℕ, ◌≡◌, ap, fun_ext, ◌∙◌, false, not, Option, List, String, Text, filter, lower, same_text, ok,
}
use universal_peer_mcp.Limits.Laws.{is_uuid-lower}
use universal_peer_mcp.Ledger.{Fields, Store}
use universal_peer_mcp.Posts.{World}
use universal_peer_mcp.Posts.Inbox.{inbox, lower_id, text_or_empty}
use universal_peer_mcp.Posts.Inbox.Growth.{inbox-append}
use universal_peer_mcp.Posts.Acks.{ack_inbox}
use universal_peer_mcp.Posts.Acks.Once.{ack_inbox-FirstAck}

-- A first acknowledgement takes the message with its id out of every inbox, and no other message,
-- from what the inbox holds when the row is written.
pub ack_inbox-inbox :
    (w : World) (id : Text) (s : Store) (seq : ℕ) (t : Store) (recipient : String) (after_seq : ℕ)
    (lineage : Option (List Text))
    → ack_inbox w id s ≡ (ok (record { acked_seq = seq; already = false }), t)
    → inbox t.events recipient after_seq lineage
      ≡ filter
          (λ e. not (same_text id (lower_id e)))
          (inbox (w.others 0 s).events recipient after_seq lineage)
ack_inbox-inbox w id s seq t recipient after_seq lineage first =
    let f = ack_inbox-FirstAck w id s seq t first in
    let key : lower_id f.row ≡ id =
      ap (λ (x : Fields). lower (text_or_empty x.message_id)) f.fields_of
      ∙ is_uuid-lower id f.is_id in
    ap (λ rows. inbox rows recipient after_seq lineage) f.grown
    ∙ inbox-append (w.others 0 s).events f.row recipient after_seq lineage (rw f.type_of)
        (rw f.type_of)
    ∙ ap (λ g. filter g (inbox (w.others 0 s).events recipient after_seq lineage))
        (fun_ext (λ e. rw (f.type_of, key)))
