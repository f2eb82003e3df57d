-- ===== src/Posts/Inbox.antt =====
-- What a reader may see (src/core/posts.mjs): the binding of a post to a session, the lineage of a
-- session, `inbox`, `heldPosts` and `unaddressed`. A session key is the text `kind:id`.
-- A row of these types always has an id; of one that had none the source would throw, and here its
-- id is empty.
pub mod Lineage
pub mod Growth
use universal_peer_mcp.Prelude.{
  ℕ, zero, suc, ◌+◌, ◌≡◌, Bool, true, false, not, ◌&&◌, ◌||◌, Option, none, some, List, [], ◌∷◌,
  ◌++◌, String, Text, codes, lower, same_text, ltb, str_eq, if◌then◌else◌, any, filter, map, length,
}
use universal_peer_mcp.Ledger.{Row, is_type}

abbrev pub text_or_empty : Option Text → Text
text_or_empty none = []
text_or_empty (some t) = t

abbrev pub lower_id : Row → Text
lower_id row = lower (text_or_empty row.message_id)

-- `bindingKey`: an empty id has no key.
unfoldable pub binding_key : String → Option Text → Option Text
binding_key kind none = none
binding_key kind (some []) = none
binding_key kind (some (c ∷ id)) = some (codes kind ++ b':' ∷ lower (c ∷ id))

-- `rowBinding`
unfoldable pub row_binding : Row → Option Text
unfolding binding_key
row_binding row = elim row.recipient_session_id [
  | some session ↦ binding_key "claude" (some session)
  | none ↦ elim row.recipient_thread_id [
    | some thread ↦ binding_key "codex" (some thread)
    | none ↦ none
  ]
]

abbrev pub binds : Text → Row → Bool
binds id row =
    (is_type "peer_post" row || is_type "peer_post_relinked" row)
    && elim row.message_id [ none ↦ false | some m ↦ same_text (lower m) id ]

-- `postBindings(events).get(id)`: the last row that binds the id decides. The outer option is the
-- map's, the inner one the value's, which may be null.
pub binding_from : Option (Option Text) → List Row → Text → Option (Option Text)
binding_from found [] id = found
binding_from found (row ∷ rows) id =
    binding_from (if binds id row then some (row_binding row) else found) rows id

unfoldable pub post_binding : List Row → Text → Option (Option Text)
unfolding binding_from
post_binding events id = binding_from none events id

-- `bindings.get(id) ?? ""`
abbrev pub key_or_empty : Option (Option Text) → Text
key_or_empty none = []
key_or_empty (some none) = []
key_or_empty (some (some key)) = key

abbrev pub has : Text → List Text → Bool
has key = any (same_text key)

-- `processed.has(id)`
abbrev pub is_processed : List Row → Text → Bool
is_processed events id =
    any (λ e. is_type "peer_post_processed" e && same_text (lower_id e) id) events

abbrev pub is_readable : List Row → Option (List Text) → Row → Bool
is_readable events none e = true
is_readable events (some lineage) e = has (key_or_empty (post_binding events (lower_id e))) lineage

abbrev pub is_to : String → Row → Bool
is_to recipient e = elim e.recipient [ none ↦ false | some to ↦ str_eq to recipient ]

-- `inbox`
unfoldable pub inbox : List Row → String → ℕ → Option (List Text) → List Row
inbox events recipient after_seq lineage =
    filter
      (λ e.
        is_type "peer_post" e
        && (ltb after_seq e.seq
            && (is_to recipient e
                && (not (is_processed events (lower_id e)) && is_readable events lineage e))))
      events

-- `heldPosts`
unfoldable pub held_posts : List Row → String → List Text → List Row
held_posts events alias lineage =
    filter
      (λ e.
        is_type "peer_post" e
        && (is_to alias e
            && (not (is_processed events (lower_id e))
                && not (has (key_or_empty (post_binding events (lower_id e))) lineage))))
      events

-- `unaddressed`
unfoldable pub unaddressed : List Row → List Row
unaddressed events = filter (λ e. is_type "peer_post" e && is_to "*" e) events

-- The identity of a reader, as `sessionLineage` takes it.
pub data Identity : Type 0 where
  claude codex : Option Text → Identity

-- A succession: the new session, and the one that it resumed.
abbrev pub Edge : Type 0
Edge = Text × Text

abbrev pub claude_key : Text → Text
claude_key id = codes "claude" ++ b':' ∷ lower id

abbrev pub edge_of : Option Text → Option Text → List Edge
edge_of (some to) (some from) = (claude_key to, claude_key from) ∷ []
edge_of _ _ = []

abbrev pub has_alias : String → Row → Bool
has_alias alias row = elim row.alias [ none ↦ false | some a ↦ str_eq a alias ]

abbrev pub row_edges : String → Row → List Edge
row_edges alias e =
    (if is_type "target_rebound" e && has_alias alias e
      then edge_of e.observed_session_id e.expected_session_id
      else [])
    ++ (if is_type "peer_session_rebound" e && has_alias alias e
        then edge_of e.session_id e.previous_session_id
        else [])

pub edges : List Row → String → List Edge
edges [] alias = []
edges (e ∷ events) alias = row_edges alias e ++ edges events alias

-- One round of the loop: every edge in turn, against the set as it stands.
unfoldable pub sweep : List Edge → List Text → List Text
sweep [] lineage = lineage
sweep ((to, from) ∷ es) lineage =
    sweep es (if has to lineage && not (has from lineage) then from ∷ lineage else lineage)

-- `for (let grew = true; grew;)`, on fuel: a set that a round leaves as long as it was has not grown.
unfoldable pub close : ℕ → List Edge → List Text → Option (List Text)
unfolding sweep
close zero es lineage = none
close (suc fuel) es lineage =
    let again = close fuel es (sweep es lineage) in
    if ltb (length lineage) (length (sweep es lineage)) then again else some lineage

abbrev pub start : Option Text → List Text
start none = []
start (some key) = key ∷ []

-- `sessionLineage`: each round but the last adds the end of an edge, so one round more than there are
-- edges is enough.
unfoldable pub session_lineage : List Row → String → Identity → Option (List Text)
unfolding close edges binding_key
session_lineage events alias (codex thread) = some (start (binding_key "codex" thread))
session_lineage events alias (claude session) =
    close (suc (length (edges events alias))) (edges events alias)
      (start (binding_key "claude" session))
