-- ===== src/Posts/Quarantine.antt =====
-- src/core/posts.mjs: `quarantine`, and the recipient that a frame names on its first line.
use universal_peer_mcp.Prelude.{
  ℕ, Bool, true, false, Option, none, some, List, [], ◌∷◌, String, Text, codes, lower,
  if◌then◌else◌, filter, map, take, first_line, words_by, is_blank_or_pipe, eat, Outcome,
}
use universal_peer_mcp.Limits.{is_alias_text, word_of}
use universal_peer_mcp.Ledger.{Row, Fields, Header, no_fields, Store}
use universal_peer_mcp.Posts.{World, Who, with_who, body_digest, append_in}

-- The data of the row: the digest of the body, never the body.
abbrev pub quarantine_fields : World → String → List ℕ → Option Header → Who → Fields
quarantine_fields w reason body header who = with_who who (record no_fields {
  reason = some reason;
  body_bytes = some (body_digest w body).size;
  body_sha256 = some (body_digest w body).sha;
  body_capped = (body_digest w body).capped;
  header = header;
})

-- `quarantine`
unfoldable pub quarantine :
    World → ℕ → String → List ℕ → Option Header → Who → Store → Outcome Row × Store
quarantine w k reason body header who s =
    append_in w k "peer_frame_quarantined" (quarantine_fields w reason body header who) s

-- `to=`, in any case
abbrev names_recipient : Text → Bool
names_recipient token = elim (eat (codes "to=") (lower token)) [ none ↦ false | some rest ↦ true ]

-- `slice(3)`
abbrev without_name : Text → Text
without_name (t ∷ (o ∷ (e ∷ name))) = name
without_name _ = []

-- One name, which is an alias, or no recipient.
abbrev only_alias : List Text → String
only_alias [] = "*"
only_alias (name ∷ []) = if is_alias_text name then word_of name else "*"
only_alias (a ∷ (b ∷ names)) = "*"

-- `postRecipient`
unfoldable pub post_recipient : Option Text → String
post_recipient none = "*"
post_recipient (some content) = only_alias (
    map without_name
      (filter names_recipient (words_by is_blank_or_pipe (take 1024 (first_line content)))))
