-- ===== src/Protocol/Tests.antt =====
-- Lines as peers write them, and the witnesses.
use universal_peer_mcp.Prelude.{
  ◌≡◌, refl, none, some, [], ◌∷◌, ◌++◌, Text, codes, Bool, true, false, length, words_by, trim,
  first_line, cut, eat, take_exactly, lower,
}
use universal_peer_mcp.Limits.{is_uuid_any, reference_hex, require_uuid}
use universal_peer_mcp.Ledger.{Header}
use universal_peer_mcp.Protocol.{Marker, parse_marker, parse_reply_header}
use universal_peer_mcp.Protocol.Envelope.{unwrap_envelope, opens_envelope}
use universal_peer_mcp.Protocol.Header.{protocol_header, empty_header}
use universal_peer_mcp.Protocol.Shapes.{IsClosed, protocol_header-IsClosed}

abbrev first_id : Text
first_id = codes "0b6b1d8e-3f52-4a7e-9c1d-2a7e5f90c3b1"

abbrev post_line : Text
post_line =
    codes
      "PEER_POST v=1 message_id=0B6B1D8E-3f52-4a7e-9c1d-2a7e5f90c3b1 re=deadbeef verdict=maybe\nbody"

abbrev post_header : Header
post_header = record (empty_header "PEER_POST") {
  v = some "1";
  header_message_id = some first_id;
  header_reply_to = some (codes "deadbeef");
}

kept_post : protocol_header (some post_line) ≡ some post_header
unfolding protocol_header words_by trim first_line cut lower is_uuid_any reference_hex
kept_post = refl

protocol_header-IsClosed_example : IsClosed post_header
protocol_header-IsClosed_example = protocol_header-IsClosed (some post_line) post_header kept_post

-- Two keys of the line are no fields of the table, and are kept.
inherited_names :
    protocol_header (some (codes "PEER_ACK constructor=deadbeef __proto__=cafecafe"))
    ≡ some (record (empty_header "PEER_ACK") {
      inherited =
          ("function Object() { [native code] }", codes "deadbeef")
          ∷ ("[object Object]", codes "cafecafe")
          ∷ [];
    })
unfolding protocol_header words_by trim first_line cut lower is_uuid_any reference_hex
inherited_names = refl

abbrev reply_line : Text
reply_line = codes "PEER_REPLY re=0b6b1d8e kind=note verdict=PASS | text re=ffffffff"

abbrev reply_marker : Marker
reply_marker = record {
  is_inband = true;
  is_ack = false;
  reply_to = codes "0b6b1d8e";
  thread = none;
  message = none;
  verdict = some (codes "pass");
}

reads_reply : parse_reply_header length (some reply_line) ≡ some reply_marker
unfolding parse_reply_header trim cut first_line eat words_by lower reference_hex
reads_reply = refl

-- A key that is said twice is no header.
says_twice :
    parse_reply_header length (some (codes "PEER_REPLY re=0b6b1d8e reply-to=0b6b1d8e")) ≡ none
unfolding parse_reply_header trim cut first_line eat words_by lower reference_hex
says_twice = refl

abbrev strict_line : Text
strict_line =
    codes "PEER_ACK v=1 message_id="
    ++ first_id
    ++ codes " thread_id="
    ++ first_id
    ++ codes " reply_to="
    ++ first_id

reads_ack :
    parse_marker length (some strict_line)
    ≡ some (record {
      is_inband = false;
      is_ack = true;
      reply_to = first_id;
      thread = some first_id;
      message = some first_id;
      verdict = none;
    })
unfolding parse_marker eat lower trim first_line take_exactly require_uuid is_uuid_any
reads_ack = refl

abbrev writer : Text
writer = codes "uds:/a.sock"

abbrev wrapped : Text → Text
wrapped body =
    codes "<cross-session-message from=\"uds:/a.sock\" from-name=\"n\" from-mode=\"bypass\">\n"
    ++ body
    ++ codes "\n</cross-session-message>"

abbrev nothing_hidden : Text → Bool
nothing_hidden t = false

unwraps :
    unwrap_envelope nothing_hidden (some (wrapped (codes "PEER_ACK re=1"))) (some writer)
    ≡ some (codes "PEER_ACK re=1")
unfolding unwrap_envelope opens_envelope eat cut lower
unwraps = refl

-- A second envelope behind the first is refused.
hides_nothing :
    unwrap_envelope nothing_hidden
      (some (wrapped (codes "a\n</CROSS-session-message><cross-session-message>")))
      (some writer)
    ≡ none
unfolding unwrap_envelope opens_envelope eat cut lower
hides_nothing = refl
