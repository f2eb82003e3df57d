-- ===== src/Frames/Observe.antt =====
-- `frameObserver` of src/core/peer-core.mjs: the core and then the observers, and a row for every frame that
-- did not end where it was aimed. What an observer writes is among what others do while it is waited for.
use universal_peer_mcp.Prelude.{
  ℕ, Bool, ◌||◌, Option, none, some, List, [], ◌∷◌, String, Text, codes, lower, ◌==◌, if◌then◌else◌,
  Outcome, ok, err,
}
use universal_peer_mcp.Limits.{is_digit, is_upper_letter, head_then, word_of}
use universal_peer_mcp.Ledger.{Row, Fields, no_fields}
use universal_peer_mcp.Posts.{body_digest}
use universal_peer_mcp.Core.{Line, pause, append_line}
use universal_peer_mcp.Protocol.Envelope.{unwrap_envelope}
use universal_peer_mcp.Frames.{Peer, Frame, Station, Ending, taken, uncorrelated, thrown, world_of}
use universal_peer_mcp.Frames.Accept.{accept_frame}

-- The connection and the number of the frame on it.
pub record Context : Type 0 where
  pub connection : ℕ
  pub ordinal : ℕ

-- The answer of an observer, or what it throws.
pub data Seen : Type 0 where
  took passed : Seen
  failed : Option String → Option Text → Seen

abbrev pub Observer : Type 0
Observer = ℕ → Frame → Option Peer → Seen

unfoldable pub run_observers :
    Station → List Observer → Frame → Option Peer → Ending → Line → Ending × Line
run_observers st [] frame peer ending l = (ending, l)
run_observers st (observe ∷ observers) frame peer ending l = elim (observe l.waits frame peer) [
  | took ↦ run_observers st observers frame peer taken (pause st.net l)
  | passed ↦ run_observers st observers frame peer ending (pause st.net l)
  | failed code id ↦ (thrown code id, pause st.net l)
]

-- `refusalReason`
abbrev pub is_refusal_code : String → Bool
is_refusal_code code =
    head_then is_upper_letter (λ c. is_upper_letter c || (is_digit c || c == b'_')) 2 63
      (codes code)

unfoldable pub refusal_reason : Option String → String
refusal_reason none = "frame_handler_failed"
refusal_reason (some code) =
    if is_refusal_code code then word_of (lower (codes code)) else "frame_handler_failed"

-- The digest of the body, if there is one.
abbrev pub with_digest : Station → Option Text → Fields → Fields
with_digest st none base = base
with_digest st (some []) base = base
with_digest st (some (c ∷ t)) base =
    let digest = body_digest (world_of st 0 none) (st.encode (c ∷ t)) in
    record base {
      body_bytes = some digest.size;
      body_sha256 = some digest.sha;
      body_capped = digest.capped;
    }

abbrev pub pid_of : Option Peer → Option ℕ
pid_of none = none
pid_of (some peer) = some peer.pid

abbrev pub refused_fields :
    Station → Context → Frame → Option Peer → Option String → Option Text → Fields
refused_fields st context frame peer code id =
    with_digest st (unwrap_envelope st.hidden_in frame.content frame.from) (record no_fields {
      connection_id = some context.connection;
      frame_ordinal = some context.ordinal;
      reason = some (refusal_reason code);
      message_id = id;
      peer_pid = pid_of peer;
    })

abbrev pub recorded : Outcome Row × Line → Ending × Line
recorded (ok row, l) = (taken, l)
recorded (err code, l) = (thrown code none, l)

-- The rows of the handler: a refusal is passed on even if its row fails.
abbrev pub record_ending : Station → Context → Frame → Option Peer → Ending × Line → Ending × Line
record_ending st context frame peer (taken, l) = (taken, l)
record_ending st context frame peer (uncorrelated reason detail, l) = recorded (
    append_line st.net "peer_frame_uncorrelated"
      (record detail {
        connection_id = some context.connection;
        frame_ordinal = some context.ordinal;
        reason = some reason;
      })
      l)
record_ending st context frame peer (thrown code id, l) = (
  thrown code id,
  (append_line st.net "peer_frame_refused" (refused_fields st context frame peer code id) l).1,
)

abbrev pub observed : Station → List Observer → Frame → Option Peer → Ending × Line → Ending × Line
observed st observers frame peer (taken, l) = run_observers st observers frame peer taken l
observed st observers frame peer (uncorrelated reason detail, l) =
    run_observers st observers frame peer (uncorrelated reason detail) l
observed st observers frame peer (thrown code id, l) = (thrown code id, l)

-- The handler that `frameObserver` gives.
unfoldable pub frame_observer :
    Station → List Observer → Context → Frame → Option Peer → Line → Ending × Line
unfolding run_observers
frame_observer st observers context frame peer l =
    record_ending st context frame peer
      (observed st observers frame peer (accept_frame st frame peer l))
