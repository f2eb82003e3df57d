-- ===== src/Frames/Evidence.antt =====
-- The daemon's frame handler (`frameObserver` of src/core/peer-core.mjs) and the evidence of the ledger.
use universal_peer_mcp.Prelude.{refl, Option, some, List, [], ◌∷◌, Outcome, ok, err}
use universal_peer_mcp.Ledger.{Row}
use universal_peer_mcp.Core.{Line, pause, append_line}
use universal_peer_mcp.Frames.{Peer, Frame, Station, Ending, taken, uncorrelated, thrown}
use universal_peer_mcp.Frames.Accept.{accept_frame}
use universal_peer_mcp.Frames.Observe.{
  Context, Seen, took, passed, failed, Observer, run_observers, refused_fields, recorded,
  record_ending, observed, frame_observer,
}
use universal_peer_mcp.Frames.Attested.{Attested, Keeps, Keeps-refl, Keeps-trans}
use universal_peer_mcp.Frames.Steps.{Fair, From, pause-From, append_plain-From}
use universal_peer_mcp.Frames.Sound.{accept_frame-From}

module _ (st : Station) (fair : Fair st) (frame : Frame) (peer : Option Peer) where
  run_observers-From :
      (observers : List Observer) (ending : Ending) (l : Line)
      → From st l (run_observers st observers frame peer ending l)
  unfolding run_observers
  run_observers-From [] ending l = Keeps-refl st.net.rendering l.store
  run_observers-From (observe ∷ observers) ending l =
      go (λ e. run_observers-From observers e (pause st.net l)) (observe l.waits frame peer)
    where
      later : Ending → Ending × Line
      later e = run_observers st observers frame peer e (pause st.net l)

      next : (e : Ending) → From st (pause st.net l) (later e) → From st l (later e)
      next e =
          Keeps-trans st.net.rendering l.store (pause st.net l).store (later e).1.store
            (pause-From st fair l)

      go :
          ((e : Ending) → From st (pause st.net l) (later e))
          → (seen : Seen)
          → From st l (elim seen as (λ q. Ending × Line) [
            | took ↦ run_observers st observers frame peer taken (pause st.net l)
            | passed ↦ run_observers st observers frame peer ending (pause st.net l)
            | failed code id ↦ (thrown code id, pause st.net l)
          ])
      go h took = next taken (h taken)
      go h passed = next ending (h ending)
      go h (failed code id) = pause-From st fair l

  observed-From :
      (observers : List Observer) (r : Ending × Line)
      → Keeps st.net.rendering r.1.store (observed st observers frame peer r).1.store
  observed-From observers (taken, l) = run_observers-From observers taken l
  observed-From observers (uncorrelated reason detail, l) =
      run_observers-From observers (uncorrelated reason detail) l
  observed-From observers (thrown code id, l) = Keeps-refl st.net.rendering l.store

  recorded-From : (l : Line) (r : Outcome Row × Line) → From st l r → From st l (recorded r)
  recorded-From l (ok row, l') h = h
  recorded-From l (err code, l') h = h

  record_ending-From :
      (context : Context) (r : Ending × Line)
      → Keeps st.net.rendering r.1.store (record_ending st context frame peer r).1.store
  record_ending-From context (taken, l) = Keeps-refl st.net.rendering l.store
  record_ending-From context (uncorrelated reason detail, l) =
      recorded-From l
        (append_line st.net "peer_frame_uncorrelated"
          (record detail {
            connection_id = some context.connection;
            frame_ordinal = some context.ordinal;
            reason = some reason;
          })
          l)
        (append_plain-From st fair "peer_frame_uncorrelated" _ l refl)
  record_ending-From context (thrown code id, l) =
      append_plain-From st fair "peer_frame_refused" (refused_fields st context frame peer code id)
        l refl

  frame_observer-Keeps :
      (observers : List Observer) (context : Context) (l : Line)
      → From st l (frame_observer st observers context frame peer l)
  unfolding frame_observer
  frame_observer-Keeps observers context l =
      Keeps-trans st.net.rendering l.store heard.1.store
        (record_ending st context frame peer heard).1.store
        (Keeps-trans st.net.rendering l.store answer.1.store heard.1.store
          (accept_frame-From st fair frame peer l) (observed-From observers answer))
        (record_ending-From context heard)
    where
      answer : Ending × Line
      answer = accept_frame st frame peer l

      heard : Ending × Line
      heard = observed st observers frame peer answer

-- Whatever a peer writes and whatever the hooks and observers answer, the frame handler keeps every
-- row of evidence of the ledger proved: an ack, reply, status, failure or idle notice names the process and
-- start time that a request of its message was sent to. The rest of the daemon may add rows
-- meanwhile that keep this too.
pub frame_observer-Attested :
    (st : Station) (observers : List Observer) (context : Context) (frame : Frame)
    (peer : Option Peer) (l : Line)
    → Fair st
    → Attested st.net.rendering l.store.events
    → Attested st.net.rendering (frame_observer st observers context frame peer l).1.store.events
frame_observer-Attested st observers context frame peer l fair h =
    (frame_observer-Keeps st fair frame peer observers context l).1 h
