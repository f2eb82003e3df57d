-- ===== src/Doorbells/Reach.antt =====
-- The service of src/core/doorbell-service.mjs over time: its operations in any order, and the bounds that
-- hold of every ledger they reach.
use universal_peer_mcp.Prelude.{Option, [], String, Text, filter}
use universal_peer_mcp.Ledger.{Row}
use universal_peer_mcp.Doorbells.{Host, Bell, wait}
use universal_peer_mcp.Doorbells.Sweep.{on_append, is_ringable, sweep}
use universal_peer_mcp.Doorbells.Again.{
  ring_again, lost_aliases, ring_returned_claude, ring_relinked,
}
use universal_peer_mcp.Doorbells.Counts.{Bounded}
use universal_peer_mcp.Doorbells.Bounds.{Fair}
use universal_peer_mcp.Doorbells.Keeps.{
  on_append-Bounded, sweep_posts-Bounded, ring_again-Bounded, ring_aliases-Bounded,
  ring_relinked-Bounded,
}

-- What the service does, one operation after the other: the hook of a row, the sweep, the second
-- chances, and whatever others do in between.
pub data Step (h : Host) : Bell → Bell → Type 0 where
  appended : (row : Row) (b : Bell) → Step h b (on_append h row b).1
  swept : (b : Bell) → Step h b (sweep h b).1
  back :
      (alias : String) (binding : Option Text) (b : Bell)
      → Step h b (ring_again h alias binding b).1
  returned : (b : Bell) → Step h b (ring_returned_claude h b).1
  moved : (id : Text) (b : Bell) → Step h b (ring_relinked h id b).1
  waited : (b : Bell) → Step h b (wait h b)

pub data Reach (h : Host) (b : Bell) : Bell → Type 0 where
  here : Reach h b b
  next : {c d : Bell} → Reach h b c → Step h c d → Reach h b d

Step-Bounded :
    (h : Host)
    → Fair h
    → {b c : Bell} → Step h b c
    → Bounded b.store.events
    → Bounded c.store.events
unfolding sweep ring_returned_claude
Step-Bounded h fair (appended row b) k = on_append-Bounded h fair row b k
Step-Bounded h fair (swept b) k = sweep_posts-Bounded h fair (filter is_ringable b.store.events) b k
Step-Bounded h fair (back alias binding b) k = ring_again-Bounded h fair alias binding b k
Step-Bounded h fair (returned b) k =
    ring_aliases-Bounded h fair (lost_aliases [] b.store.events) b k
Step-Bounded h fair (moved id b) k = ring_relinked-Bounded h fair id b k
Step-Bounded h fair (waited b) k = fair b.waits b.store k

-- In every ledger that the operations reach, in any order and with any answers of the transports, each
-- message has at most one intent, two re-rings, and one ring for each relink, if that was so at first and the
-- rest of the daemon keeps it so while the service waits.
pub Reach-Bounded :
    (h : Host) {b c : Bell} → Fair h → Reach h b c → Bounded b.store.events → Bounded c.store.events
Reach-Bounded h fair here k = k
Reach-Bounded h fair (next reached step) k =
    Step-Bounded h fair step (Reach-Bounded h fair reached k)
