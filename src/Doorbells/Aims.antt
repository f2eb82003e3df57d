-- ===== src/Doorbells/Aims.antt =====
-- What a ring sends, and when (`ring` of src/core/doorbell-service.mjs).
use universal_peer_mcp.Prelude.{
  ◌≡◌, ◌∙◌, ◌≤◌, refl, sym, subst, Bool, true, false, not, Option, none, some, find?-append_some,
  same_text, String, Text, arith, ◌==◌, if◌then◌else◌,
}
use universal_peer_mcp.Limits.{same_uuid}
use universal_peer_mcp.Ledger.{Row}
use universal_peer_mcp.Ledger.Requests.{is_for}
use universal_peer_mcp.Posts.Accept.{Grows, Grows-refl, Grows-trans}
use universal_peer_mcp.Doorbells.{
  Host, Bell, Sent, send_out, woke, queued, wrote, post_of, is_done, is_some, id_of, generation_of,
  binding_of, or_else, current_peer, Attempt, attempt_of, authorize, authorize_alias,
}

-- The session or thread that a ring goes to.
abbrev pub aim : Sent → Option Text
aim (woke thread key) = thread
aim (queued thread) = thread
aim (wrote session id) = session

-- A later moment: rows may have been added, and nothing was sent.
abbrev pub Later : Bell → Bell → Type 0
Later b c = Grows b.store c.store × (b.waits ≤ c.waits) × (c.sent ≡ b.sent)

pub Later-refl : (b : Bell) → Later b b
Later-refl b = (Grows-refl b.store, omega arith, refl)

pub Later-trans : (b c d : Bell) → Later b c → Later c d → Later b d
Later-trans b c d (grows, waits, same) (grows', waits', same') =
    (Grows-trans b.store c.store d.store grows grows', omega arith, same' ∙ same)

-- At this moment the attempt may be sent: its message was not processed and not linked again since the attempt was
-- made, and the alias of its recipient names the session or thread that the attempt is bound to.
abbrev pub May : Host → Row → Attempt → Bell → Type 0
May h post attempt b =
    (alias : String) × (post.recipient ≡ some alias)
    × (attempt.generation ≡ generation_of post b.store.events)
    × (is_done (id_of post) b.store.events ≡ false)
    × (same_uuid (current_peer h b.waits post alias) attempt.binding ≡ true)

-- All that is sent from one moment to another: each piece goes out at a moment at which the attempt may be sent,
-- to the session or thread that the attempt is bound to.
pub data Rings (h : Host) (post : Row) (attempt : Attempt) : Bell → Bell → Type 0 where
  quiet : {b c : Bell} → Later b c → Rings h post attempt b c
  sends :
      {b c d : Bell} (piece : Sent)
      → Later b c
      → May h post attempt c
      → aim piece ≡ attempt.binding
      → Rings h post attempt (send_out h piece c) d
      → Rings h post attempt b d

pub if-Rings {ℓ} :
    {A : Type ℓ} (h : Host) (post : Row) (attempt : Attempt) (b : Bell) (t : Bool) (x y : A × Bell)
    → Rings h post attempt b x.1
    → Rings h post attempt b y.1
    → Rings h post attempt b (if t then x else y).1
if-Rings h post attempt b true x y hx hy = hx
if-Rings h post attempt b false x y hx hy = hy

-- The ledger has the post under its own id.
abbrev pub IsFound : Row → Bell → Type 0
IsFound post b = post_of (id_of post) b.store.events ≡ some post

pub Later-IsFound : (post : Row) (b c : Bell) → Later b c → IsFound post b → IsFound post c
Later-IsFound post b c ((xs, e), _, _) found =
    subst (λ rows. post_of (id_of post) rows ≡ some post) (sym e)
      (find?-append_some (is_for "peer_post" (some (id_of post))) b.store.events xs post found)

-- What `authorize` has seen when it lets an attempt through.
pub authorize-May :
    (h : Host) (post : Row) (attempt : Attempt) (b : Bell)
    → IsFound post b
    → is_some (or_else attempt.binding (binding_of post b.store.events)) ≡ is_some attempt.binding
    → authorize h b.waits post.recipient (id_of post) attempt b.store.events ≡ none
    → (is_some attempt.binding ≡ true) × May h post attempt b
unfolding authorize authorize_alias
authorize-May h post attempt b found kept allowed =
    let seen =
      last (not (same_text attempt.attempt_key (attempt_of h post b.store.events).attempt_key))
        (attempt.generation == generation_of post b.store.events) "WAKE_GENERATION_STALE" _
        (rw (authorize, found) at allowed) in
    go post.recipient refl attempt.binding refl kept seen.1 (ground (arith, seen.0))
  where
    last :
        (t u : Bool) (a : String) (x : Option String)
        → (if t then some a else if not u then some a else x) ≡ none
        → (u ≡ true) × (x ≡ none)
    last t u a x e = (ground arith, ground arith)

    go :
        (r : Option String)
        → post.recipient ≡ r
        → (bound : Option Text) → attempt.binding ≡ bound
        → is_some (or_else bound (binding_of post b.store.events)) ≡ is_some bound
        → authorize_alias h b.waits r
            (id_of post)
            (or_else bound (binding_of post b.store.events))
            b.store.events
            post
          ≡ none
        → attempt.generation ≡ generation_of post b.store.events
        → (is_some attempt.binding ≡ true) × May h post attempt b
    go none named bound e kept passed same = absurd (ground arith)
    go (some a) named none e kept passed same = absurd (ground arith)
    go (some a) named (some t) e kept passed same =
        (rw e refl, (a, named, same, ground arith, rw e (ground arith)))
