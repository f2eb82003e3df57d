-- ===== src/Posts/Inbox/Lineage.antt =====
-- The lineage of a session is its closure under proven successions (`sessionLineage` of
-- src/core/posts.mjs), and the loop that computes it ends.
use mathlib.Core.List.{Memᴰ}
use universal_peer_mcp.Prelude.{
  ℕ, zero, suc, ◌+◌, ◌≤◌, ◌<◌, ◌≡◌, refl, sym, subst, true, false, not, ◌&&◌, Option, none, some,
  List, [], ◌∷◌, String, Text, arith, same_text, same_text_sound, same_text_refl, ltb, count,
  length, All, inl, inr, Bool-cases, ◌↔◌,
}
use universal_peer_mcp.Ledger.{Row}
use universal_peer_mcp.Posts.Inbox.{
  Edge, has, sweep, close, edges, binding_key, session_lineage, claude, codex, start,
}

-- The keys that successions lead to from a set of keys.
pub data Reaches (es : List Edge) (from_keys : List Text) : Text → Type 0 where
  here : {key : Text} → has key from_keys ≡ true → Reaches es from_keys key
  back : {to from : Text} → Memᴰ (to, from) es → Reaches es from_keys to → Reaches es from_keys from

has-sound :
    (P : Text → Type 0) (key : Text) (keys : List Text) → All P keys → has key keys ≡ true → P key
has-sound P key [] h k = absurd (ground arith)
has-sound P key (x ∷ keys) (p, h) k = elim (Bool-cases (same_text key x)) [
  | inl same ↦ subst P (sym (same_text_sound key x same)) p
  | inr other ↦ has-sound P key keys h (ground arith)
]

sweep_mono :
    (es : List Edge) (l : List Text) (key : Text) → has key l ≡ true → has key (sweep es l) ≡ true
unfolding sweep
sweep_mono [] l key h = h
sweep_mono ((to, from) ∷ es) l key h = sweep_mono es _ key (ground arith)

sweep-length : (es : List Edge) (l : List Text) → length l ≤ length (sweep es l)
unfolding sweep
sweep-length [] l = omega arith
sweep-length ((to, from) ∷ es) l = elim (Bool-cases (has to l && not (has from l))) [
  | inl new ↦ rw new (omega (arith, sweep-length es (from ∷ l)))
  | inr old ↦ rw old (sweep-length es l)
]

abbrev pub IsClosed : List Text → List Edge → Type 0
IsClosed l es = All (λ e. has e.0 l ≡ true → has e.1 l ≡ true) es

-- A round that adds nothing has found every edge satisfied.
sweep-IsClosed : (es : List Edge) (l : List Text) → length (sweep es l) ≤ length l → IsClosed l es
unfolding sweep
sweep-IsClosed [] l h = tt
sweep-IsClosed ((to, from) ∷ es) l h = elim (Bool-cases (has to l && not (has from l))) [
  | inl new ↦ absurd (let h' = rw new at h in omega (arith, sweep-length es (from ∷ l), h'))
  | inr old ↦ ((λ k. ground arith), sweep-IsClosed es l (rw old at h))
]

-- What a round adds is reached.
sweep_sound :
    (all_es es : List Edge) (from_keys l : List Text)
    → All (λ e. Memᴰ e all_es) es
    → All (Reaches all_es from_keys) l
    → All (Reaches all_es from_keys) (sweep es l)
unfolding sweep
sweep_sound all_es [] from_keys l m h = h
sweep_sound all_es ((to, from) ∷ es) from_keys l (m, ms) h =
    elim (Bool-cases (has to l && not (has from l))) [
      | inr old ↦ rw old (sweep_sound all_es es from_keys l ms h)
      | inl new ↦ rw new (
          sweep_sound all_es es from_keys (from ∷ l) ms
            (back m (has-sound (Reaches all_es from_keys) to l h (ground arith)), h))
    ]

-- The edges whose end is not yet in the set bound the rounds that are left.
missing : List Edge → List Text → ℕ
missing es l = count (λ e. not (has e.1 l)) es

missing-cons : (es : List Edge) (l : List Text) (x : Text) → missing es (x ∷ l) ≤ missing es l
unfolding missing
missing-cons [] l x = omega arith
missing-cons (e ∷ es) l x = ground (arith, missing-cons es l x)

missing-new :
    (es : List Edge) (l : List Text) (to from : Text)
    → Memᴰ (to, from) es
    → has from l ≡ false
    → missing es (from ∷ l) + 1 ≤ missing es l
unfolding missing
missing-new [] l to from m h = elim m [ ]
missing-new (x ∷ es) l to from (Memᴰ.head e) h =
    subst (λ (y : Edge). missing (y ∷ es) (from ∷ l) + 1 ≤ missing (y ∷ es) l) e
      (ground (arith, same_text_refl from, missing-cons es l from))
missing-new (x ∷ es) l to from (Memᴰ.tail m) h = ground (arith, missing-new es l to from m h)

missing-le : (es : List Edge) (l : List Text) → missing es l ≤ length es
unfolding missing
missing-le [] l = omega arith
missing-le (e ∷ es) l = ground (arith, missing-le es l)

sweep-missing :
    (all_es es : List Edge) (l : List Text)
    → All (λ e. Memᴰ e all_es) es
    → missing all_es (sweep es l) + length (sweep es l) ≤ missing all_es l + length l
unfolding sweep
sweep-missing all_es [] l m = omega arith
sweep-missing all_es ((to, from) ∷ es) l (m, ms) =
    elim (Bool-cases (has to l && not (has from l))) [
      | inr old ↦ rw old (sweep-missing all_es es l ms)
      | inl new ↦ rw new (
          omega (
            arith,
            sweep-missing all_es es (from ∷ l) ms,
            missing-new all_es l to from m (ground arith),
          ))
    ]

All-mem : (all_es : List Edge) → All (λ e. Memᴰ e all_es) all_es
All-mem [] = tt
All-mem (e ∷ es) = (Memᴰ.head refl, weaken es (All-mem es))
  where
    weaken : (xs : List Edge) → All (λ x. Memᴰ x es) xs → All (λ x. Memᴰ x (e ∷ es)) xs
    weaken [] h = tt
    weaken (x ∷ xs) (m, h) = (Memᴰ.tail m, weaken xs h)

-- The loop ends in a closed set that holds the start and nothing that is not reached.
pub record IsClosure (es : List Edge) (from_keys l : List Text) : Type 0 where
  pub kept : (key : Text) → has key from_keys ≡ true → has key l ≡ true
  pub closed : IsClosed l es
  pub reached : All (Reaches es from_keys) l

close-IsClosure :
    (es : List Edge) (from_keys : List Text) (fuel : ℕ) (l : List Text)
    → missing es l < fuel
    → ((key : Text) → has key from_keys ≡ true → has key l ≡ true)
    → All (Reaches es from_keys) l
    → (found : List Text) × (close fuel es l ≡ some found) × IsClosure es from_keys found
unfolding close
close-IsClosure es from_keys zero l m keep reach = absurd (omega arith)
close-IsClosure es from_keys (suc fuel) l m keep reach =
    elim (Bool-cases (ltb (length l) (length (sweep es l)))) [
      | inl grew ↦
          let h = sweep-missing es es l (All-mem es) in
          rw grew (
            close-IsClosure es from_keys fuel (sweep es l) (ground arith)
              (λ key k. sweep_mono es l key (keep key k))
              (sweep_sound es es from_keys l (All-mem es) reach))
      | inr done ↦ (
        l,
        rw done,
        record { kept = keep; closed = sweep-IsClosed es l (ground arith); reached = reach },
      )
    ]

edge_closed :
    (es : List Edge) (l : List Text) (to from : Text)
    → IsClosed l es
    → Memᴰ (to, from) es
    → has to l ≡ true
    → has from l ≡ true
edge_closed [] l to from c m h = elim m [ ]
edge_closed (x ∷ es) l to from (c, cs) (Memᴰ.head e) h =
    subst (λ (y : Edge). has y.1 l ≡ true) (sym e) (c (subst (λ (y : Edge). has y.0 l ≡ true) e h))
edge_closed (x ∷ es) l to from (c, cs) (Memᴰ.tail m) h = edge_closed es l to from cs m h

Reaches-has :
    {es : List Edge} {from_keys : List Text} (l : List Text) {key : Text}
    → IsClosure es from_keys l
    → Reaches es from_keys key
    → has key l ≡ true
Reaches-has l c (here {key} h) = c.kept key h
Reaches-has {es} l c (back {to} {from} m r) =
    edge_closed es l to from c.closed m (Reaches-has l c r)

start-Reaches : (es : List Edge) (key : Option Text) → All (Reaches es (start key)) (start key)
start-Reaches es none = tt
start-Reaches es (some key) = (here (rw same_text_refl), tt)

-- The loop of `sessionLineage` ends for every ledger, and its result holds exactly the keys that the
-- proven successions of the alias lead to from the session; a Codex thread's holds its own key alone.
pub session_lineage_iff :
    (events : List Row) (alias : String) (session : Option Text)
    → ((lineage : List Text) × (session_lineage events alias (claude session) ≡ some lineage)
        × ((key : Text)
            → (has key lineage ≡ true)
              ↔ Reaches (edges events alias) (start (binding_key "claude" session)) key))
      × (session_lineage events alias (codex session) ≡ some (start (binding_key "codex" session)))
unfolding session_lineage
session_lineage_iff events alias session =
    let es = edges events alias in
    let first = start (binding_key "claude" session) in
    let (found, ends, c) =
      close-IsClosure es first (suc (length es)) first (omega (arith, missing-le es first))
        (λ key h. h) (start-Reaches es (binding_key "claude" session)) in
    (
      (found, ends, λ key. (has-sound (Reaches es first) key found c.reached, Reaches-has found c)),
      refl,
    )
