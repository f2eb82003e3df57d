-- ===== src/Doorbells/Counts.antt =====
-- How often the service claims a message (src/core/doorbell-service.mjs): what one write does to the
-- counts of intents, re-rings and rings after a relink.
use universal_peer_mcp.Prelude.{
  ℕ, ◌+◌, ◌≤◌, ◌<◌, ◌≡◌, ◌∙◌, refl, sym, ap, subst, Bool, true, false, ◌&&◌, ◌||◌, Option, none,
  some, List, [], ◌∷◌, ◌++◌, String, Text, arith, lower, same_text, same_text_sound, str_eq, ◌==◌,
  ==_iff, any, count, count-append, Outcome, ok, err, inl, inr, Bool-cases, and-eq-true,
}
use universal_peer_mcp.Limits.{same_uuid}
use universal_peer_mcp.Ledger.{Row, Fields, is_type, Store, Moment, append, append_checked}
use universal_peer_mcp.Ledger.Requests.{is_for}
use universal_peer_mcp.Ledger.Sequence.{
  Appended, append-Appended, append_checked-Appended, append_checked-conflict, count_once,
}
use universal_peer_mcp.Ledger.Reserve.{is_for-congr}
use universal_peer_mcp.Doorbells.{Host, id_of, text_or_empty}
use universal_peer_mcp.Doorbells.Ring.{intent_dup}
use universal_peer_mcp.Doorbells.Again.{
  keyed, max_rerings, eligible_again, rering_test, is_relink_ring, relink_ring_test,
}

-- For each message: one intent at most, `MAX_RERINGS` re-rings, and one ring for each relink.
unfoldable pub Bounded : List Row → Type 0
Bounded events =
    (id : Text)
    → (count (is_for "doorbell_intent" (some id)) events ≤ 1)
      × (count (keyed "doorbell_rering" id) events ≤ max_rerings)
      × ((g : ℕ) → count (is_relink_ring id g) events ≤ 1)

-- The types of the rows that are counted.
abbrev pub is_counted : String → Bool
is_counted type =
    str_eq type "doorbell_intent"
    || (str_eq type "doorbell_rering" || str_eq type "doorbell_relink_ring")

count-miss :
    (p : Row → Bool) (rows : List Row) (row : Row)
    → p row ≡ false
    → count p (rows ++ row ∷ []) ≡ count p rows
count-miss p rows row miss = rw (count-append p rows (row ∷ []), miss) (omega arith)

-- A row adds at most one to any count.
count-snoc :
    (p : Row → Bool) (rows : List Row) (row : Row) → count p (rows ++ row ∷ []) ≤ count p rows + 1
count-snoc p rows row = rw (count-append p rows (row ∷ [])) (ground arith)

-- A row of a type that is not counted leaves the bounds.
Bounded-miss :
    (events : List Row) (row : Row)
    → is_counted row.type ≡ false
    → Bounded events
    → Bounded (events ++ row ∷ [])
unfolding Bounded
Bounded-miss events row plain h id =
    let (intents, rerings, relinks) = h id in
    (
      rw (count-miss (is_for "doorbell_intent" (some id)) events row (ground arith)) intents,
      rw (count-miss (keyed "doorbell_rering" id) events row (ground arith)) rerings,
      λ g. rw (count-miss (is_relink_ring id g) events row (ground arith)) (relinks g),
    )

-- Two spellings of the id of a row ask for the same rows.
is_for-same :
    (type : String) (row : Row) (id other : Text)
    → same_uuid row.message_id (some id) ≡ true
    → same_uuid row.message_id (some other) ≡ true
    → is_for type (some id) ≡ is_for type (some other)
is_for-same type row id other a b =
    sym (is_for-congr type row.message_id (some id) a)
    ∙ is_for-congr type row.message_id (some other) b

intent-snoc :
    (events : List Row) (row : Row) (id : Text)
    → row.type ≡ "doorbell_intent"
    → same_uuid row.message_id (some id) ≡ true
    → intent_dup id events ≡ none
    → Bounded events
    → Bounded (events ++ row ∷ [])
unfolding Bounded
intent-snoc events row id typed same new h other =
    let (intents, rerings, relinks) = h other in
    (
      count_once (is_for "doorbell_intent" (some other)) events row intents (λ hit.
          subst (λ p. any p events ≡ false)
            (is_for-same "doorbell_intent" row id other same
              (and-eq-true (is_type "doorbell_intent" row) _ hit).1)
            (ground arith)),
      rw (count-miss (keyed "doorbell_rering" other) events row (rw typed refl)) rerings,
      λ g. rw (count-miss (is_relink_ring other g) events row (rw typed refl)) (relinks g),
    )

keyed-id :
    (type : String) (row : Row) (id : Text)
    → keyed type id row ≡ true
    → lower (id_of row) ≡ lower id
keyed-id type row id hit = go row.message_id refl
  where
    go : (m : Option Text) → row.message_id ≡ m → lower (id_of row) ≡ lower id
    go none e = absurd (ground arith)
    go (some m) e = rw e (same_text_sound (lower m) (lower id) (ground arith))

rering-snoc :
    (h : Host) (k : ℕ) (post : Row) (events : List Row) (row : Row)
    → row.type ≡ "doorbell_rering"
    → row.message_id ≡ post.message_id
    → rering_test h k post events ≡ none
    → Bounded events
    → Bounded (events ++ row ∷ [])
unfolding Bounded eligible_again
rering-snoc h k post events row typed same eligible b other =
    let (intents, rerings, relinks) = b other in
    (
      rw (count-miss (is_for "doorbell_intent" (some other)) events row (rw typed refl)) intents,
      elim (Bool-cases (keyed "doorbell_rering" other row)) [
        | inr miss ↦ rw (count-miss (keyed "doorbell_rering" other) events row miss) rerings
        | inl hit ↦
            let ids : lower (id_of post) ≡ lower other =
              ap (λ m. lower (text_or_empty m)) (sym same)
              ∙ keyed-id "doorbell_rering" row other hit in
            let few : count (keyed "doorbell_rering" other) events < max_rerings =
              subst
                (λ (l : Text).
                  count
                    (λ r.
                      is_type "doorbell_rering" r
                      && elim r.message_id [ none ↦ false | some m ↦ same_text (lower m) l ])
                    events
                  < max_rerings)
                ids (ground arith) in
            omega (arith, count-snoc (keyed "doorbell_rering" other) events row)
      ],
      λ g. rw (count-miss (is_relink_ring other g) events row (rw typed refl)) (relinks g),
    )

any-or :
    (p q : Row → Bool) (rows : List Row) → any (λ r. p r || q r) rows ≡ false → any q rows ≡ false
any-or p q [] h = refl
any-or p q (r ∷ rs) h = ground (arith, any-or p q rs)

relink-snoc :
    (events : List Row) (row : Row) (id : Text) (g : ℕ)
    → row.type ≡ "doorbell_relink_ring"
    → same_uuid row.message_id (some id) ≡ true
    → row.relink_seq ≡ some g
    → relink_ring_test id g events ≡ none
    → Bounded events
    → Bounded (events ++ row ∷ [])
unfolding Bounded
relink-snoc events row id g typed same numbered new h other =
    let (intents, rerings, relinks) = h other in
    (
      rw (count-miss (is_for "doorbell_intent" (some other)) events row (rw typed refl)) intents,
      rw (count-miss (keyed "doorbell_rering" other) events row (rw typed refl)) rerings,
      λ g'. count_once (is_relink_ring other g') events row (relinks g') (λ hit.
          let (named, counted) =
            and-eq-true (is_for "doorbell_relink_ring" (some other) row) _ hit in
          let number : g ≡ g' = (==_iff g g').0 (rw numbered at counted) in
          subst (λ n. any (is_relink_ring other n) events ≡ false) number
            (subst
              (λ (p : Row → Bool).
                any (λ r. p r && elim r.relink_seq [ none ↦ false | some n ↦ n == g ]) events
                ≡ false)
              (is_for-same "doorbell_relink_ring" row id other same
                (and-eq-true (is_type "doorbell_relink_ring" row) _ named).1)
              (any-or (is_for "peer_post_processed" (some id)) (is_relink_ring id g) events
                (ground arith)))),
    )

module _ (line_bytes : Row → ℕ) (m : Moment) (fields : Fields) (s : Store) where
  pub append-Bounded :
      (type : String)
      → is_counted type ≡ false
      → Bounded s.events
      → Bounded (append line_bytes m type fields s).1.events
  append-Bounded type plain h =
      go (append line_bytes m type fields s) (append-Appended line_bytes m type fields s _ refl)
    where
      go : (r : Outcome Row × Store) → Appended s type fields r → Bounded r.1.events
      go (ok row, t) (_, _, typed, _, _, grown, _) =
          subst Bounded (sym grown) (Bounded-miss s.events row (rw typed plain) h)
      go (err code, t) (same, _) = subst Bounded (sym same) h

  -- A claim that adds a row only where the row keeps the bounds.
  claim-Bounded :
      (type : String) (test : List Row → Option String)
      → ((row : Row)
          → row.type ≡ type
          → row.fields ≡ fields
          → test s.events ≡ none
          → Bounded (s.events ++ row ∷ []))
      → Bounded s.events
      → Bounded (append_checked line_bytes m type fields test s).1.events
  claim-Bounded type test keeps h = go (append_checked line_bytes m type fields test s) refl
    where
      go :
          (r : Outcome Row × Store)
          → append_checked line_bytes m type fields test s ≡ r
          → Bounded r.1.events
      go (ok row, t) e =
          let (_, _, typed, same, _, grown, _) =
            append_checked-Appended line_bytes m type fields test s (ok row, t) e in
          subst Bounded (sym grown)
            (keeps row typed same (append_checked-conflict line_bytes m type fields test s row t e))
      go (err code, t) e =
          let (same, _) = append_checked-Appended line_bytes m type fields test s (err code, t) e in
          subst Bounded (sym same) h

  pub intent-Bounded :
      (id : Text)
      → same_uuid fields.message_id (some id) ≡ true
      → Bounded s.events
      → Bounded (append_checked line_bytes m "doorbell_intent" fields (intent_dup id) s).1.events
  intent-Bounded id same h =
      claim-Bounded "doorbell_intent" (intent_dup id)
        (λ row typed data' new.
          intent-snoc s.events row id typed
            (subst (λ (f : Fields). same_uuid f.message_id (some id) ≡ true) (sym data') same) new
            h)
        h

  pub rering-Bounded :
      (h : Host) (k : ℕ) (post : Row)
      → fields.message_id ≡ post.message_id
      → Bounded s.events
      → Bounded
          (append_checked line_bytes m "doorbell_rering" fields (rering_test h k post) s).1.events
  rering-Bounded h k post same b =
      claim-Bounded "doorbell_rering" (rering_test h k post)
        (λ row typed data' new.
          rering-snoc h k post s.events row typed (ap (λ (f : Fields). f.message_id) data' ∙ same)
            new b)
        b

  pub relink-Bounded :
      (id : Text) (g : ℕ)
      → same_uuid fields.message_id (some id) ≡ true
      → fields.relink_seq ≡ some g
      → Bounded s.events
      → Bounded
          (append_checked line_bytes m "doorbell_relink_ring" fields
            (relink_ring_test id g)
            s).1.events
  relink-Bounded id g same numbered b =
      claim-Bounded "doorbell_relink_ring" (relink_ring_test id g)
        (λ row typed data' new.
          relink-snoc s.events row id g typed
            (subst (λ (f : Fields). same_uuid f.message_id (some id) ≡ true) (sym data') same)
            (ap (λ (f : Fields). f.relink_seq) data' ∙ numbered) new b)
        b
