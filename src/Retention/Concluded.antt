-- ===== src/Retention/Concluded.antt =====
-- What the pass of `expireInboundBodies` (src/core/retention.mjs) takes away.
use universal_peer_mcp.Prelude.{
  ℕ, ◌+◌, ◌≡◌, ◌∙◌, ◌⊎◌, refl, sym, ap₂, true, not, ◌&&◌, ◌||◌, List, [], ◌∷◌, ◌++◌, String, arith,
  append_assoc, ltb, leb, Outcome, ok, err, inl, inr, Bool-cases, Option-cases,
}
use universal_peer_mcp.Ledger.{Row, Fields}
use universal_peer_mcp.Retention.{
  Site, Rest, Deletion, expired, missing, passed_over, ledger_append_failed, unlink_failed, Deleted,
  is_source, is_concluded, concluded_state, has_seq, append_at, source_fields, delete_body, one_of,
}
use universal_peer_mcp.Retention.Pass.{
  Pass, Settings, is_old, exceeded_alerts_per_run, after_exceeded, keep_unprocessed, after_deletion,
  expire_row, is_stopped, expire_rows, begin, last_alarm, expire_inbound_bodies,
}
use universal_peer_mcp.Retention.Safety.{
  Grown, IsThere, Keeps, kept-IsThere, Leaves, Expired, Expired-Grown, Safe, append_at-Grown,
  delete_body-Safe,
}

abbrev pub Among : Row → List Row → Type 0
Among row rows = (before : List Row) × (after : List Row) × (rows ≡ before ++ row ∷ after)

-- A row that was in the ledger when the pass began names the file `f`; it was old then and its message
-- concluded; and the file's expiry is in the ledger `t`.
abbrev pub Due : Rest → Settings → String → Site → Site → Type 0
Due w cfg f s t =
    (row : Row) × Among row s.store.events
    × (is_source row ≡ true)
    × (is_old cfg row ≡ true)
    × (is_concluded row (concluded_state s.store.events) ≡ true)
    × Expired w row f s t

abbrev pub OnlyDue : Rest → Settings → Site → Site → Type 0
OnlyDue w cfg s t = (f : String) → IsThere s f → (t.files f ≡ s.files f) ⊎ Due w cfg f s t

module _ (w : Rest) (leaves : Leaves w) (cfg : Settings) (s : Site) where
  -- What holds of the variables of the pass all along.
  Sound : Pass → Type 0
  Sound p =
      OnlyDue w cfg s p.site
      × (p.state.concluded ≡ (concluded_state s.store.events).concluded)
      × (p.state.processed ≡ (concluded_state s.store.events).processed)

  same_conclusion :
      (row : Row) (p : Pass)
      → Sound p
      → is_concluded row p.state ≡ is_concluded row (concluded_state s.store.events)
  unfolding Sound is_concluded
  same_conclusion row p (_, ids, seqs) =
      ap₂ (λ c q. is_concluded row (record p.state { concluded = c; processed = q })) ids seqs

  OnlyDue-Grown : (t u : Site) → Grown t u → Keeps t u → OnlyDue w cfg s t → OnlyDue w cfg s u
  OnlyDue-Grown t u grown kept due f here = elim (due f here) [
    | inl same ↦ inl (kept f (kept-IsThere s t f same here) ∙ same)
    | inr (row, among, source, old, done, gone) ↦
        inr (row, among, source, old, done, Expired-Grown w row f s t u grown gone)
  ]

  keep_unprocessed-Sound :
      (k : ℕ) (row : Row) (p : Pass) → Sound p → Sound (keep_unprocessed w cfg k row p)
  unfolding keep_unprocessed Sound
  keep_unprocessed-Sound k row p (due, ids, seqs) =
      elim (Bool-cases (has_seq row.seq p.state.exceeded)) [
        | inl known ↦ rw (keep_unprocessed, known) (due, ids, seqs)
        | inr new ↦
            rw (keep_unprocessed, new)
              (written (append_at w k "inbound_body_retention_exceeded" fields p.site)
                (append_at-Grown w leaves k "inbound_body_retention_exceeded" fields p.site))
      ]
    where
      fields : Fields
      fields = record (source_fields row) { message_id = row.message_id }

      counted : Pass
      counted = record p { unprocessed = p.unprocessed + 1 }

      written :
          (r : Outcome Row × Site)
          → Grown p.site r.1 × Keeps p.site r.1
          → Sound (after_exceeded w cfg (k + 1) row counted r)
      written (err code, t) (grown, kept) = (OnlyDue-Grown p.site t grown kept due, ids, seqs)
      written (ok event, t) (grown, kept) =
          let now_due = OnlyDue-Grown p.site t grown kept due in
          elim (Bool-cases (cfg.has_alerts && ltb p.alerted exceeded_alerts_per_run)) [
            | inl rings ↦ rw rings (
              OnlyDue-Grown t (w.others (k + 1) t) (leaves (k + 1) t).0 (leaves (k + 1) t).1
                  now_due,
              ids,
              seqs,
            )
            | inr quiet ↦ rw quiet (now_due, ids, seqs)
          ]

  after_deletion-Sound :
      (f : String) (p : Pass) (d : Deleted)
      → Sound p
      → OnlyDue w cfg s d.left
      → Sound (after_deletion f p d)
  unfolding Sound
  after_deletion-Sound f p d (_, ids, seqs) due = go d.deletion refl
    where
      go : (how : Deletion) → d.deletion ≡ how → Sound (after_deletion f p d)
      go expired e = rw e (due, ids, seqs)
      go missing e = rw e (due, ids, seqs)
      go passed_over e = rw e (due, ids, seqs)
      go ledger_append_failed e = rw e (due, ids, seqs)
      go (unlink_failed code) e = rw e (due, ids, seqs)

  -- What the deletion of a due body's file leaves.
  deletion-OnlyDue :
      (row : Row) (t u : Site)
      → Among row s.store.events
      → is_source row ≡ true
      → is_old cfg row ≡ true
      → is_concluded row (concluded_state s.store.events) ≡ true
      → OnlyDue w cfg s t
      → Safe w row t u
      → OnlyDue w cfg s u
  deletion-OnlyDue row t u among source old done due (grown, changes) f here = elim (due f here) [
    | inr (r, a, b, c, d, gone) ↦ inr (r, a, b, c, d, Expired-Grown w r f s t u grown gone)
    | inl same ↦ elim (changes f (kept-IsThere s t f same here)) [
      | inl kept ↦ inl (kept ∙ same)
      | inr (named, bytes, there, digest, recorded) ↦
          inr (row, among, source, old, done, (named, bytes, sym same ∙ there, digest, recorded))
    ]
  ]

  OnlyDue-of : (p : Pass) → Sound p → OnlyDue w cfg s p.site
  unfolding Sound
  OnlyDue-of p (due, _, _) = due

  expire_row-Sound :
      (k : ℕ) (row : Row) (p : Pass)
      → Among row s.store.events
      → Sound p
      → Sound (expire_row w cfg k row p)
  unfolding expire_row
  expire_row-Sound k row p among sound = elim (Option-cases row.body_file) [
    | inl none_named ↦ rw (expire_row, none_named) sound
    | inr (f, named) ↦
        rw (expire_row, named)
          (elim (Bool-cases (not (is_source row) || (one_of p.done f || not (is_old cfg row)))) [
            | inl passed ↦ rw passed sound
            | inr looks ↦ rw looks (elim (Bool-cases (is_concluded row p.state)) [
              | inr waits ↦ rw waits (keep_unprocessed-Sound k row p sound)
              | inl concluded ↦ rw concluded (
                  after_deletion-Sound f p
                    (delete_body w k row f "retention" p.state.skipped p.site) sound
                    (deletion-OnlyDue row p.site
                      (delete_body w k row f "retention" p.state.skipped p.site).left among
                      (ground arith) (ground arith) (sym (same_conclusion row p sound) ∙ concluded)
                      (OnlyDue-of p sound)
                      (delete_body-Safe w leaves k row f "retention" p.state.skipped p.site named)))
            ])
          ])
  ]

  expire_rows-Sound :
      (k : ℕ) (rows before : List Row) (p : Pass)
      → s.store.events ≡ before ++ rows
      → Sound p
      → Sound (expire_rows w cfg k rows p)
  unfolding expire_rows
  expire_rows-Sound k [] before p all sound = sound
  expire_rows-Sound k (row ∷ rows) before p all sound =
      elim (Bool-cases (is_stopped p || leb cfg.limit p.expired_count)) [
        | inl ends ↦ rw (expire_rows, ends) sound
        | inr goes_on ↦
            rw (expire_rows, goes_on)
              (expire_rows-Sound (k + 4) rows (before ++ row ∷ []) (expire_row w cfg k row p)
                (all ∙ sym (append_assoc before (row ∷ []) rows))
                (expire_row-Sound k row p (before, rows, all) sound))
      ]

-- A pass of `expireInboundBodies`, whatever the disk does to it, takes a file that is there when it begins away only
-- if a row of the ledger names it that is older than the configured days and whose message was concluded, the file's
-- bytes had the digest of that row, and a row that records the expiry is in the ledger; provided that
-- the rest of the daemon only adds rows and files while the pass waits, and takes no file away.
pub expire_inbound_bodies-OnlyDue :
    (w : Rest) (cfg : Settings) (s : Site)
    → Leaves w
    → OnlyDue w cfg s (expire_inbound_bodies w cfg s).site
unfolding expire_inbound_bodies Sound
expire_inbound_bodies-OnlyDue w cfg s leaves = elim (Bool-cases (ltb 0 cfg.days)) [
  | inr off ↦ rw off (λ f here. inl refl)
  | inl on ↦ rw on (
      go (expire_rows w cfg 0 s.store.events (begin s)) (
        expire_rows-Sound w leaves cfg s 0 s.store.events [] (begin s) refl
          (λ f here. inl refl, refl, refl)))
]
  where
    go : (p : Pass) → Sound w leaves cfg s p → OnlyDue w cfg s (last_alarm cfg p).site
    go p (due, _, _) =
        elim (Bool-cases (not (is_stopped p) && (cfg.has_alerts && ltb 0 p.unalerted))) [
          | inl rings ↦ rw rings due
          | inr quiet ↦ rw quiet due
        ]
