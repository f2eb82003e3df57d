-- ===== src/Retention/Disposal.antt =====
-- What `disposeInboundBody` (src/core/retention.mjs) takes away.
use universal_peer_mcp.Prelude.{
  ℕ, ◌≡◌, ◌≢◌, ◌∙◌, ◌⊎◌, eq_iff, refl, sym, false, some, [], ◌∷◌, String, arith, str_eq, ltb, ◌==◌,
  find?, Outcome, ok, err, inl, inr, Bool-cases, Option-cases,
}
use universal_peer_mcp.Ledger.{Row, Fields}
use universal_peer_mcp.Retention.{
  Site, Rest, Deletion, expired, missing, passed_over, ledger_append_failed, unlink_failed, Deleted,
  one_of, is_source, concluded_state, expired_body_files, append_at, source_fields, delete_body,
}
use universal_peer_mcp.Retention.Pass.{
  Disposed, is_disposition, record_disposition, after_disposition, written_or_not,
  dispose_inbound_body,
}
use universal_peer_mcp.Retention.Safety.{
  IsThere, Keeps, Keeps-refl, kept-IsThere, Leaves, Expired, append_at-Grown, delete_body-Safe,
}

-- The first row with this number.
pub Found : ℕ → Site → Row → Type 0
Found seq s row = find? (λ r. r.seq == seq) s.store.events ≡ some row

find?-Found :
    (seq : ℕ) (s : Site) (row : Row)
    → find? (λ r. r.seq == seq) s.store.events ≡ some row
    → Found seq s row
unfolding Found
find?-Found seq s row h = h

not_processed : (s : String) → str_eq s "processed" ≡ false → s ≢ "processed"
not_processed s h e = ground (arith, (eq_iff s "processed").1 e)

-- The body of the row with this number, which the caller discards.
abbrev pub Discarded : Rest → ℕ → String → String → Site → Site → Type 0
Discarded w seq disposition f s t =
    (row : Row) × Found seq s row × ((disposition ≢ "processed") × Expired w row f s t)

abbrev pub OnlyDiscarded : Rest → ℕ → String → Site → Outcome Disposed × Site → Type 0
OnlyDiscarded w seq disposition s r =
    (f : String) → IsThere s f → (r.1.files f ≡ s.files f) ⊎ Discarded w seq disposition f s r.1

module _ (w : Rest) (leaves : Leaves w) (seq : ℕ) (disposition : String) (s : Site) (row : Row)
    (f : String) (found : Found seq s row) (named : row.body_file ≡ some f) where
  recorded-kept : Keeps s (record_disposition w row seq disposition s).1
  recorded-kept = elim (Option-cases (find? (is_disposition seq disposition) s.store.events)) [
    | inr (prior, known) ↦ rw (record_disposition, known) (Keeps-refl s)
    | inl new ↦
        rw (record_disposition, new)
          (go (append_at w 0 "inbound_body_disposition" fields s)
            (append_at-Grown w leaves 0 "inbound_body_disposition" fields s).1)
  ]
    where
      fields : Fields
      fields = record (source_fields row) {
        source_seq = some seq;
        disposition = some disposition;
        message_id = row.message_id;
      }

      go : (r : Outcome Row × Site) → Keeps s r.1 → Keeps s (written_or_not r).1
      go (ok event, t) e = e
      go (err code, t) e = e

  after-OnlyDiscarded :
      (r : Outcome (Unit {0}) × Site)
      → Keeps s r.1
      → OnlyDiscarded w seq disposition s (after_disposition w row f disposition r)
  unfolding after_disposition
  after-OnlyDiscarded (err code, t) kept g here = inl (kept g here)
  after-OnlyDiscarded (ok u, t) kept g here = elim (Bool-cases (str_eq disposition "processed")) [
    | inl only ↦ rw (after_disposition, only) (inl (kept g here))
    | inr discard ↦ go discard d.deletion refl
  ]
    where
      d : Deleted
      d = delete_body w 1 row f "discarded" (concluded_state t.store.events).skipped t

      left :
          disposition ≢ "processed"
          → (d.left.files g ≡ s.files g) ⊎ Discarded w seq disposition g s d.left
      left other =
          elim ((delete_body-Safe w leaves 1 row f "discarded"
              (concluded_state t.store.events).skipped t named).1
            g (kept-IsThere s t g (kept g here) here)) [
              | inl same ↦ inl (same ∙ kept g here)
              | inr (names, bytes, there, digest, written) ↦
                  inr (
                    row,
                    found,
                    (other, (names, bytes, sym (kept g here) ∙ there, digest, written)),
                  )
            ]

      go :
          str_eq disposition "processed" ≡ false
          → (how : Deletion) → d.deletion ≡ how
          → ((after_disposition w row f disposition (ok u, t)).1.files g ≡ s.files g)
            ⊎ Discarded w seq disposition g s (after_disposition w row f disposition (ok u, t)).1
      go other expired e = rw (after_disposition, other, e) (left (not_processed disposition other))
      go other missing e = rw (after_disposition, other, e) (left (not_processed disposition other))
      go other passed_over e =
          rw (after_disposition, other, e) (left (not_processed disposition other))
      go other ledger_append_failed e =
          rw (after_disposition, other, e) (left (not_processed disposition other))
      go other (unlink_failed code) e =
          rw (after_disposition, other, e) (left (not_processed disposition other))

-- A call of `disposeInboundBody`, however it ends, takes no file that is there at its start away but that of the row with the given
-- number, and that only if the disposition is not `processed`, the file's bytes had the digest of the row,
-- and a row that records the expiry is in the ledger; provided that the rest of the daemon only adds rows and
-- files meanwhile, and takes no file away.
pub dispose_inbound_body-OnlyDiscarded :
    (w : Rest) (seq : ℕ) (disposition : String) (s : Site)
    → Leaves w
    → OnlyDiscarded w seq disposition s (dispose_inbound_body w seq disposition s)
unfolding dispose_inbound_body
dispose_inbound_body-OnlyDiscarded w seq disposition s leaves f here =
    elim (Bool-cases (ltb seq 1)) [
      | inl bad ↦ rw bad (inl refl)
      | inr good ↦ rw good (elim (Bool-cases (one_of ("processed" ∷ "discard" ∷ []) disposition)) [
        | inr bad ↦ rw bad (inl refl)
        | inl valid ↦ rw valid (elim (Option-cases (find? (λ r. r.seq == seq) s.store.events)) [
          | inl unknown ↦ rw unknown (inl refl)
          | inr (row, found) ↦ rw found (elim (Option-cases row.body_file) [
            | inl unnamed ↦ rw unnamed (inl refl)
            | inr (file, named) ↦ rw named (elim (Bool-cases (is_source row)) [
              | inr other ↦ rw other (inl refl)
              | inl source ↦
                  rw source (elim (Bool-cases (one_of (expired_body_files s.store.events) file)) [
                    | inl gone ↦ rw gone (inl refl)
                    | inr kept ↦ rw kept (
                        after-OnlyDiscarded w leaves seq disposition s row file
                          (find?-Found seq s row found) named
                          (record_disposition w row seq disposition s)
                          (recorded-kept w leaves seq disposition s row file
                            (find?-Found seq s row found) named)
                          f here)
                  ])
            ])
          ])
        ])
      ])
    ]
