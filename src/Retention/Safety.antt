-- ===== src/Retention/Safety.antt =====
-- No body is lost (src/core/retention.mjs): a file goes only when it is old and its message concluded,
-- after its digest was checked and a row says so.
use universal_peer_mcp.Prelude.{
  str_eq_refl, ℕ, ◌+◌, ◌≡◌, ◌≢◌, ◌∙◌, ◌⊎◌, refl, sym, ap, subst, Bool, true, ◌&&◌, Option, none,
  some, List, [], ◌∷◌, ◌++◌, String, arith, any, any-append, append-nil, append_assoc, length, ltb,
  str_eq, str_eq-true, Outcome, ok, err, inl, inr, Bool-cases, Option-cases, Outcome-cases,
}
use universal_peer_mcp.Spool.{max_inbound_body_bytes}
use universal_peer_mcp.Ledger.{Row, Fields, is_type, Store, append}
use universal_peer_mcp.Ledger.Sequence.{Appended, append-Appended}
use universal_peer_mcp.Retention.{
  Reading, absent, unreadable, content, Site, Rest, missing, Deleted, is_body_file, has_seq,
  append_at, names_file, source_fields, expired_fields, skip, unlink, delete_read, delete_body,
}

-- The ledger `t` is the ledger `s` with rows added at the end.
abbrev pub Grown : Site → Site → Type 0
Grown s t = (more : List Row) × (t.store.events ≡ s.store.events ++ more)

pub Grown-refl : (s : Site) → Grown s s
Grown-refl s = ([], sym (append-nil s.store.events))

pub Grown-trans : (s t u : Site) → Grown s t → Grown t u → Grown s u
Grown-trans s t u (xs, e) (ys, f) =
    (xs ++ ys, f ∙ ap (λ rows. rows ++ ys) e ∙ append_assoc s.store.events xs ys)

-- The site has a file of this name.
abbrev pub IsThere : Site → String → Type 0
IsThere s f = s.files f ≢ absent

-- No file of `s` is gone or changed in `t`; there may be more.
abbrev pub Keeps : Site → Site → Type 0
Keeps s t = (f : String) → IsThere s f → t.files f ≡ s.files f

pub Keeps-refl : (s : Site) → Keeps s s
Keeps-refl s f there = refl

pub kept-IsThere : (s t : Site) (f : String) → t.files f ≡ s.files f → IsThere s f → IsThere t f
kept-IsThere s t f same there gone = there (sym same ∙ gone)

pub Keeps-trans : (s t u : Site) → Keeps s t → Keeps t u → Keeps s u
Keeps-trans s t u first second f there =
    second f (kept-IsThere s t f (first f there) there) ∙ first f there

-- What the rest of the daemon does while the pass waits: it adds rows and files, and takes no file away.
abbrev pub Leaves : Rest → Type 0
Leaves w = (k : ℕ) (s : Site) → Grown s (w.others k s) × Keeps s (w.others k s)

-- A row that records the expiry of a file, with the digest of its bytes.
abbrev pub is_expiry : String → String → Row → Bool
is_expiry f sha row =
    is_type "inbound_body_expired" row
    && (names_file row.body_file f && names_file row.body_sha256 sha)

-- The file `f`, which the row names, was there with the digest that the row has, and its expiry is in
-- the ledger of `t`.
abbrev pub Expired : Rest → Row → String → Site → Site → Type 0
Expired w row f s t =
    (row.body_file ≡ some f)
    × (bytes : List ℕ) × (s.files f ≡ content bytes)
    × (row.body_sha256 ≡ some (w.sha256 bytes))
    × (any (is_expiry f (w.sha256 bytes)) t.store.events ≡ true)

names_file-some : (o : Option String) (s : String) → names_file o s ≡ true → o ≡ some s
names_file-some none s h = absurd (ground arith)
names_file-some (some t) s h = ap some (str_eq-true t s h)

pub any-Grown :
    (p : Row → Bool) (s t : Site)
    → Grown s t
    → any p s.store.events ≡ true
    → any p t.store.events ≡ true
any-Grown p s t (more, e) h = rw (e, any-append p s.store.events more, h) refl

pub Expired-Grown :
    (w : Rest) (row : Row) (f : String) (s t u : Site)
    → Grown t u
    → Expired w row f s t
    → Expired w row f s u
Expired-Grown w row f s t u grown (named, bytes, there, digest, recorded) =
    (named, bytes, there, digest, any-Grown (is_expiry f (w.sha256 bytes)) t u grown recorded)

-- What an operation on the row's body may do: add rows, and take a file away only as `Expired` says.
abbrev pub Safe : Rest → Row → Site → Site → Type 0
Safe w row s t =
    Grown s t × ((f : String) → IsThere s f → (t.files f ≡ s.files f) ⊎ Expired w row f s t)

module _ (w : Rest) (leaves : Leaves w) where
  pub append_at-Grown :
      (k : ℕ) (type : String) (fields : Fields) (s : Site)
      → Grown s (append_at w k type fields s).1 × Keeps s (append_at w k type fields s).1
  append_at-Grown k type fields s =
      let (grown, kept) = leaves k s in
      (
        Grown-trans s (w.others k s) (append_at w k type fields s).1 grown (
            wrote (append w.line_bytes (w.moment k) type fields (w.others k s).store)
              (append-Appended w.line_bytes (w.moment k) type fields (w.others k s).store _ refl)),
        kept,
      )
    where
      wrote :
          (r : Outcome Row × Store)
          → Appended (w.others k s).store type fields r
          → (more : List Row) × (r.1.events ≡ (w.others k s).store.events ++ more)
      wrote (ok event, t) (_, _, _, _, _, grown, _) = (event ∷ [], grown)
      wrote (err code, t) (same, _) = ([], same ∙ sym (append-nil _))

  skip-Safe :
      (k : ℕ) (row : Row) (why : String) (skipped : List ℕ) (s : Site)
      → Grown s (skip w k row why skipped s).left × Keeps s (skip w k row why skipped s).left
  unfolding skip
  skip-Safe k row why skipped s = elim (Bool-cases (has_seq row.seq skipped)) [
    | inl known ↦ rw known (Grown-refl s, Keeps-refl s)
    | inr new ↦
        let fields : Fields = record (source_fields row) { reason = some why } in
        let both = append_at-Grown k "inbound_body_expire_skipped" fields s in
        elim (Outcome-cases (append_at w k "inbound_body_expire_skipped" fields s).0) [
          | inl (event, e) ↦ rw (new, e) both
          | inr (code, e) ↦ rw (new, e) both
        ]
  ]

  skip-kept :
      (k : ℕ) (row : Row) (why : String) (skipped : List ℕ) (s : Site)
      → Safe w row s (skip w k row why skipped s).left
  skip-kept k row why skipped s =
      let (grown, kept) = skip-Safe k row why skipped s in (grown, λ f there. inl (kept f there))

  -- The row that was written before the unlink names the file and its digest.
  expiry-written :
      (k : ℕ) (row : Row) (f : String) (why : String) (bytes : List ℕ) (s : Site) (event : Row)
      → row.body_file ≡ some f
      → (append_at w k "inbound_body_expired" (expired_fields w row bytes why) s).0 ≡ ok event
      → any
          (is_expiry f (w.sha256 bytes))
          (append_at w k "inbound_body_expired" (expired_fields w row bytes why) s).1.store.events
        ≡ true
  expiry-written k row f why bytes s event named =
      go (append w.line_bytes (w.moment k) "inbound_body_expired" fields (w.others k s).store) (
        append-Appended w.line_bytes (w.moment k) "inbound_body_expired" fields (w.others k s).store
          _ refl)
    where
      fields : Fields
      fields = expired_fields w row bytes why

      go :
          (r : Outcome Row × Store)
          → Appended (w.others k s).store "inbound_body_expired" fields r
          → r.0 ≡ ok event
          → any (is_expiry f (w.sha256 bytes)) r.1.events ≡ true
      go (ok written, t) (_, _, typed, same, _, grown, _) e =
          rw
            (
              grown,
              any-append (is_expiry f (w.sha256 bytes)) (w.others k s).store.events (written ∷ []),
              typed,
              same,
              named,
              str_eq_refl f,
              str_eq_refl (w.sha256 bytes),
            )
            (ground arith)
      go (err code, t) a e = absurd (ground arith)

  unlink-Safe :
      (k : ℕ) (row : Row) (f : String) (bytes : List ℕ) (skipped : List ℕ) (s : Site)
      (r : Outcome Row × Site)
      → row.body_file ≡ some f
      → s.files f ≡ content bytes
      → row.body_sha256 ≡ some (w.sha256 bytes)
      → Grown s r.1
      → Keeps s r.1
      → ((event : Row)
          → r.0 ≡ ok event
          → any (is_expiry f (w.sha256 bytes)) r.1.store.events ≡ true)
      → Safe w row s (unlink w k f skipped r).left
  unfolding unlink
  unlink-Safe k row f bytes skipped s (err code, t) named there digest grown kept recorded =
      (grown, λ g here. inl (kept g here))
  unlink-Safe k row f bytes skipped s (ok event, t) named there digest grown kept recorded =
      elim (Option-cases (w.unlink_fault k)) [
        | inr (code, e) ↦ rw (unlink, e) (later, λ g here. inl (same g here))
        | inl works ↦
            rw (unlink, works)
              (
                later,
                λ g here. elim (Bool-cases (str_eq g f)) [
                  | inr other ↦ inl (rw other (same g here))
                  | inl this ↦ inr (
                      subst (λ g. Expired w row g s (w.others k t)) (sym (str_eq-true g f this))
                        (
                          named,
                          bytes,
                          there,
                          digest,
                          any-Grown (is_expiry f (w.sha256 bytes)) t (w.others k t) (leaves k t).0
                              (recorded event refl),
                        ))
                ],
              )
      ]
    where
      later : Grown s (w.others k t)
      later = Grown-trans s t (w.others k t) grown (leaves k t).0

      same : Keeps s (w.others k t)
      same = Keeps-trans s t (w.others k t) kept (leaves k t).1

  delete_read-Safe :
      (k : ℕ) (row : Row) (f : String) (why : String) (bytes : List ℕ) (skipped : List ℕ) (s : Site)
      → row.body_file ≡ some f
      → s.files f ≡ content bytes
      → Safe w row s (delete_read w k row f why bytes skipped s).left
  unfolding delete_read
  delete_read-Safe k row f why bytes skipped s named there =
      elim (Bool-cases (ltb max_inbound_body_bytes (length bytes))) [
        | inl large ↦ rw large (skip-kept k row "unreadable" skipped s)
        | inr fits ↦ elim (Bool-cases (names_file row.body_sha256 (w.sha256 bytes))) [
          | inr differs ↦ rw (fits, differs) (skip-kept k row "digest_mismatch" skipped s)
          | inl agrees ↦
              let (grown, kept) =
                append_at-Grown k "inbound_body_expired" (expired_fields w row bytes why) s in
              rw (fits, agrees)
                (unlink-Safe (k + 1) row f bytes skipped s
                  (append_at w k "inbound_body_expired" (expired_fields w row bytes why) s) named
                  there (names_file-some row.body_sha256 (w.sha256 bytes) agrees) grown kept
                  (λ event e. expiry-written k row f why bytes s event named e))
        ]
      ]

  Safe-after : (row : Row) (s t u : Site) → Grown s t → Keeps s t → Safe w row t u → Safe w row s u
  Safe-after row s t u grown kept (further, changes) = (
    Grown-trans s t u grown further,
    λ f here. elim (changes f (kept-IsThere s t f (kept f here) here)) [
      | inl same ↦ inl (same ∙ kept f here)
      | inr (named, bytes, there, digest, recorded) ↦
          inr (named, bytes, sym (kept f here) ∙ there, digest, recorded)
    ],
  )

  -- `deleteBody` takes no file but the row's, after its digest was checked and its row written.
  pub delete_body-Safe :
      (k : ℕ) (row : Row) (f : String) (why : String) (skipped : List ℕ) (s : Site)
      → row.body_file ≡ some f
      → Safe w row s (delete_body w k row f why skipped s).left
  unfolding delete_body
  delete_body-Safe k row f why skipped s named = elim (Bool-cases (is_body_file f)) [
    | inr other ↦ rw other (Grown-refl s, λ g here. inl refl)
    | inl good ↦
        rw (delete_body, good)
          (Safe-after row s u (result (u.files f)).left (leaves k s).0 (leaves k s).1
            (opened (u.files f) refl))
  ]
    where
      u : Site
      u = w.others k s

      result : Reading → Deleted
      result absent = record { deletion = missing; skipped_seqs = skipped; left = u }
      result unreadable = skip w (k + 1) row "unreadable" skipped u
      result (content bytes) = delete_read w (k + 1) row f why bytes skipped u

      opened : (reading : Reading) → u.files f ≡ reading → Safe w row u (result reading).left
      opened absent e = (Grown-refl u, λ g here. inl refl)
      opened unreadable e = skip-kept (k + 1) row "unreadable" skipped u
      opened (content bytes) e = delete_read-Safe (k + 1) row f why bytes skipped u named e
