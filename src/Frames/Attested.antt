-- ===== src/Frames/Attested.antt =====
-- Rows of evidence and the requests that they belong to (src/core/peer-core.mjs).
use mathlib.Core.List.{Memᴰ}
use mathlib.Core.List.Memᴰ.{append_left}
use universal_peer_mcp.Prelude.{
  ℕ, ◌≡◌, refl, sym, ◌∙◌, append-nil, subst, Bool, true, false, ◌⊎◌, Option, some, List, [], ◌∷◌,
  ◌++◌, String, Text, arith, any, All, All-map, All-snoc, Outcome, ok, err, str_eq,
}
use universal_peer_mcp.Limits.{same_uuid}
use universal_peer_mcp.Ledger.{Row, Fields, is_type, Store, Moment, append, append_checked}
use universal_peer_mcp.Ledger.Sequence.{Appended, append-Appended, append_checked-Appended}
use universal_peer_mcp.Receipts.{says}
use universal_peer_mcp.Posts.Accept.{Grows, Grows-refl, Grows-trans}
use universal_peer_mcp.Processes.{normalize_proc_start}

abbrev pub is_evidence_type : String → Bool
is_evidence_type type = any (str_eq type) (
    "peer_ack" ∷ "peer_reply" ∷ "peer_message_status" ∷ "peer_terminal_failure" ∷ "peer_idle_notice"
    ∷ [])

-- Two ids of one message.
abbrev pub Names : Option Text → Option Text → Type 0
Names a b = (a ≡ b) ⊎ (same_uuid a b ≡ true)

-- The row of a request, and the data of a row that names its message and its target process.
abbrev pub IsTargetOf : String → Row → Fields → Type 0
IsTargetOf rendering r f =
    (is_type "send_requested" r ≡ true)
    × Names r.message_id f.message_id
    × (says r.target_proc_start_rendering rendering ≡ true)
    × ((pid : ℕ) × (f.peer_pid ≡ some pid) × (r.target_pid ≡ some pid))
    × (normalize_proc_start f.peer_proc_start ≡ normalize_proc_start r.target_proc_start)

abbrev pub Shown : String → List Row → String → Fields → Type 0
Shown rendering rows type f =
    is_evidence_type type ≡ true → (r : Row) × Memᴰ r rows × IsTargetOf rendering r f

-- Every row of evidence names the process that a request of its message was sent to.
abbrev pub Attested : String → List Row → Type 0
Attested rendering rows = All (λ e. Shown rendering rows e.type e.fields) rows

-- From one store to a later one: rows are added at the end, and the evidence stays proved.
abbrev pub Keeps : String → Store → Store → Type 0
Keeps rendering s t = Grows s t × (Attested rendering s.events → Attested rendering t.events)

module _ (rendering : String) where
  pub Keeps-refl : (s : Store) → Keeps rendering s s
  Keeps-refl s = (Grows-refl s, λ h. h)

  pub Keeps-trans :
      (s t u : Store) → Keeps rendering s t → Keeps rendering t u → Keeps rendering s u
  Keeps-trans s t u (g, f) (g', f') = (Grows-trans s t u g g', λ h. f' (f h))

  -- A row stays in a ledger that grows.
  pub Memᴰ-Grows : (r : Row) (s t : Store) → Grows s t → Memᴰ r s.events → Memᴰ r t.events
  Memᴰ-Grows r s t (xs, e) h = subst (λ rows. Memᴰ r rows) (sym e) (append_left xs h)

  grown-Attested :
      (rows : List Row) (event : Row)
      → Shown rendering rows event.type event.fields
      → Attested rendering rows
      → Attested rendering (rows ++ event ∷ [])
  grown-Attested rows event new h =
      All-snoc (λ e. Shown rendering (rows ++ event ∷ []) e.type e.fields) rows event
        (All-map (λ e. Shown rendering rows e.type e.fields) _ rows
          (λ e shown. later e.type e.fields shown) h)
        (later event.type event.fields new)
    where
      later :
          (type : String) (f : Fields)
          → Shown rendering rows type f
          → Shown rendering (rows ++ event ∷ []) type f
      later type f shown is_evidence =
          let (r, here, target) = shown is_evidence in (r, append_left (event ∷ []) here, target)

  pub Appended-Keeps :
      (type : String) (fields : Fields) (s : Store) (r : Outcome Row × Store)
      → Shown rendering s.events type fields
      → Appended s type fields r
      → Keeps rendering s r.1
  Appended-Keeps type fields s (ok event, t) new (_, _, typed, same, _, grown, _) = (
    (event ∷ [], grown),
    λ h. subst (Attested rendering) (sym grown) (
        grown-Attested s.events event
          (subst (λ k. Shown rendering s.events k event.fields) (sym typed)
            (subst (Shown rendering s.events type) (sym same) new))
          h),
  )
  Appended-Keeps type fields s (err code, t) new (same, _) =
      ((([], same ∙ sym (append-nil s.events))), λ h. subst (Attested rendering) (sym same) h)

  -- A row that is no evidence needs no request.
  pub plain-Shown :
      (type : String) (fields : Fields) (rows : List Row)
      → is_evidence_type type ≡ false
      → Shown rendering rows type fields
  plain-Shown type fields rows plain is_evidence = absurd (ground (arith, plain, is_evidence))

  pub append-Keeps :
      (line_bytes : Row → ℕ) (m : Moment) (type : String) (fields : Fields) (s : Store)
      → Shown rendering s.events type fields
      → Keeps rendering s (append line_bytes m type fields s).1
  append-Keeps line_bytes m type fields s new =
      Appended-Keeps type fields s (append line_bytes m type fields s) new
        (append-Appended line_bytes m type fields s _ refl)

  pub append_checked-Keeps :
      (line_bytes : Row → ℕ) (m : Moment) (type : String) (fields : Fields)
      (test : List Row → Option String) (s : Store)
      → Shown rendering s.events type fields
      → Keeps rendering s (append_checked line_bytes m type fields test s).1
  append_checked-Keeps line_bytes m type fields test s new =
      Appended-Keeps type fields s (append_checked line_bytes m type fields test s) new
        (append_checked-Appended line_bytes m type fields test s _ refl)
