-- ===== src/Posts/Accept.antt =====
-- What `acceptPost` (src/core/posts.mjs) does to the ledger, whatever other operations run while it
-- waits: the facts that its properties share.
pub mod Steps
pub mod Once
pub mod Numbering
pub mod Repeats
use universal_peer_mcp.Prelude.{
  ℕ, ◌+◌, ◌≤◌, ◌≡◌, refl, sym, ap, subst, ◌∙◌, Bool, true, false, Option, none, some, List, [], ◌∷◌,
  ◌++◌, String, Text, arith, any, count, count-append, append-nil, append_assoc, Outcome, ok, err,
  Outcome-cases, str_eq, inl, inr, ◌⊎◌, Bool-cases,
}
use universal_peer_mcp.Ledger.{Row, Fields, Store, Moment, append, append_checked, is_type}
use universal_peer_mcp.Ledger.Requests.{is_for}
use universal_peer_mcp.Ledger.Sequence.{Appended, append-Appended, append_checked-Appended}
use universal_peer_mcp.Posts.{
  World, Post, Accepted, accepted, append_in, link_all, link_fields, is_link_of, outcome_for,
}

-- The ledger of `t` is that of `s` with rows added at the end.
abbrev pub Grows : Store → Store → Type 0
Grows s t = (xs : List Row) × (t.events ≡ s.events ++ xs)

pub Grows-refl : (s : Store) → Grows s s
Grows-refl s = ([], sym (append-nil s.events))

pub Grows-trans : (s t u : Store) → Grows s t → Grows t u → Grows s u
Grows-trans s t u (xs, e) (ys, f) =
    (xs ++ ys, f ∙ ap (λ rows. rows ++ ys) e ∙ append_assoc s.events xs ys)

-- The other operations of the daemon only add rows.
abbrev pub OnlyAdds : World → Type 0
OnlyAdds w = (k : ℕ) (s : Store) → Grows s (w.others k s)

pub append-Grows :
    (line_bytes : Row → ℕ) (m : Moment) (type : String) (fields : Fields) (s : Store)
    → Grows s (append line_bytes m type fields s).1
append-Grows line_bytes m type fields s =
    go (append line_bytes m type fields s) (append-Appended line_bytes m type fields s _ refl)
  where
    go : (r : Outcome Row × Store) → Appended s type fields r → Grows s r.1
    go (ok event, s') (_, _, _, _, _, grown, _) = (event ∷ [], grown)
    go (err code, s') (same, _) = ([], same ∙ sym (append-nil s.events))

pub append_checked-Grows :
    (line_bytes : Row → ℕ) (m : Moment) (type : String) (fields : Fields)
    (test : List Row → Option String) (s : Store)
    → Grows s (append_checked line_bytes m type fields test s).1
append_checked-Grows line_bytes m type fields test s =
    go (append_checked line_bytes m type fields test s)
      (append_checked-Appended line_bytes m type fields test s _ refl)
  where
    go : (r : Outcome Row × Store) → Appended s type fields r → Grows s r.1
    go (ok event, s') (_, _, _, _, _, grown, _) = (event ∷ [], grown)
    go (err code, s') (same, _) = ([], same ∙ sym (append-nil s.events))

pub append_in-Grows :
    (w : World) (k : ℕ) (type : String) (fields : Fields) (s : Store)
    → OnlyAdds w
    → Grows s (append_in w k type fields s).1
append_in-Grows w k type fields s fair =
    Grows-trans s (w.others k s) (append_in w k type fields s).1 (fair k s)
      (append-Grows w.line_bytes (w.moment k) type fields (w.others k s))

-- One round of the loop over the quarantined frames, by its three ends.
pub link_all-skip :
    (w : World) (k seq : ℕ) (id : Text) (q : Row) (qs : List Row) (s : Store)
    → any (is_link_of q.seq) s.events ≡ true
    → link_all w k seq id (q ∷ qs) s ≡ link_all w k seq id qs s
unfolding link_all
link_all-skip w k seq id q qs s linked = rw linked

pub link_all-next :
    (w : World) (k seq : ℕ) (id : Text) (q : Row) (qs : List Row) (s : Store) (row : Row)
    → any (is_link_of q.seq) s.events ≡ false
    → (append_in w k "quarantine_linked" (link_fields q.seq seq id) s).0 ≡ ok row
    → link_all w k seq id (q ∷ qs) s
      ≡ link_all w
          (k + 1)
          seq
          id
          qs
          (append_in w k "quarantine_linked" (link_fields q.seq seq id) s).1
unfolding link_all
link_all-next w k seq id q qs s row fresh written = rw (fresh, written)

pub link_all-stop :
    (w : World) (k seq : ℕ) (id : Text) (q : Row) (qs : List Row) (s : Store) (code : Option String)
    → any (is_link_of q.seq) s.events ≡ false
    → (append_in w k "quarantine_linked" (link_fields q.seq seq id) s).0 ≡ err code
    → link_all w k seq id (q ∷ qs) s
      ≡ (err code, (append_in w k "quarantine_linked" (link_fields q.seq seq id) s).1)
unfolding link_all
link_all-stop w k seq id q qs s code fresh failed = rw (fresh, failed)

-- A property of stores that every link write keeps, the whole loop keeps.
pub link_all_inv {κ} :
    (w : World) (seq : ℕ) (id : Text) (P : Store → Type κ)
    → ((k : ℕ) (q : Row) (s : Store)
        → P s
        → P (append_in w k "quarantine_linked" (link_fields q.seq seq id) s).1)
    → (k : ℕ) (qs : List Row) (s : Store) → P s
    → P (link_all w k seq id qs s).1
link_all_inv w seq id P keep k [] s h = unfold link_all in h
link_all_inv w seq id P keep k (q ∷ qs) s h = elim (Bool-cases (any (is_link_of q.seq) s.events)) [
  | inl linked ↦
      subst (λ r. P r.1) (sym (link_all-skip w k seq id q qs s linked))
        (link_all_inv w seq id P keep k qs s h)
  | inr fresh ↦
      elim (Outcome-cases (append_in w k "quarantine_linked" (link_fields q.seq seq id) s).0) [
        | inl (row, written) ↦
            subst (λ r. P r.1) (sym (link_all-next w k seq id q qs s row fresh written))
              (link_all_inv w seq id P keep (k + 1) qs
                (append_in w k "quarantine_linked" (link_fields q.seq seq id) s).1 (keep k q s h))
        | inr (code, failed) ↦
            subst (λ r. P r.1) (sym (link_all-stop w k seq id q qs s code fresh failed))
              (keep k q s h)
      ]
]

pub link_all-Grows :
    (w : World) (k seq : ℕ) (id : Text) (qs : List Row) (s : Store)
    → OnlyAdds w
    → Grows s (link_all w k seq id qs s).1
link_all-Grows w k seq id qs s fair =
    link_all_inv w seq id (Grows s)
      (λ j q t h.
        Grows-trans s t (append_in w j "quarantine_linked" (link_fields q.seq seq id) t).1 h
          (append_in-Grows w j "quarantine_linked" (link_fields q.seq seq id) t fair))
      k qs s (Grows-refl s)

-- A write of another type adds no row of this one.
pub append_other :
    (line_bytes : Row → ℕ) (m : Moment) (type kind : String) (fields : Fields) (s : Store)
    (id : Option Text)
    → str_eq kind type ≡ false
    → count (is_for type id) s.events ≤ 1
    → count (is_for type id) (append line_bytes m kind fields s).1.events ≤ 1
append_other line_bytes m type kind fields s id other h =
    go (append line_bytes m kind fields s) (append-Appended line_bytes m kind fields s _ refl)
  where
    go :
        (r : Outcome Row × Store) → Appended s kind fields r → count (is_for type id) r.1.events ≤ 1
    go (ok event, s') (_, _, typed, _, _, grown, _) =
        let miss : is_type type event ≡ false = ap (λ k. str_eq k type) typed ∙ other in
        subst (λ rows. count (is_for type id) rows ≤ 1) (sym grown)
          (rw (count-append (is_for type id) s.events (event ∷ []), miss) (omega (arith, h)))
    go (err code, s') (same, _) = subst (λ rows. count (is_for type id) rows ≤ 1) (sym same) h
