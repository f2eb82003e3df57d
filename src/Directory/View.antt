-- ===== src/Directory/View.antt =====
-- What `registerPeer` and `removePeer` of src/core/peer-directory.mjs do to the directory that
-- `resolvePeer` shows: an alias names one session, and the tables are forgotten.
use universal_peer_mcp.Prelude.{
  ◌≤◌, ◌≡◌, ◌∙◌, ◌⊎◌, refl, sym, ap, subst, Bool, true, false, not, ◌&&◌, ◌||◌, Option, none, some,
  [], ◌∷◌, map, String, Text, arith, str_eq, str_eq-true, str_eq_refl, if◌then◌else◌, any, filter,
  count, find?-append_none, find?-append_some, find?-eq-none, any_of_find?, Bool-cases,
  Option-cases, Bool-ext, inl, inr,
}
use universal_peer_mcp.Limits.{same_uuid}
use universal_peer_mcp.Directory.{
  Kind, claude, codex, same_kind, other_kind, Entry, Table, Tables, table_of, names, holds,
  entry_of, put, held_alias, is_other, others_in, resolve_peer, Peer,
}
use universal_peer_mcp.Directory.Deletes.{any_of_count, count_of_any, in_replaced, in_others}
use universal_peer_mcp.Directory.Unique.{OneEach}

-- The directory as a reader sees it.
abbrev pub View : Type 0
View = String → Option Peer

abbrev pub view : Tables → View
view t alias = resolve_peer alias t

abbrev pub is_session : Kind → Text → Option Peer → Bool
is_session k id none = false
is_session k id (some (j, i)) = same_kind j k && same_uuid i (some id)

-- An alias is given to a session, which loses the others that it had.
abbrev pub assign : String → Kind → Text → View → View
assign alias k id v a =
    if str_eq alias a then some (k, some id) else if is_session k id (v a) then none else v a

-- An alias is taken away.
abbrev pub forget : String → View → View
forget alias v a = if str_eq alias a then none else v a

pub str_eq_comm : (s t : String) → str_eq s t ≡ str_eq t s
str_eq_comm s t = Bool-ext _ _ (go s t) (go t s)
  where
    go : (s t : String) → str_eq s t ≡ true → str_eq t s ≡ true
    go s t h = subst (λ x. str_eq x s ≡ true) (str_eq-true s t h) (str_eq_refl s)

-- A look-up after entries are filtered by their names.
pub entry_of-filter :
    (r : String → Bool) (a : String) (t : Table)
    → entry_of a (filter (λ p. not (r p.0)) t) ≡ (if r a then none else entry_of a t)
entry_of-filter r a [] = go (r a)
  where
    go : (t : Bool) → ◌≡◌ {A = Option (String × Entry)} none (if t then none else none)
    go true = refl
    go false = refl
entry_of-filter r a (x ∷ t) = elim (Bool-cases (str_eq a x.0)) [
  | inr other ↦ elim (Bool-cases (r x.0)) [
    | inl gone ↦ rw (gone, other) (entry_of-filter r a t)
    | inr kept ↦ rw (kept, other) (entry_of-filter r a t)
  ]
  | inl same ↦
      let e : r x.0 ≡ r a = ap r (sym (str_eq-true a x.0 same)) in
      elim (Bool-cases (r a)) [
        | inl gone ↦ rw (e, gone) (entry_of-filter r a t ∙ rw gone refl)
        | inr kept ↦ rw (e, kept, same) refl
      ]
]

abbrev pub held_by : Text → Kind → Kind → Option (String × Entry) → Bool
held_by id kind k none = false
held_by id kind k (some p) = same_kind k kind && holds id p

-- The other aliases in one table are not deleted from the other.
pub in_others_kind :
    (alias : String) (id : Text) (kind k : Kind) (a : String) (t : Table)
    → in_replaced (other_kind k) (others_in alias id kind k t) a ≡ false
in_others_kind alias id kind k a [] = refl
in_others_kind alias id kind k a (x ∷ t) =
    go k (is_other alias id kind k x) (in_others_kind alias id kind k a t)
  where
    go :
        (j : Kind) (b : Bool)
        → in_replaced
            (other_kind j)
            (map (λ (p : String × Entry). (p.0, j)) (filter (is_other alias id kind k) t))
            a
          ≡ false
        → in_replaced
            (other_kind j)
            (map
              (λ (p : String × Entry). (p.0, j))
              (if b
                then x ∷ filter (is_other alias id kind k) t
                else filter (is_other alias id kind k) t))
            a
          ≡ false
    go claude true e = e
    go claude false e = e
    go codex true e = e
    go codex false e = e

no_entry : (a : String) (t : Table) → count (names a) t ≤ 0 → entry_of a t ≡ none
no_entry a t h = find?-eq-none (names a) t (any_of_count (names a) t h)

-- Whether another alias is deleted from a table: if its entry is one of the session.
pub in_others-entry :
    (alias : String) (id : Text) (kind k : Kind) (a : String) (t : Table)
    → str_eq alias a ≡ false
    → count (names a) t ≤ 1
    → in_replaced k (others_in alias id kind k t) a ≡ held_by id kind k (entry_of a t)
in_others-entry alias id kind k a [] other one = refl
in_others-entry alias id kind k a (x ∷ t) other one = elim (Bool-cases (str_eq a x.0)) [
  | inr unnamed ↦
      in_others alias id kind k x t a
      ∙ rw (str_eq_comm x.0 a, unnamed)
          (or_false (is_other alias id kind k x) _
            ∙ in_others-entry alias id kind k a t other (ground arith))
  | inl named ↦
      let rest : in_replaced k (others_in alias id kind k t) a ≡ false =
        in_others-entry alias id kind k a t other (ground arith)
        ∙ ap (held_by id kind k) (no_entry a t (ground arith)) in
      in_others alias id kind k x t a
      ∙ rw
          (
            rest,
            str_eq_comm x.0 a,
            named,
            subst (λ n. str_eq alias n ≡ false) (str_eq-true a x.0 named) other,
          )
          (tidy (same_kind k kind) (holds id x))
]
  where
    or_false : (b c : Bool) → ((b && false) || c) ≡ c
    or_false b c = ground arith

    tidy : (b c : Bool) → (((b && c) && true) || false) ≡ (b && c)
    tidy b c = ground arith

pub held_other :
    (alias : String) (k : Kind) (o : Option (Kind × (String × Entry))) (a : String)
    → str_eq alias a ≡ false
    → in_replaced k (held_alias alias o) a ≡ false
held_other alias k none a other = refl
held_other alias k (some (j, p)) a other = rw other (and_false (same_kind k j))
  where
    and_false : (b : Bool) → ((b && false) || false) ≡ false
    and_false b = ground arith

pub names_le : (t : Tables) (k : Kind) (a : String) → OneEach t → count (names a) (table_of k t) ≤ 1
unfolding OneEach
names_le t claude a (named, held) = omega (arith, named a)
names_le t codex a (named, held) = omega (arith, named a)

pub one_entry :
    (t : Tables) (a : String)
    → OneEach t
    → (entry_of a t.claude_table ≡ none) ⊎ (entry_of a t.codex_table ≡ none)
unfolding OneEach
one_entry t a (named, held) = elim (Option-cases (entry_of a t.claude_table)) [
  | inl absent ↦ inl absent
  | inr (p, e) ↦ inr (
      no_entry a t.codex_table (
        omega (
          arith,
          named a,
          count_of_any (names a) t.claude_table (any_of_find? (names a) t.claude_table p e),
        )))
]

pub entry_of-put :
    (alias : String) (e : Entry) (t : Table) (a : String)
    → any (names alias) t ≡ false
    → str_eq alias a ≡ false
    → entry_of a (put alias e t) ≡ entry_of a t
unfolding put
entry_of-put alias e t a absent other = elim (Option-cases (entry_of a t)) [
  | inl missing ↦
      rw
        (
          absent,
          find?-append_none (names a) t ((alias, e) ∷ []) missing,
          missing,
          str_eq_comm a alias,
          other,
        )
        refl
  | inr (p, found) ↦
      rw (absent, find?-append_some (names a) t ((alias, e) ∷ []) p found, found) refl
]

pub entry_of-put_same :
    (alias : String) (e : Entry) (t : Table)
    → any (names alias) t ≡ false
    → entry_of alias (put alias e t) ≡ some (alias, e)
unfolding put
entry_of-put_same alias e t absent =
    rw
      (
        absent,
        find?-append_none (names alias) t ((alias, e) ∷ []) (find?-eq-none (names alias) t absent),
        str_eq_refl alias,
      )
      refl

abbrev pub left : Bool → Option (String × Entry) → Option (String × Entry)
left gone o = if gone then none else o
