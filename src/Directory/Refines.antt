-- ===== src/Directory/Refines.antt =====
-- `registerPeer` and `removePeer` of src/core/peer-directory.mjs against the directory as a map from an alias to
-- its session.
use universal_peer_mcp.Prelude.{
  ◌≤◌, ◌≡◌, ◌∙◌, refl, sym, ap, subst, Bool, true, Option, none, some, String, Text, arith,
  Bool-cases, refuse, Outcome, ok, err, inl, inr,
}
use universal_peer_mcp.Limits.{is_alias, require_uuid}
use universal_peer_mcp.Directory.{
  Kind, claude, codex, Entry, Tables, plan, Plan, change, unchanged, holder_is, size, max_peers,
  Identity, entry_of, with_kind, holder_of, next_tables, resolve_peer, as_peer, or_peer,
}
use universal_peer_mcp.Directory.Files.{
  Disk, Files, write_tables, Registered, registered, same_as_before, registered_as, carry_out,
  read_fault, register_peer,
}
use universal_peer_mcp.Directory.Writes.{write_tables-ok}
use universal_peer_mcp.Directory.Unique.{OneEach}
use universal_peer_mcp.Directory.Registers.{Planned, plan-Planned}
use universal_peer_mcp.Directory.View.{view, assign, is_session}
use universal_peer_mcp.Directory.Assign.{next_tables-view}

-- What a registration of a session under an alias has come to.
abbrev pub Refined : String → Identity → Text → Files → Files → Registered → Type 0
Refined alias who id f g same_as_before =
    (g ≡ f) × (is_session who.kind id (view f.tables alias) ≡ true)
Refined alias who id f g (registered rs) =
    (size g.tables ≤ max_peers)
    × ((a : String) → view g.tables a ≡ assign alias who.kind id (view f.tables) a)

holder-view :
    (alias : String) (kind : Kind) (id : Text) (t : Tables)
    → is_alias alias ≡ true
    → holder_is kind id (holder_of alias t) ≡ true
    → is_session kind id (view t alias) ≡ true
unfolding holder_of resolve_peer
holder-view alias kind id t valid h =
    rw valid (go (entry_of alias t.claude_table) (entry_of alias t.codex_table) h)
  where
    go :
        (c d : Option (String × Entry))
        → holder_is kind id (elim c [ some p ↦ some (claude, p) | none ↦ with_kind codex d ]) ≡ true
        → is_session kind id (or_peer (as_peer claude c) (as_peer codex d)) ≡ true
    go none none e = absurd (ground arith)
    go none (some p) e = e
    go (some p) d e = e

carry_out-Refined :
    (d : Disk) (alias : String) (who : Identity) (id : Text) (f g : Files) (r : Registered)
    (o : Outcome Plan)
    → is_alias alias ≡ true
    → OneEach f.tables
    → ((p : Plan) → o ≡ ok p → Planned alias who id f.tables p)
    → carry_out d who.kind o f ≡ (ok r, g)
    → Refined alias who id f g r
carry_out-Refined d alias who id f g r (err code) valid one planned h = absurd (ground arith)
carry_out-Refined d alias who id f g same_as_before (ok unchanged) valid one planned h = (
  ap (λ (x : Outcome Registered × Files). x.1) (sym h),
  holder-view alias who.kind id f.tables valid (planned unchanged refl),
)
carry_out-Refined d alias who id f g (registered rs) (ok unchanged) valid one planned h =
    absurd (ground arith)
carry_out-Refined d alias who id f g r (ok (change rs next)) valid one planned h =
    go (write_tables d who.kind f.tables next f) refl r h
  where
    go :
        (w : Outcome (Unit {0}) × Files)
        → write_tables d who.kind f.tables next f ≡ w
        → (q : Registered) → registered_as rs w ≡ (ok q, g)
        → Refined alias who id f g q
    go (err code, x) e q h' = absurd (ground arith)
    go (ok u, x) e same_as_before h' = absurd (ground arith)
    go (ok u, x) e (registered qs) h' =
        let (r_eq, n_eq, small) = planned (change rs next) refl in
        let there : g.tables ≡ next =
          ap (λ (y : Outcome Registered × Files). y.1.tables) (sym h')
          ∙ write_tables-ok d who.kind next f x u e in
        (
          subst (λ t. size t ≤ max_peers) (sym there) small,
          subst (λ t. (a : String) → view t a ≡ assign alias who.kind id (view f.tables) a)
              (sym (there ∙ n_eq ∙ ap (λ q. next_tables alias who id q f.tables) r_eq))
              (next_tables-view alias who id f.tables one valid),
        )

-- A registration that succeeds has given the alias to the session, which has lost its other aliases, among at most
-- `MAX_PEERS`; or has changed nothing, and the alias named the session before.
pub register_peer-Refined :
    (d : Disk) (replace : Bool) (alias : String) (who : Identity) (f g : Files) (r : Registered)
    → OneEach f.tables
    → register_peer d replace alias (some who) f ≡ (ok r, g)
    → (id : Text) × (require_uuid who.id ≡ ok id) × Refined alias who id f g r
unfolding register_peer
register_peer-Refined d replace alias who f g r one h = elim (Bool-cases (is_alias alias)) [
  | inr invalid ↦ absurd (refused (rw invalid at h))
  | inl valid ↦ read valid (read_fault d) (require_uuid who.id) refl (rw valid at h)
]
  where
    refused : ◌≡◌ {A = Outcome Registered × Files} (refuse "INVALID_ALIAS", f) (ok r, g) → ⊥
    refused e = ground arith

    read :
        is_alias alias ≡ true
        → (fault : Option (Option String)) (id : Outcome Text) → require_uuid who.id ≡ id
        → elim fault as (λ q. Outcome Registered × Files) [
          | some code ↦ (err code, f)
          | none ↦ elim id as (λ q. Outcome Registered × Files) [
            | err code ↦ (err code, f)
            | ok i ↦ carry_out d who.kind (plan replace alias who i f.tables) f
          ]
        ]
          ≡ (ok r, g)
        → (i : Text) × (require_uuid who.id ≡ ok i) × Refined alias who i f g r
    read valid (some code) id e h' = absurd (ground arith)
    read valid none (err code) e h' = absurd (ground arith)
    read valid none (ok i) e h' = (
      i,
      e,
      carry_out-Refined d alias who i f g r (plan replace alias who i f.tables) valid one
          (plan-Planned replace alias who i f.tables) h',
    )
