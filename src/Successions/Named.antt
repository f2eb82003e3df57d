-- ===== src/Successions/Named.antt =====
-- What `rebindTargetSessionId` of src/core/target-config.mjs leaves in the target table.
use universal_peer_mcp.Prelude.{
  ◌≡◌, ◌∙◌, refl, sym, ap, Option, none, some, [], ◌∷◌, String, Text, lower, str_eq, ok, arith, inl,
  inr, Bool-cases, Option-cases, Outcome-cases, lower_idem,
}
use universal_peer_mcp.Limits.{same_uuid, require_uuid}
use universal_peer_mcp.Limits.Laws.{same_uuid_sound}
use universal_peer_mcp.Successions.Sidecar.{
  Entry, TargetTable, TableFile, Moved, entry_of, with_session, move_to, rebind_target_session_id,
}

-- The table has a row of the alias, and its session is the given one, in some spelling.
abbrev pub IsNamed : String → Text → TargetTable → Type 0
IsNamed alias id table =
    (entry : Entry) × (held : Text) × (entry_of alias table ≡ some entry)
    × (entry.session ≡ some held)
    × (lower held ≡ lower id)

entry_of-with_session :
    (alias : String) (next : Text) (table : TargetTable) (entry : Entry)
    → entry_of alias table ≡ some entry
    → entry_of alias (with_session alias next table) ≡ some (record entry { session = some next })
entry_of-with_session alias next [] entry h = absurd (ground arith)
entry_of-with_session alias next ((name, e) ∷ table) entry h =
    elim (Bool-cases (str_eq name alias)) [
      | inl here ↦ ground (arith)
      | inr other ↦
          rw (with_session, other, entry_of, other)
            (entry_of-with_session alias next table entry (rw (entry_of, other) at h))
    ]

require_uuid-lower :
    (o : Option Text) (id : Text)
    → require_uuid o ≡ ok id
    → (t : Text) × (o ≡ some t) × (id ≡ lower t)
unfolding require_uuid
require_uuid-lower none id h = absurd (ground arith)
require_uuid-lower (some t) id h = (t, refl, ground arith)

require_uuid-some : (t id : Text) → require_uuid (some t) ≡ ok id → id ≡ lower t
unfolding require_uuid
require_uuid-some t id h = ground arith

move_to-IsNamed :
    (file : TableFile) (alias : String) (held next id : Text) (entry : Entry)
    → entry_of alias file.table ≡ some entry
    → (t : Text) × (entry.session ≡ some t) × (held ≡ lower t)
    → next ≡ lower id
    → (moved : Moved) → (move_to file alias held next).0 ≡ ok moved
    → IsNamed alias id (move_to file alias held next).1
move_to-IsNamed file alias held next id entry found (t, session, e) f moved h =
    elim (Bool-cases (same_uuid (some held) (some next))) [
      | inl kept ↦
          let (_, _, lowered) = same_uuid_sound held next kept in
          rw (move_to, kept)
            (
              entry,
              t,
              found,
              session,
              sym (lower_idem t) ∙ ap lower (sym e) ∙ lowered ∙ ap lower f ∙ lower_idem id,
            )
      | inr new ↦ elim (Option-cases file.write_fault) [
        | inr (code, fault) ↦ absurd (cc (rw (move_to, new, fault) at h))
        | inl written ↦
            rw (move_to, new, written)
              (
                record entry { session = some next },
                next,
                entry_of-with_session alias next file.table entry found,
                refl,
                ap lower f ∙ lower_idem id,
              )
      ]
    ]

pub rebind_target_session_id-IsNamed :
    (file : TableFile) (alias : String) (id : Text) (moved : Moved)
    → (rebind_target_session_id file alias id).0 ≡ ok moved
    → IsNamed alias id (rebind_target_session_id file alias id).1
unfolding rebind_target_session_id
rebind_target_session_id-IsNamed file alias id moved h = elim (Option-cases file.read_fault) [
  | inr (code, e) ↦ absurd (cc (rw (rebind_target_session_id, e) at h))
  | inl reads ↦ elim (Option-cases (entry_of alias file.table)) [
    | inl missing ↦ absurd (cc (rw (rebind_target_session_id, reads, missing) at h))
    | inr (entry, found) ↦ elim (Outcome-cases (require_uuid entry.session)) [
      | inr (code, e) ↦ absurd (cc (rw (rebind_target_session_id, reads, found, e) at h))
      | inl (held, is_held) ↦ elim (Outcome-cases (require_uuid (some id))) [
        | inr (code, e) ↦ absurd (cc (rw (rebind_target_session_id, reads, found, is_held, e) at h))
        | inl (next, is_next) ↦
            rw (rebind_target_session_id, reads, found, is_held, is_next)
              (move_to-IsNamed file alias held next id entry found
                (require_uuid-lower entry.session held is_held) (require_uuid-some id next is_next)
                moved (rw (rebind_target_session_id, reads, found, is_held, is_next) at h))
      ]
    ]
  ]
]
