-- ===== src/Waits/Strength.antt =====
-- The strength of evidence (src/core/wait-requirements.mjs): a reply answers a wait for an ack, an ack
-- answers no wait for a reply, and nothing else is evidence for two requirements.
use universal_peer_mcp.Prelude.{
  ◌≡◌, ◌⊎◌, ◌↔◌, refl, sym, subst, ap, and-eq-true, Bool, true, false, Option, none, some, List, [],
  ◌∷◌, String, arith, str_eq, str_eq-true, inl, inr, Bool-cases, if◌then◌else◌,
}
use universal_peer_mcp.Ledger.{Row, is_type}
use universal_peer_mcp.Waits.{
  Evidence, ack_evidence, reply_evidence, wait_evidence, is_evidence, satisfies,
}

-- The requirement is known, and the row satisfies it.
abbrev pub Answers : String → Row → Type 0
Answers name row =
    (kinds : List Evidence) × (wait_evidence name ≡ some kinds) × (satisfies kinds row ≡ true)

-- What a row that satisfies a requirement is, written by the five names.
abbrev pub Allowed : String → Row → Type 0
Allowed name row =
    ((name ≡ "ack") × ((row.type ≡ "peer_ack") ⊎ (row.type ≡ "peer_reply")))
    ⊎ (((name ≡ "reply") × (row.type ≡ "peer_reply"))
        ⊎ (((name ≡ "idle") × (row.type ≡ "peer_idle_notice"))
            ⊎ (((name ≡ "delivery")
                  × (row.type ≡ "peer_message_status")
                  × (row.status ≡ some "delivered"))
                ⊎ ((name ≡ "terminal") × (row.type ≡ "peer_terminal_failure")))))

is_type-eq : (type : String) (row : Row) → is_type type row ≡ true → row.type ≡ type
is_type-eq type row h = str_eq-true row.type type h

status-eq :
    (o : Option String) (wanted : String)
    → elim o [ none ↦ false | some s ↦ str_eq s wanted ] ≡ true
    → o ≡ some wanted
status-eq none wanted h = absurd (ground arith)
status-eq (some s) wanted h = ap some (str_eq-true s wanted h)

one :
    (row : Row) (type : String) (status : Option String)
    → satisfies (record { row_type = type; row_status = status } ∷ []) row ≡ true
    → is_evidence row (record { row_type = type; row_status = status }) ≡ true
unfolding satisfies
one row type status h = ground arith

plain-eq :
    (row : Row) (type : String)
    → satisfies (record { row_type = type; row_status = none } ∷ []) row ≡ true
    → row.type ≡ type
plain-eq row type h =
    is_type-eq type row (and-eq-true (is_type type row) true (one row type none h)).0

either :
    (row : Row)
    → satisfies (ack_evidence ∷ reply_evidence ∷ []) row ≡ true
    → (row.type ≡ "peer_ack") ⊎ (row.type ≡ "peer_reply")
unfolding satisfies
either row h = elim (Bool-cases (is_type "peer_ack" row)) [
  | inl ack ↦ inl (is_type-eq "peer_ack" row ack)
  | inr other ↦ inr (is_type-eq "peer_reply" row (ground arith))
]

-- The first entry of the table with a name.
known-first :
    (t : Bool) (kinds found : List Evidence) (rest : Option (List Evidence))
    → (if t then some found else rest) ≡ some kinds
    → t ≡ true
    → found ≡ kinds
known-first t kinds found rest known hit = ground arith

known-next :
    (t : Bool) (kinds found : List Evidence) (rest : Option (List Evidence))
    → (if t then some found else rest) ≡ some kinds
    → t ≡ false
    → rest ≡ some kinds
known-next t kinds found rest known miss = ground arith

Answers-Allowed : (name : String) (row : Row) → Answers name row → Allowed name row
unfolding wait_evidence
Answers-Allowed name row (kinds, known, h) = elim (Bool-cases (str_eq name "ack")) [
  | inl a ↦ inl (str_eq-true name "ack" a, either row (has (known-first _ kinds _ _ known a)))
  | inr na ↦
      let k = known-next _ kinds _ _ known na in
      elim (Bool-cases (str_eq name "reply")) [
        | inl r ↦ inr (
            inl (
              str_eq-true name "reply" r,
              plain-eq row "peer_reply" (has (known-first _ kinds _ _ k r)),
            ))
        | inr nr ↦
            let k = known-next _ kinds _ _ k nr in
            elim (Bool-cases (str_eq name "idle")) [
              | inl i ↦ inr (
                  inr (
                    inl (
                      str_eq-true name "idle" i,
                      plain-eq row "peer_idle_notice" (has (known-first _ kinds _ _ k i)),
                    )))
              | inr ni ↦
                  let k = known-next _ kinds _ _ k ni in
                  elim (Bool-cases (str_eq name "delivery")) [
                    | inl d ↦
                        let (typed, delivered) = and-eq-true (is_type "peer_message_status" row) _ (
                          one row "peer_message_status" (some "delivered")
                            (has (known-first _ kinds _ _ k d))) in
                        inr (
                          inr (
                            inr (
                              inl (
                                str_eq-true name "delivery" d,
                                is_type-eq "peer_message_status" row typed,
                                status-eq row.status "delivered" delivered,
                              ))))
                    | inr nd ↦
                        let k = known-next _ kinds _ _ k nd in
                        elim (Bool-cases (str_eq name "terminal")) [
                          | inl t ↦ inr (
                              inr (
                                inr (
                                  inr (
                                    str_eq-true name "terminal" t,
                                    plain-eq row "peer_terminal_failure"
                                        (has (known-first _ kinds _ _ k t)),
                                  ))))
                          | inr nt ↦ absurd (let k = known-next _ kinds _ _ k nt in ground arith)
                        ]
                  ]
            ]
      ]
]
  where
    has : {found : List Evidence} → found ≡ kinds → satisfies found row ≡ true
    has {found} e = subst (λ ks. satisfies ks row ≡ true) (sym e) h

Allowed-Answers : (name : String) (row : Row) → Allowed name row → Answers name row
unfolding wait_evidence satisfies
Allowed-Answers name row (inl (n, inl t)) =
    (ack_evidence ∷ reply_evidence ∷ [], rw n refl, rw t refl)
Allowed-Answers name row (inl (n, inr t)) =
    (ack_evidence ∷ reply_evidence ∷ [], rw n refl, rw t refl)
Allowed-Answers name row (inr (inl (n, t))) = (reply_evidence ∷ [], rw n refl, rw t refl)
Allowed-Answers name row (inr (inr (inl (n, t)))) =
    (record { row_type = "peer_idle_notice"; row_status = none } ∷ [], rw n refl, rw t refl)
Allowed-Answers name row (inr (inr (inr (inl (n, t, s))))) = (
  record { row_type = "peer_message_status"; row_status = some "delivered" } ∷ [],
  rw n refl,
  rw (t, s) refl,
)
Allowed-Answers name row (inr (inr (inr (inr (n, t))))) =
    (record { row_type = "peer_terminal_failure"; row_status = none } ∷ [], rw n refl, rw t refl)

-- A row satisfies a requirement exactly if the requirement is one of five: `ack`, and the row is an ack or
-- a reply; `reply`, and it is a reply; `idle`, and it is an idle notice; `delivery`, and it is a status
-- that says delivered; or `terminal`, and it is a terminal failure. An unknown requirement has no rows.
pub wait_evidence_iff : (name : String) (row : Row) → Answers name row ↔ Allowed name row
wait_evidence_iff name row = (Answers-Allowed name row, Allowed-Answers name row)
