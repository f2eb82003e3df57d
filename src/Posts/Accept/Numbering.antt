-- ===== src/Posts/Accept/Numbering.antt =====
-- A link row carries the number of the post that it links (`seq: row.seq` among the data of
-- `quarantine_linked` in src/core/posts.mjs), where `init` of src/core/events.mjs wants its own.
use universal_peer_mcp.Prelude.{
  ℕ, ◌+◌, ◌≡◌, ◌≢◌, sym, ap, subst, ◌∙◌, Bool, true, false, Option, List, [], ◌∷◌, ◌++◌, Text,
  arith, any, filter, length-append, Outcome, ok, err, Outcome-cases, inl, inr, Bool-cases,
  Option-cases,
}
use universal_peer_mcp.Ledger.{Row, Store}
use universal_peer_mcp.Ledger.Sequence.{
  append-Appended, append_checked-Appended, IsNumbered, IsNumberedFrom, IsNumberedFrom-last,
}
use universal_peer_mcp.Posts.{
  World, Post, Accepted, accepted, answered, append_in, append_checked_in, link_all, link_fields,
  is_link_of, first_post, outcome_for, after_write, accept_post, post_fields, post_race,
  is_quarantined_copy, has_sha, body_digest,
}
use universal_peer_mcp.Ledger.Replay.{init, kept_file}
use universal_peer_mcp.Ledger.Replay.RoundTrip.{IsJson, file_of, is_line, init-refuses}
use universal_peer_mcp.Posts.Accept.{Grows, OnlyAdds, link_all-Grows, link_all-next, link_all-stop}

-- A part of a numbered ledger from its start on is numbered.
IsNumberedFrom-left : (n : ℕ) (xs ys : List Row) → IsNumberedFrom n (xs ++ ys) → IsNumberedFrom n xs
IsNumberedFrom-left n [] ys h = tt
IsNumberedFrom-left n (x ∷ xs) ys (here, rest) = (here, IsNumberedFrom-left (n + 1) xs ys rest)

Grows-IsNumbered : (s t : Store) → Grows s t → IsNumbered t.events → IsNumbered s.events
Grows-IsNumbered s t (xs, e) h = IsNumberedFrom-left 1 s.events xs (subst IsNumbered e h)

answered-ne-accepted :
    (f : ℕ → Accepted) (seq : ℕ) (r : Outcome Row × Store)
    → ((n : ℕ) → f n ≢ accepted seq)
    → (answered f r).0 ≢ ok (accepted seq)
answered-ne-accepted f seq (ok row, s) h e = h row.seq (ground arith)
answered-ne-accepted f seq (err code, s) h e = cc

outcome_for-ne-accepted :
    (w : World) (k : ℕ) (p : Post) (prior : Row) (s : Store) (seq : ℕ)
    → (outcome_for w k p prior s).0 ≢ ok (accepted seq)
unfolding outcome_for
outcome_for-ne-accepted w k p prior s seq =
    elim (Bool-cases (has_sha (body_digest w p.body).sha prior)) [
      | inl same ↦ rw same (answered-ne-accepted _ seq _ (λ n e. cc))
      | inr other ↦ rw other (answered-ne-accepted _ seq _ (λ n e. cc))
    ]

-- Only the branch that writes the row gives `accepted`.
accept_post-after_write :
    (w : World) (p : Post) (s t : Store) (seq : ℕ)
    → accept_post w p s ≡ (ok (accepted seq), t)
    → after_write w p
        (append_checked_in w 1 "peer_post" (post_fields w p) (post_race p.id) (w.others 0 s))
      ≡ (ok (accepted seq), t)
unfolding accept_post
accept_post-after_write w p s t seq h = elim (Option-cases (first_post s.events p.id)) [
  | inr (prior, found) ↦ absurd (outcome_for-ne-accepted w 0 p prior s seq (ground arith))
  | inl new ↦ ground arith
]

linking :
    (w : World) (p : Post) (u t : Store) (row q : Row) (qs : List Row) (seq : ℕ)
    → filter (is_quarantined_copy row) u.events ≡ q ∷ qs
    → after_write w p (ok row, u) ≡ (ok (accepted seq), t)
    → link_all w 2 row.seq p.id (q ∷ qs) u ≡ (ok (accepted seq), t)
unfolding after_write
linking w p u t row q qs seq copies h =
    subst (λ rows. link_all w 2 row.seq p.id rows u ≡ (ok (accepted seq), t)) copies h

-- A loop that ends well has written the link of its first frame, if that was not linked.
first_link :
    (w : World) (k seq : ℕ) (id : Text) (q : Row) (qs : List Row) (u t : Store) (a : Accepted)
    → OnlyAdds w
    → any (is_link_of q.seq) u.events ≡ false
    → link_all w k seq id (q ∷ qs) u ≡ (ok a, t)
    → (link : Row) × (v : Store) × (append_in w k "quarantine_linked" (link_fields q.seq seq id) u
        ≡ (ok link, v))
      × Grows v t
first_link w k seq id q qs u t a fair fresh h =
    let written = append_in w k "quarantine_linked" (link_fields q.seq seq id) u in
    elim (Outcome-cases written.0) [
      | inr (code, failed) ↦
          absurd (cc (sym (link_all-stop w k seq id q qs u code fresh failed) ∙ h))
      | inl (link, ok_link) ↦ (
        link,
        written.1,
        ground arith,
        subst (λ r. Grows written.1 r.1)
            (sym (link_all-next w k seq id q qs u link fresh ok_link) ∙ h)
            (link_all-Grows w (k + 1) seq id qs written.1 fair),
      )
    ]

-- Two rows of a numbered ledger, the first before the second, have two numbers.
rows_apart :
    (before between : List Row) (row link : Row)
    → IsNumbered ((before ++ row ∷ []) ++ between ++ link ∷ [])
    → row.seq ≢ link.seq
rows_apart before between row link h e =
    let prefix = (before ++ row ∷ []) ++ between in
    let first = IsNumberedFrom-last 1 before row (
      IsNumberedFrom-left 1 (before ++ row ∷ []) between
        (IsNumberedFrom-left 1 prefix (link ∷ []) h)) in
    let second = IsNumberedFrom-last 1 prefix link h in
    absurd (
      omega (
        arith,
        first,
        second,
        e,
        length-append (before ++ row ∷ []) between,
        length-append before (row ∷ []),
      ))

-- A post that is accepted while an unlinked quarantined frame has its digest leaves a ledger that is
-- not numbered: the link row repeats the number of the post. `row` is the row of the post and `u` the
-- store just after it; other operations only add rows.
pub accept_post-unnumbered :
    (w : World) (p : Post) (s u t : Store) (row q : Row) (qs : List Row) (seq : ℕ)
    → OnlyAdds w
    → accept_post w p s ≡ (ok (accepted seq), t)
    → append_checked_in w 1 "peer_post" (post_fields w p) (post_race p.id) (w.others 0 s)
      ≡ (ok row, u)
    → filter (is_quarantined_copy row) u.events ≡ q ∷ qs
    → any (is_link_of q.seq) u.events ≡ false
    → ¬ (IsNumbered t.events)
accept_post-unnumbered w p s u t row q qs seq fair accept wrote copies fresh numbered =
    let loop = linking w p u t row q qs seq copies (
      subst (λ r. after_write w p r ≡ (ok (accepted seq), t)) wrote
        (accept_post-after_write w p s t seq accept)) in
    let (link, v, linked, rest) =
      first_link w 2 row.seq p.id q qs u t (accepted seq) fair fresh loop in
    let (_, _, _, _, number, grown, _) =
      append-Appended w.line_bytes (w.moment 2) "quarantine_linked" (link_fields q.seq row.seq p.id)
        (w.others 2 u) (ok link, v) linked in
    let (_, _, _, _, _, posted, _) =
      append_checked-Appended w.line_bytes (w.moment 1) "peer_post" (post_fields w p)
        (post_race p.id) (w.others 1 (w.others 0 s)) (ok row, u) wrote in
    let (between, more) = fair 2 u in
    rows_apart (w.others 1 (w.others 0 s)).events between row link
      (subst IsNumbered
        (grown ∙ ap (λ rows. rows ++ link ∷ []) (more ∙ ap (λ rows. rows ++ between) posted))
        (Grows-IsNumbered v t rest numbered))
      (sym number)

-- Such a ledger does not open again: after the daemon ends, `init` refuses the file of its rows,
-- whatever line the crash left torn. `row` is the row of the post that was accepted, `u` the store just
-- after it, and `q` the first frame in quarantine with the post's digest, which has no link row yet;
-- the other operations only add rows, and the laws of JSON lines hold.
pub accept_post-blocks_start :
    (is_utf8 : List ℕ → Bool) (parse_row : List ℕ → Option Row) (print_row : Row → List ℕ)
    (w : World) (p : Post) (s u t : Store) (row q : Row) (qs : List Row) (seq : ℕ) (torn : List ℕ)
    (is_owned : Bool) (found : List Row × List ℕ)
    → OnlyAdds w
    → accept_post w p s ≡ (ok (accepted seq), t)
    → append_checked_in w 1 "peer_post" (post_fields w p) (post_race p.id) (w.others 0 s)
      ≡ (ok row, u)
    → filter (is_quarantined_copy row) u.events ≡ q ∷ qs
    → any (is_link_of q.seq) u.events ≡ false
    → IsJson parse_row print_row t.events
    → is_line torn ≡ true
    → init is_utf8 parse_row (kept_file is_owned (file_of print_row t.events ++ torn)) ≢ ok found
accept_post-blocks_start is_utf8 parse_row print_row w p s u t row q qs seq torn is_owned found fair
      accept wrote copies fresh json cut =
    init-refuses is_utf8 parse_row print_row is_owned t.events torn found json cut
      (accept_post-unnumbered w p s u t row q qs seq fair accept wrote copies fresh)
