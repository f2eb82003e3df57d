-- ===== src/Core/Pages.antt =====
-- Reading on from a page of the ledger (`events` of src/core/peer-core.mjs).
use universal_peer_mcp.Prelude.{
  ℕ, ◌≡◌, refl, sym, ap, subst, Bool, false, ◌&&◌, Option, none, some, List, [], ◌++◌, Text, arith,
  ltb, Bool-cases, inl, inr, filter, length, drop, Outcome, ok, err, ◌>>=◌, ◌∙◌, leb,
}
use mathlib.Core.Bool.{true≢false}
use universal_peer_mcp.Ledger.{Row}
use universal_peer_mcp.Ledger.Sequence.{IsNumbered}
use universal_peer_mcp.Ledger.Requests.{list}
use universal_peer_mcp.Core.Reads.{
  from_start, after_seq, no_number, page_of, Page, After, events_page, after_number, limit_or,
  cursor_of, take_page, end_seq,
}
use universal_peer_mcp.Core.Ascending.{
  Above, ListsBy, end_seq-Above, filter-last, take_page-prefix, listed-Above, filter-later,
  filter-none, list-ListsBy, drop-all,
}

ok_inj : (a b : List Row) → ok a ≡ ok b → a ≡ b
ok_inj a b e = cc

page_inj : (a b : Page) → ok a ≡ ok b → a ≡ b
page_inj a b e = cc

-- What a page of a ledger says of the reading that began after `a`.
abbrev pub ReadsOn : List Row → Option Text → ℕ → Page → Type 0
ReadsOn events id a page =
    (rest : List Row) × (list events (some a) id ≡ ok (page.events ++ rest))
    × (list events (some page.cursor) id ≡ ok rest)
    × (page.has_more ≡ false → rest ≡ [])

page_of-ReadsOn :
    (size : Row → ℕ) (limit a : ℕ) (id : Option Text) (events : List Row) (p : Row → Bool)
    → IsNumbered events
    → ListsBy events id p
    → ReadsOn events id a
        (page_of size limit a events (filter (λ row. ltb a row.seq && p row) events))
page_of-ReadsOn size limit a id events p numbered lists =
    elim (Bool-cases (ltb (length taken) (length matching))) [
      | inl more ↦ rw more (
        rest,
        lists a ∙ ap ok (sym split),
        lists (end_seq a taken)
            ∙ ap ok (
                filter-later p a (end_seq a taken) events
                  (end_seq-Above a taken rest (subst (Above a) (sym split) above))
                ∙ ap (filter (λ row. ltb (end_seq a taken) row.seq)) (sym split)
                ∙ filter-last a taken rest (subst (Above a) (sym split) above)),
        λ none_more. absurd (true≢false none_more),
      )
      | inr all_taken ↦ rw all_taken (
        [],
        lists a
            ∙ ap ok
                (sym split ∙ ap (λ t. taken ++ t) (drop-all taken rest matching split all_taken)),
        lists (end_seq 0 events)
            ∙ ap ok
                (filter-none p 1 0 (end_seq 0 events) events (omega arith) numbered (omega arith)),
        λ none_more. refl,
      )
    ]
  where
    matching : List Row
    matching = filter (λ row. ltb a row.seq && p row) events

    taken : List Row
    taken = take_page size limit 0 matching

    rest : List Row
    rest = drop (length taken) matching

    split : taken ++ rest ≡ matching
    split = take_page-prefix size limit 0 matching

    above : Above a matching
    above = listed-Above p 1 a events numbered

list-none : (events : List Row) (id : Option Text) → list events none id ≡ err none
unfolding list
list-none events id = refl

-- A page of a numbered ledger loses and repeats no row: the rows that are listed after the given number are those of
-- the page and then those that are listed after its cursor; and these are none if the page says that there are no
-- more.
pub events_page-ReadsOn :
    (size : Row → ℕ) (limit : Option ℕ) (after : After) (id : Option Text) (events : List Row)
    (page : Page)
    → IsNumbered events
    → events_page size limit after id events ≡ ok page
    → ReadsOn events id (cursor_of after) page
unfolding events_page
events_page-ReadsOn size limit after id events page numbered h =
    elim (Bool-cases (leb 1 (limit_or limit) && leb (limit_or limit) 1000)) [
      | inr bad ↦ absurd (cc (rw (events_page, bad) at h))
      | inl good ↦ go after (rw (events_page, good) at h)
    ]
  where
    listed :
        (a : ℕ) (r : Outcome (List Row))
        → list events (some a) id ≡ r
        → (r >>= λ matching. ok (page_of size (limit_or limit) a events matching)) ≡ ok page
        → ReadsOn events id a page
    listed a (err code) e k = absurd (cc)
    listed a (ok rows) e k =
        let (p, lists) = list-ListsBy events a id rows e in
        subst (ReadsOn events id a)
          (ap (page_of size (limit_or limit) a events) (ok_inj _ rows (sym (lists a) ∙ e))
            ∙ page_inj _ page k)
          (page_of-ReadsOn size (limit_or limit) a id events p numbered lists)

    go :
        (after : After)
        → (list events (after_number after) id >>= λ matching.
            ok (page_of size (limit_or limit) (cursor_of after) events matching))
          ≡ ok page
        → ReadsOn events id (cursor_of after) page
    go from_start k = listed 0 (list events (some 0) id) refl k
    go (after_seq n) k = listed n (list events (some n) id) refl k
    go no_number k = absurd (cc (rw (list-none events id) at k))
