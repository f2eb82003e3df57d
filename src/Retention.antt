-- ===== src/Retention.antt =====
-- src/core/retention.mjs: when a spooled body may go. A `Site` is the ledger and the spool's files; a
-- call that waits for the `k`th time lets other operations run, and `others k` is what they do.
-- Row data that nothing reads (the number of days) is left out.
pub mod Pass
pub mod Safety
pub mod Concluded
pub mod Disposal
mod Tests
use universal_peer_mcp.Prelude.{
  ℕ, zero, suc, ◌+◌, ◌-◌, ◌*◌, Bool, true, false, not, ◌&&◌, ◌||◌, Option, none, some, List, [],
  ◌∷◌, ◌++◌, String, Text, codes, lower, same_text, leb, ltb, ◌==◌, str_eq, if◌then◌else◌, length,
  any, all, filter, Outcome, ok, err,
}
use universal_peer_mcp.Limits.{is_digit, is_lower_letter, is_upper_letter, text_starts_with}
use universal_peer_mcp.Spool.{max_inbound_body_bytes}
use universal_peer_mcp.Ledger.{Row, Fields, Header, no_fields, is_type, Store, Moment, append}

-- What opening a spooled file gives: nothing there, a failure or a file that is not private, or bytes.
pub data Reading : Type 0 where
  absent unreadable : Reading
  content : List ℕ → Reading

pub record Site : Type 0 where
  pub store : Store
  pub files : String → Reading

pub record Rest : Type 0 where
  pub line_bytes : Row → ℕ
  pub sha256 : List ℕ → String
  pub moment : ℕ → Moment
  pub others : ℕ → Site → Site
  pub unlink_fault : ℕ → Option (Option String)

abbrev pub one_of : List String → String → Bool
one_of names s = any (λ name. str_eq s name) names

-- `SELF`
abbrev pub self_types : List String
self_types =
    "inbound_body_expired" ∷ "inbound_body_expire_skipped" ∷ "inbound_body_read"
    ∷ "inbound_body_disposition" ∷ "inbound_body_retention_exceeded" ∷ []

abbrev pub has_string : Option String → Bool
has_string none = false
has_string (some s) = true

abbrev pub names_file : Option String → String → Bool
names_file none f = false
names_file (some g) f = str_eq g f

-- `expiredBodyFiles`: the files of these rows.
unfoldable pub expired_body_files : List Row → List String
expired_body_files [] = []
expired_body_files (row ∷ rows) = elim row.body_file [
  | none ↦ expired_body_files rows
  | some f ↦
      let rest = expired_body_files rows in
      if is_type "inbound_body_expired" row then f ∷ rest else rest
]

-- `isSource`
unfoldable pub is_source : Row → Bool
is_source row =
    has_string row.body_file && (has_string row.body_sha256 && not (one_of self_types row.type))

-- `concludedState`
pub record State : Type 0 where
  pub concluded : List Text
  pub processed : List ℕ
  pub exceeded : List ℕ
  pub skipped : List ℕ

unfoldable pub concluded_ids : List Row → List Text
concluded_ids [] = []
concluded_ids (row ∷ rows) = elim row.message_id [
  | none ↦ concluded_ids rows
  | some id ↦
      let rest = concluded_ids rows in
      if is_type "peer_ack" row || is_type "peer_reply" row then lower id ∷ rest else rest
]

-- The `sourceSeq`s of the rows that pass a test.
unfoldable pub source_seqs : (Row → Bool) → List Row → List ℕ
source_seqs p [] = []
source_seqs p (row ∷ rows) = elim row.source_seq [
  | none ↦ source_seqs p rows
  | some n ↦ let rest = source_seqs p rows in if p row then n ∷ rest else rest
]

abbrev pub is_processed_body : Row → Bool
is_processed_body row =
    is_type "inbound_body_disposition" row && names_file row.disposition "processed"

unfoldable pub concluded_state : List Row → State
unfolding concluded_ids source_seqs
concluded_state events = record {
  concluded = concluded_ids events;
  processed = source_seqs is_processed_body events;
  exceeded = source_seqs (is_type "inbound_body_retention_exceeded") events;
  skipped = source_seqs (is_type "inbound_body_expire_skipped") events;
}

abbrev pub has_seq : ℕ → List ℕ → Bool
has_seq n = any (λ m. m == n)

-- `isConcluded`
unfoldable pub is_concluded : Row → State → Bool
is_concluded row state =
    elim row.message_id [ none ↦ false | some id ↦ any (same_text (lower id)) state.concluded ]
    || has_seq row.seq state.processed

-- The name of a body's file: `inbound/` and then `NAME`, `[0-9A-Za-z][0-9A-Za-z._-]{0,127}\.txt`.
abbrev name_head : ℕ → Bool
name_head c = is_digit c || (is_lower_letter c || is_upper_letter c)

abbrev name_char : ℕ → Bool
name_char c = name_head c || (c == b'.' || (c == b'_' || c == b'-'))

abbrev drop : ℕ → Text → Text
drop zero t = t
drop (suc n) [] = []
drop (suc n) (c ∷ t) = drop n t

abbrev is_name : Text → Bool
is_name [] = false
is_name (c ∷ t) =
    name_head c
    && (all name_char t
        && (leb 4 (length t)
            && (leb (length t) 131 && same_text (drop (length t - 4) t) (codes ".txt"))))

unfoldable pub is_body_file : String → Bool
is_body_file f = text_starts_with (codes f) (codes "inbound/") && is_name (drop 8 (codes f))

-- Waits and writes.
abbrev pub append_at : Rest → ℕ → String → Fields → Site → Outcome Row × Site
append_at w k type fields site =
    let written = append w.line_bytes (w.moment k) type fields (w.others k site).store in
    (written.0, record { store = written.1; files = (w.others k site).files })

abbrev pub source_fields : Row → Fields
source_fields row = record no_fields { source_seq = some row.seq }

pub data Deletion : Type 0 where
  expired missing passed_over ledger_append_failed : Deletion
  unlink_failed : Option String → Deletion

-- What `deleteBody` returns, with the set `skipped`, which it may add to.
pub record Deleted : Type 0 where
  pub deletion : Deletion
  pub skipped_seqs : List ℕ
  pub left : Site

-- `skip`: one row for each body.
unfoldable pub skip : Rest → ℕ → Row → String → List ℕ → Site → Deleted
skip w k row why skipped site =
    let written =
      append_at w k "inbound_body_expire_skipped" (record (source_fields row) { reason = some why })
        site in
    if has_seq row.seq skipped
    then record { deletion = passed_over; skipped_seqs = skipped; left = site }
    else elim written.0 [
      | ok event ↦ record {
        deletion = passed_over;
        skipped_seqs = row.seq ∷ skipped;
        left = written.1;
      }
      | err code ↦ record {
        deletion = ledger_append_failed;
        skipped_seqs = skipped;
        left = written.1;
      }
    ]

abbrev pub without : String → (String → Reading) → String → Reading
without f files g = if str_eq g f then absent else files g

abbrev pub expired_fields : Rest → Row → List ℕ → String → Fields
expired_fields w row bytes why = record (source_fields row) {
  body_file = row.body_file;
  body_sha256 = some (w.sha256 bytes);
  body_bytes = some (length bytes);
  reason = some why;
  header = row.header;
}

-- The unlink, after the row.
unfoldable pub unlink : Rest → ℕ → String → List ℕ → Outcome Row × Site → Deleted
unlink w k f skipped (err code, site) = record {
  deletion = ledger_append_failed;
  skipped_seqs = skipped;
  left = site;
}
unlink w k f skipped (ok event, site) = elim (w.unlink_fault k) [
  | some code ↦ record {
    deletion = unlink_failed code;
    skipped_seqs = skipped;
    left = w.others k site;
  }
  | none ↦ record {
    deletion = expired;
    skipped_seqs = skipped;
    left = record { store = (w.others k site).store; files = without f (w.others k site).files };
  }
]

-- The file's bytes are known: digest check, record, unlink.
unfoldable pub delete_read : Rest → ℕ → Row → String → String → List ℕ → List ℕ → Site → Deleted
unfolding unlink skip
delete_read w k row f why bytes skipped site =
    if ltb max_inbound_body_bytes (length bytes)
    then skip w k row "unreadable" skipped site
    else if not (names_file row.body_sha256 (w.sha256 bytes))
    then skip w k row "digest_mismatch" skipped site
    else unlink w (k + 1) f skipped
        (append_at w k "inbound_body_expired" (expired_fields w row bytes why) site)

-- `deleteBody`, for a row that names the file `f`.
unfoldable pub delete_body : Rest → ℕ → Row → String → String → List ℕ → Site → Deleted
unfolding delete_read is_body_file
delete_body w k row f why skipped site =
    if not (is_body_file f)
    then record { deletion = passed_over; skipped_seqs = skipped; left = site }
    else elim ((w.others k site).files f) [
      | absent ↦ record { deletion = missing; skipped_seqs = skipped; left = w.others k site }
      | unreadable ↦ skip w (k + 1) row "unreadable" skipped (w.others k site)
      | content bytes ↦ delete_read w (k + 1) row f why bytes skipped (w.others k site)
    ]
