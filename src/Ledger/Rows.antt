-- ===== src/Ledger/Rows.antt =====
-- A row of the ledger: its number, type and time, and the fields that its writers give it
-- (src/core/events.mjs, posts.mjs, receipts.mjs, retention.mjs,
-- attempts.mjs, doorbell-service.mjs, peer-core.mjs, session-rebind.mjs). A field that a row
-- does not have is `none`. Texts that are compared whole are `String`s; identifiers are `Text`s.
use universal_peer_mcp.Prelude.{ℕ, List, [], Bool, Option, none, String, Text, str_eq}

-- A protocol header, as far as the core reads it.
pub record Header : Type 0 where
  pub verb : String
  pub v : Option String
  pub header_message_id : Option Text
  pub header_thread_id : Option Text
  pub header_reply_to : Option Text
  pub header_verdict : Option String
  -- fields under the names of what every object inherits
  pub inherited : List (String × Text)

pub record Fields : Type 0 where
  -- a `seq` among the data of an append
  pub own_seq : Option ℕ
  pub message_id : Option Text
  pub thread_id : Option Text
  pub transport_message_id : Option Text
  pub subscription_id : Option Text
  pub recipient : Option String
  pub recipient_session_id : Option Text
  pub recipient_thread_id : Option Text
  pub sender_alias : Option String
  pub sender_kind : Option String
  pub sender_session_id : Option Text
  pub sender_thread_id : Option Text
  pub reply_to : Option Text
  pub expect_reply : Bool
  pub source : Option String
  pub body_file : Option String
  pub body_sha256 : Option String
  pub body_bytes : Option ℕ
  pub body_capped : Bool
  pub body_truncated : Bool
  pub header : Option Header
  pub first_seq : Option ℕ
  pub quarantine_seq : Option ℕ
  pub linked_from_seq : Option ℕ
  pub source_seq : Option ℕ
  pub disposition : Option String
  pub attempt_id : Option Text
  pub path : Option String
  pub outcome : Option String
  pub receiver_alias : Option String
  pub receiver_thread_id : Option Text
  pub returned_id : Option Text
  pub error_code : Option String
  pub state : Option String
  pub status : Option String
  pub reason : Option String
  pub verdict : Option String
  pub evidence : Option String
  pub previous : Option Text
  pub alias : Option String
  pub session_id : Option Text
  pub previous_session_id : Option Text
  pub observed_session_id : Option Text
  pub expected_session_id : Option Text
  pub receipt_for : Option Text
  pub recipient_kind : Option String
  pub relink_seq : Option ℕ
  pub target_alias : Option String
  pub target_session_id : Option Text
  pub target_pid : Option ℕ
  pub target_proc_start : Option String
  pub rebind_failed_seq : Option ℕ
  pub reader_pid : Option ℕ
  pub reader_proc_start : Option String
  pub request_hash : Option String
  pub kind : Option Text
  pub bytes_written : Option ℕ
  pub target_cwd : Option String
  pub target_socket_path : Option String
  pub target_proc_start_rendering : Option String
  pub target_permission_mode : Option String
  pub target_permission_verified_by : Option String
  pub peer_pid : Option ℕ
  pub peer_proc_start : Option String
  pub source_address : Option Text
  pub sender_auth : Option String
  pub connection_id : Option ℕ
  pub frame_ordinal : Option ℕ
  pub candidate_count : Option ℕ
  pub rebind : Option String
  pub cwd_check : Option String
  pub proof : Option String
  pub table_changed : Bool
  pub history_recorded : Bool
  pub previous_session_ids : List Text
  pub response_message_id : Option Text
  pub body_storage_omitted : Option String

abbrev pub no_fields : Fields
no_fields = record {
  own_seq = none;
  message_id = none;
  thread_id = none;
  transport_message_id = none;
  subscription_id = none;
  recipient = none;
  recipient_session_id = none;
  recipient_thread_id = none;
  sender_alias = none;
  sender_kind = none;
  sender_session_id = none;
  sender_thread_id = none;
  reply_to = none;
  expect_reply = Bool.false;
  source = none;
  body_file = none;
  body_sha256 = none;
  body_bytes = none;
  body_capped = Bool.false;
  body_truncated = Bool.false;
  header = none;
  first_seq = none;
  quarantine_seq = none;
  linked_from_seq = none;
  source_seq = none;
  disposition = none;
  attempt_id = none;
  path = none;
  outcome = none;
  receiver_alias = none;
  receiver_thread_id = none;
  returned_id = none;
  error_code = none;
  state = none;
  status = none;
  reason = none;
  verdict = none;
  evidence = none;
  previous = none;
  alias = none;
  session_id = none;
  previous_session_id = none;
  observed_session_id = none;
  expected_session_id = none;
  receipt_for = none;
  recipient_kind = none;
  relink_seq = none;
  target_alias = none;
  target_session_id = none;
  target_pid = none;
  target_proc_start = none;
  rebind_failed_seq = none;
  reader_pid = none;
  reader_proc_start = none;
  request_hash = none;
  kind = none;
  bytes_written = none;
  target_cwd = none;
  target_socket_path = none;
  target_proc_start_rendering = none;
  target_permission_mode = none;
  target_permission_verified_by = none;
  peer_pid = none;
  peer_proc_start = none;
  source_address = none;
  sender_auth = none;
  connection_id = none;
  frame_ordinal = none;
  candidate_count = none;
  rebind = none;
  cwd_check = none;
  proof = none;
  table_changed = Bool.false;
  history_recorded = Bool.false;
  previous_session_ids = [];
  response_message_id = none;
  body_storage_omitted = none;
}

pub record Row : Type 0 where
  pub seq : ℕ
  pub type : String
  pub at : ℕ
  pub fields : Fields
  pub open fields use *

-- `row.type === type`
abbrev pub is_type : String → Row → Bool
is_type type row = str_eq row.type type
