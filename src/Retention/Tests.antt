-- ===== src/Retention/Tests.antt =====
-- Runs of the retention pass (src/core/retention.mjs) at a concrete ledger.
use universal_peer_mcp.Prelude.{
  ℕ, ◌≡◌, refl, true, map, none, some, List, [], ◌∷◌, String, Text, codes, lower, length,
}
use universal_peer_mcp.Ledger.{Row, Fields, no_fields, Store, synced, fresh, stamp, append}
use universal_peer_mcp.Retention.{
  absent, content, Site, Rest, is_source, is_concluded, concluded_state, concluded_ids, source_seqs,
  expired_body_files, is_body_file, skip, unlink, delete_read, delete_body,
}
use universal_peer_mcp.Retention.Pass.{
  Settings, Pass, expire_rows, expire_row, keep_unprocessed, expire_inbound_bodies,
  dispose_inbound_body, after_disposition,
}
use universal_peer_mcp.Retention.Safety.{Leaves, Grown-refl, Keeps-refl}
use universal_peer_mcp.Retention.Disposal.{OnlyDiscarded, dispose_inbound_body-OnlyDiscarded}
use universal_peer_mcp.Retention.Concluded.{OnlyDue, expire_inbound_bodies-OnlyDue}

runs : Unit {0}
unfolding expire_inbound_bodies expire_rows expire_row keep_unprocessed delete_body delete_read
    unlink skip is_body_file is_source is_concluded concluded_state concluded_ids source_seqs lower
    expired_body_files append stamp dispose_inbound_body after_disposition
runs = tt

abbrev id_a : Text
id_a = codes "0a1b2c3d-1111-4111-8111-00000000000a"

abbrev id_b : Text
id_b = codes "0a1b2c3d-1111-4111-8111-00000000000b"

-- The digest of a test: the text `digest` for every body.
abbrev digest : List ℕ → String
digest bytes = "digest"

abbrev spooled : Text → String → Fields
spooled id file = record no_fields {
  message_id = some id;
  body_file = some file;
  body_sha256 = some "digest";
}

abbrev ledger : Store
ledger = record fresh {
  events =
      stamp 1 "peer_post" 1000 (spooled id_a "inbound/a.txt")
      ∷ stamp 2 "peer_post" 1000 (spooled id_b "inbound/b.txt")
      ∷ stamp 3 "peer_ack" 2000 (record no_fields { message_id = some id_a })
      ∷ [];
}

abbrev site : Site
site = record { store = ledger; files = λ f. content (1 ∷ 2 ∷ []) }

abbrev alone : Rest
alone = record {
  line_bytes = λ row. 300;
  sha256 = digest;
  moment = λ k. record { now = 90000000; disk = synced };
  others = λ k s. s;
  unlink_fault = λ k. none;
}

abbrev one_day : Settings
one_day = record { has_alerts = true; now = 90000000; days = 1; limit = 500 }

abbrev pass : Pass
pass = expire_inbound_bodies alone one_day site

-- The concluded body goes after its row; the other is kept and recorded.
pass_files :
    (pass.site.files "inbound/a.txt" ≡ absent)
    × (pass.site.files "inbound/b.txt" ≡ content (1 ∷ 2 ∷ []))
unfolding runs
pass_files = (refl, refl)

pass_rows :
    map (λ (r : Row). r.type) pass.site.store.events
    ≡ "peer_post" ∷ "peer_post" ∷ "peer_ack" ∷ "inbound_body_expired"
      ∷ "inbound_body_retention_exceeded" ∷ []
unfolding runs
pass_rows = refl

-- A second pass writes nothing more.
pass_again : length (expire_inbound_bodies alone one_day pass.site).site.store.events ≡ 5
unfolding runs
pass_again = refl

alone-Leaves : Leaves alone
alone-Leaves k s = (Grown-refl s, Keeps-refl s)

expire_inbound_bodies-OnlyDue_example : OnlyDue alone one_day site pass.site
expire_inbound_bodies-OnlyDue_example =
    expire_inbound_bodies-OnlyDue alone one_day site alone-Leaves

dispose_inbound_body-OnlyDiscarded_example :
    OnlyDiscarded alone 2 "discard" site (dispose_inbound_body alone 2 "discard" site)
dispose_inbound_body-OnlyDiscarded_example =
    dispose_inbound_body-OnlyDiscarded alone 2 "discard" site alone-Leaves

-- The unread body goes, after two rows.
discarded_file : (dispose_inbound_body alone 2 "discard" site).1.files "inbound/b.txt" ≡ absent
unfolding runs
discarded_file = refl
