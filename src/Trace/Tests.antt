-- ===== src/Trace/Tests.antt =====
-- Runs of the daily counts (src/core/trace.mjs) at concrete rows.
use universal_peer_mcp.Prelude.{
  ◌≡◌, refl, none, some, List, [], ◌∷◌, Text, codes, lower, count, length,
}
use universal_peer_mcp.Ledger.{Row, no_fields, stamp}
use universal_peer_mcp.Trace.Once.{is_acked, AckedBy, daily_bumps-acked}
use universal_peer_mcp.Trace.{
  day_of, lookup, stage_of, bumps_of, bumps_from, paired_resolve_rows, pair_rows, daily_bumps,
  daily_stats,
}

runs : Unit {0}
unfolding stamp lower day_of lookup stage_of pair_rows paired_resolve_rows bumps_of bumps_from
    daily_bumps daily_stats
runs = tt

abbrev id_a : Text
id_a = codes "0a1b2c3d-1111-4111-8111-00000000000a"

abbrev id_upper : Text
id_upper = codes "0A1B2C3D-1111-4111-8111-00000000000A"

-- Two acknowledgements of one message on two days, and a failed succession with its second row.
abbrev events : List Row
events =
    stamp 1 "peer_ack" 1000 (record no_fields { message_id = some id_a })
    ∷ stamp 2 "target_rebind_failed" 2000
        (record no_fields { alias = some "a"; reason = some "no_row" })
    ∷ stamp 3 "target_resolve_failed" 2500
        (record no_fields { alias = some "a"; reason = some "no_row" })
    ∷ stamp 4 "target_resolve_failed" 2600
        (record no_fields { alias = some "a"; reason = some "no_row" })
    ∷ stamp 5 "peer_ack" 90000000 (record no_fields { message_id = some id_upper })
    ∷ []

counted :
    (daily_stats events none 0 "acked" none ≡ 1)
    × (daily_stats events none 1 "acked" none ≡ 0)
    × (paired_resolve_rows events ≡ 3 ∷ [])
    × (daily_stats events none 0 "resolveFailed" (some "no_row") ≡ 1)
    × (daily_stats events (some 1) 0 "resolveFailed" (some "no_row") ≡ 0)
unfolding runs
counted = (refl, refl, refl, refl, refl)

daily_bumps-acked_example :
    (ids : List Text) × AckedBy events ids × (count is_acked (daily_bumps events) ≡ length ids)
daily_bumps-acked_example = daily_bumps-acked events
