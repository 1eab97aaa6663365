-- ===== src/Tests/Queries.antt =====
-- The control client on the sample switch.
use vibe_switch.Base.{◌≡◌, refl, codes, [], ◌∷◌, List, if◌then◌else◌}
use vibe_switch.Base.Int.{pos}
use mathlib.Core.List.{Permᴰ}
use vibe_switch.Engine.Construct.{new_engine-IsWired}
use vibe_switch.Stats.{FdbEntry, stats_snapshot}
use vibe_switch.Control.{
  Connection, replies, query, done, unknown_target, sort_rows, by_name, rate_rows,
}
use vibe_switch.Control.Order.{InOrder, sort_rows-InOrder}
use vibe_switch.Control.Queries.{IsServed, is_query_name, query_names, query_lem}
use vibe_switch.Control.Rates.{own_rows, rate_rows-own_rows}
use vibe_switch.Samples.{config}
use vibe_switch.Tests.Switch.{built}
use vibe_switch.Tests.Tables.{whole_numbers}

abbrev rows : List (FdbEntry whole_numbers)
rows =
    record { vid = 20; mac = codes "02:b"; port = codes "eth1"; age_seconds = pos 1 }
    ∷ record { vid = 10; mac = codes "02:b"; port = codes "eth1"; age_seconds = pos 1 }
    ∷ record { vid = 10; mac = codes "02:a"; port = codes "eth0"; age_seconds = pos 1 }
    ∷ []

sort_rows-InOrder_example :
    InOrder whole_numbers (sort_rows whole_numbers rows) × Permᴰ (sort_rows whole_numbers rows) rows
sort_rows-InOrder_example = sort_rows-InOrder whole_numbers rows

abbrev pub connection : Connection whole_numbers
connection = record { call = λ n. replies whole_numbers built.0 n; elapsed = λ n. pos 1 }

abbrev pub connection-IsServed : IsServed whole_numbers connection
connection-IsServed = record {
  engine = λ n. built.0;
  now = λ n. n;
  wired = λ n. (new_engine-IsWired config (7 ∷ 8 ∷ 9 ∷ []) built.1).0;
  served = λ n. refl;
}

query_lem_example :
    (query whole_numbers connection 0 (codes "all")).ended
    ≡ (if is_query_name (codes "all") query_names then done else unknown_target)
query_lem_example = query_lem whole_numbers connection 0 (codes "all") connection-IsServed

rate_rows-own_rows_example :
    rate_rows whole_numbers (pos 1) (by_name (stats_snapshot built.0) []) (stats_snapshot built.0)
    ≡ own_rows whole_numbers (pos 1) (stats_snapshot built.0) (stats_snapshot built.0)
rate_rows-own_rows_example =
    rate_rows-own_rows whole_numbers (pos 1) config (7 ∷ 8 ∷ 9 ∷ []) built.0 built.0 built.1 refl
      refl
