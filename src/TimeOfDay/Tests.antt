-- ===== src/TimeOfDay/Tests.antt =====
-- The last second of a day.
use infos.Prelude.{ℕ, ◌+◌, ◌*◌, ◌%◌, ◌≤◌, ◌≡◌, some, arith}
use infos.TimeOfDay.{Clock, initial_tod, update_runtime}
use infos.TimeOfDay.Laws.{IsTime, seconds_of, SameDate, update_runtime_lem}

abbrev last_second : Clock
last_second = record {
  runtime = 0;
  tod = record initial_tod { hours = 23; minutes = 59; seconds = 59 };
  ticks_since = 0;
}

update_runtime_lem_example :
    (n : ℕ) × (c' : Clock) × (update_runtime 4 2500000000 last_second ≡ some c')
    × IsTime c'.tod
    × (c'.ticks_since ≤ 1000000000)
    × (n * 1000000000 + c'.ticks_since ≡ 2500000000)
    × (seconds_of c'.tod ≡ (86399 + n) % 86400)
    × SameDate last_second.tod c'.tod
update_runtime_lem_example =
    update_runtime_lem 4 2500000000 last_second
      (record { hours = omega arith; minutes = omega arith; seconds = omega arith }) (omega arith)
      (omega arith)
