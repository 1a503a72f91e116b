-- ===== src/TimeOfDay.antt =====
-- The time of day that kernel/kernel.cpp keeps: `update_runtime` and `increment_tod`.
pub mod Laws
mod Tests
use infos.Prelude.{
  ℕ, zero, suc, ◌+◌, ◌-◌, ◌%◌, ◌^◌, Bool, true, false, Option, none, some, ltb, if◌then◌else◌,
}

-- `TimeOfDay`, in unsigned shorts.
pub record TimeOfDay : Type 0 where
  pub hours : ℕ
  pub minutes : ℕ
  pub seconds : ℕ
  pub day : ℕ
  pub month : ℕ
  pub year : ℕ

-- What the kernel counts, in nanoseconds of 64 bits.
pub record Clock : Type 0 where
  pub runtime : ℕ
  pub tod : TimeOfDay
  pub ticks_since : ℕ

abbrev pub increment16 : ℕ → ℕ
increment16 n = (n + 1) % 2 ^ 16

-- `increment_tod`, from the inside out.
unfoldable pub next_hour : TimeOfDay → TimeOfDay
next_hour t =
    if ltb 23 (increment16 t.hours)
    then record t { hours = 0 }
    else record t { hours = increment16 t.hours }

unfoldable pub next_minute : TimeOfDay → TimeOfDay
unfolding next_hour
next_minute t =
    if ltb 59 (increment16 t.minutes)
    then next_hour (record t { minutes = 0 })
    else record t { minutes = increment16 t.minutes }

unfoldable pub increment_tod : TimeOfDay → TimeOfDay
unfolding next_minute
increment_tod t =
    if ltb 59 (increment16 t.seconds)
    then next_minute (record t { seconds = 0 })
    else record t { seconds = increment16 t.seconds }

-- The loop of `update_runtime`; the fuel counts its rounds.
unfoldable pub count_seconds : ℕ → Clock → Option Clock
unfolding increment_tod
count_seconds zero c = none
count_seconds (suc fuel) c = elim (ltb 1000000000 c.ticks_since) [
  | false ↦ some c
  | true ↦
      count_seconds fuel
        (record c { tod = increment_tod c.tod; ticks_since = c.ticks_since - 1000000000 })
]

unfoldable pub update_runtime : ℕ → ℕ → Clock → Option Clock
unfolding count_seconds
update_runtime fuel ticks c = count_seconds fuel (record c {
  runtime = (c.runtime + ticks) % 2 ^ 64;
  ticks_since = (c.ticks_since + ticks) % 2 ^ 64;
})

-- `initialise_tod` before the clock of the machine is read.
abbrev pub initial_tod : TimeOfDay
initial_tod = record { hours = 0; minutes = 0; seconds = 0; day = 1; month = 1; year = 1970 }
