-- ===== src/TimeOfDay/Laws.antt =====
-- The clock counts the seconds of the day.
use infos.Prelude.{
  ℕ, zero, suc, ◌+◌, ◌*◌, ◌-◌, ◌%◌, ◌^◌, ◌≤◌, ◌<◌, ◌≡◌, refl, ◌∙◌, Option, some, ltb, Bool-cases,
  inl, inr, arith,
}
use infos.TimeOfDay.{
  TimeOfDay, Clock, increment16, next_hour, next_minute, increment_tod, count_seconds,
  update_runtime,
}

-- A time within a day.
pub record IsTime (t : TimeOfDay) : Type 0 where
  pub hours : t.hours < 24
  pub minutes : t.minutes < 60
  pub seconds : t.seconds < 60

abbrev pub seconds_of : TimeOfDay → ℕ
seconds_of t = t.hours * 3600 + t.minutes * 60 + t.seconds

-- The date of a time.
abbrev pub SameDate : TimeOfDay → TimeOfDay → Type 0
SameDate t t' = (t'.day ≡ t.day) × (t'.month ≡ t.month) × (t'.year ≡ t.year)

abbrev Steps : TimeOfDay → TimeOfDay → ℕ → Type 0
Steps t t' n = IsTime t' × (seconds_of t' ≡ (seconds_of t + n) % 86400) × SameDate t t'

next_hour_lem :
    (t : TimeOfDay)
    → IsTime t
    → t.minutes ≡ 0
    → t.seconds ≡ 0
    → IsTime (next_hour t)
      × (seconds_of (next_hour t) ≡ (seconds_of t + 3600) % 86400)
      × SameDate t (next_hour t)
unfolding next_hour
next_hour_lem t is m s = elim (Bool-cases (ltb 23 (increment16 t.hours))) [
  | inl over ↦
      rw (over, next_hour)
        (
          record { hours = omega arith; minutes = is.minutes; seconds = is.seconds },
          ground (arith, is.hours, over),
          (refl, refl, refl),
        )
  | inr within ↦
      rw (within, next_hour)
        (
          record { hours = ground arith; minutes = is.minutes; seconds = is.seconds },
          ground (arith, is.hours, within),
          (refl, refl, refl),
        )
]

next_minute_lem :
    (t : TimeOfDay)
    → IsTime t
    → t.seconds ≡ 0
    → IsTime (next_minute t)
      × (seconds_of (next_minute t) ≡ (seconds_of t + 60) % 86400)
      × SameDate t (next_minute t)
unfolding next_minute
next_minute_lem t is s = elim (Bool-cases (ltb 59 (increment16 t.minutes))) [
  | inl over ↦
      let (is', counts, date) =
        next_hour_lem (record t { minutes = 0 })
          (record { hours = is.hours; minutes = omega arith; seconds = is.seconds }) refl s in
      rw (over, next_minute) (is', counts ∙ ground (arith, is.minutes, over), date)
  | inr within ↦
      rw (within, next_minute)
        (
          record { hours = is.hours; minutes = ground arith; seconds = is.seconds },
          ground (arith, is.hours, is.minutes, within),
          (refl, refl, refl),
        )
]

increment_tod_lem : (t : TimeOfDay) → IsTime t → Steps t (increment_tod t) 1
unfolding increment_tod
increment_tod_lem t is = elim (Bool-cases (ltb 59 (increment16 t.seconds))) [
  | inl over ↦
      let (is', counts, date) =
        next_minute_lem (record t { seconds = 0 })
          (record { hours = is.hours; minutes = is.minutes; seconds = omega arith }) refl in
      rw (over, increment_tod) (is', counts ∙ ground (arith, is.seconds, over), date)
  | inr within ↦
      rw (within, increment_tod)
        (
          record { hours = is.hours; minutes = is.minutes; seconds = ground arith },
          ground (arith, is.hours, is.minutes, is.seconds, within),
          (refl, refl, refl),
        )
]

-- What the clock counted: n whole seconds, and a rest of at most one.
abbrev Counted : Clock → ℕ → Option Clock → Type 0
Counted c ticks result =
    (n : ℕ) × (c' : Clock) × (result ≡ some c')
    × IsTime c'.tod
    × (c'.ticks_since ≤ 1000000000)
    × (n * 1000000000 + c'.ticks_since ≡ ticks)
    × (seconds_of c'.tod ≡ (seconds_of c.tod + n) % 86400)
    × SameDate c.tod c'.tod

count_seconds_lem :
    (fuel : ℕ) (c : Clock)
    → IsTime c.tod
    → c.ticks_since < fuel * 1000000000
    → Counted c c.ticks_since (count_seconds fuel c)
unfolding count_seconds
count_seconds_lem zero c is enough = absurd (omega arith)
count_seconds_lem (suc fuel) c is enough = elim (Bool-cases (ltb 1000000000 c.ticks_since)) [
  | inr done ↦
      rw (done, count_seconds)
        (
          0,
          c,
          refl,
          is,
          ground (arith, done),
          omega arith,
          omega (arith, is.hours, is.minutes, is.seconds),
          (refl, refl, refl),
        )
  | inl more ↦
      let (is', one, date) = increment_tod_lem c.tod is in
      let above : 1000000000 < c.ticks_since = ground (arith, more) in
      let (n, c', ends, is'', rest, whole, counts, date') =
        count_seconds_lem fuel
          (record c { tod = increment_tod c.tod; ticks_since = c.ticks_since - 1000000000 }) is'
          (omega arith) in
      rw (more, count_seconds)
        (
          suc n,
          c',
          ends,
          is'',
          rest,
          omega (arith, whole, above),
          omega (arith, counts, one),
          (date'.0 ∙ date.0, date'.1 ∙ date.1, date'.2 ∙ date.2),
        )
]

-- From a time within a day, an update by ticks that do not overflow 64 bits ends, with fuel for a round
-- for each second and one more. The ticks counted so far are n whole seconds and a rest of at most one,
-- which is kept; the time is a time within a day, n seconds later around midnight; and the date is the
-- same.
pub update_runtime_lem :
    (fuel ticks : ℕ) (c : Clock)
    → IsTime c.tod
    → c.ticks_since + ticks < 2 ^ 64
    → c.ticks_since + ticks < fuel * 1000000000
    → (n : ℕ) × (c' : Clock) × (update_runtime fuel ticks c ≡ some c')
      × IsTime c'.tod
      × (c'.ticks_since ≤ 1000000000)
      × (n * 1000000000 + c'.ticks_since ≡ c.ticks_since + ticks)
      × (seconds_of c'.tod ≡ (seconds_of c.tod + n) % 86400)
      × SameDate c.tod c'.tod
unfolding update_runtime
update_runtime_lem fuel ticks c is small enough =
    let fits : (c.ticks_since + ticks) % 2 ^ 64 ≡ c.ticks_since + ticks = omega arith in
    let (n, c', ends, is', rest, whole, counts, date) =
      count_seconds_lem fuel
        (record c {
          runtime = (c.runtime + ticks) % 2 ^ 64;
          ticks_since = (c.ticks_since + ticks) % 2 ^ 64;
        })
        is (omega arith) in
    (n, c', ends, is', rest, whole ∙ fits, counts, date)
