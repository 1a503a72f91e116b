-- ===== src/Sched/Clock.antt =====
-- include/infos/util/time.h: the differences of durations and of points in time, in uint64_t.
use infos.Prelude.{ℕ, ◌+◌, ◌-◌, ◌%◌, ◌^◌, ◌≤◌, ◌<◌, ◌≡◌, arith}

-- `operator-(const Duration& l, const Duration& r)` returns `r._val - l._val`.
unfoldable pub duration_sub : ℕ → ℕ → ℕ
duration_sub l r = (r + 2 ^ 64 - l) % 2 ^ 64

-- `operator-(const TimepointImpl& lhs, const TimepointImpl& rhs)` returns `rhs._val - lhs._val`, a
-- difference of durations.
unfoldable pub timepoint_sub : ℕ → ℕ → ℕ
unfolding duration_sub
timepoint_sub lhs rhs = duration_sub rhs lhs

-- The two reversed subtractions cancel: from an earlier to a later point it is the time between.
pub timepoint_sub_forward :
    (now start : ℕ) → start ≤ now → now < 2 ^ 64 → timepoint_sub now start + start ≡ now
unfolding timepoint_sub
timepoint_sub_forward now start h w = omega arith

-- The difference of two durations by itself has the wrong sign: taking a smaller one from a larger
-- one wraps to 2 ^ 64 less their difference.
pub duration_sub_reversed : (l r : ℕ) → r < l → l < 2 ^ 64 → duration_sub l r + (l - r) ≡ 2 ^ 64
unfolding duration_sub
duration_sub_reversed l r h w = omega arith
