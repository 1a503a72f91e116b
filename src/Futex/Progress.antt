-- ===== src/Futex/Progress.antt =====
-- Threads inside the two calls can always come out of them.
use infos.Prelude.{ℕ, ◌≡◌, ◌⊎◌, true, false}
use infos.Futex.{Place, System, user, queue_wake}
use infos.Futex.Exclusion.{holds_futex, holds_queue}

-- Outside of all locks.
abbrev pub IsFree : Place → Type 0
IsFree p = (holds_futex p ≡ false) × ((a : ℕ) → holds_queue a p ≡ false)

-- A thread is out of its calls, or sleeps in the queue of an address until it is woken up.
abbrev pub IsOut : ℕ → System → Type 0
IsOut t s = (s.place t ≡ user) ⊎ ((s.place t ≡ queue_wake) × (s.asleep t ≡ true))
