-- ===== src/Futex/Tests.antt =====
-- The futex calls at concrete states.
use infos.Prelude.{ℕ, ◌≡◌, refl, true, false, some, none, [], ◌∷◌, take, drop, arith}
use infos.Locks.{new_mutex, try_lock}
use infos.Futex.{
  System, Step, Fault, Happen, advance, lock_futex, goes, update, fresh, rounds, user, wait_lock,
  queue_wake, wake_lock,
}
use infos.Futex.Faults.{Keeps, Happen-Keeps, IsAbandoned, Happen-IsAbandoned}
use infos.Futex.Wakes.{Leads, woken, futex_wake_up_lem}
use infos.Futex.Lost.{Lost, Lost-wake_up}

abbrev zeros : ℕ → ℕ
zeros a = 0

-- Thread 1 has called `sys_futex_wait`.
abbrev one_waits : System
one_waits = goes 1 (wait_lock 64 0) (fresh zeros)

-- It is about to look at its word, with the mutex.
abbrev one_looks : System
one_looks = advance 1 (wait_lock 64 0) one_waits

-- Threads 1, 2 and 3 sleep in the queue at 64, and thread 0 calls.
abbrev asleep_three : System
asleep_three = record {
  futex_mutex = new_mutex;
  queues = update (λ a. none) 64 (some (record { waiters = 1 ∷ 2 ∷ 3 ∷ []; lock = new_mutex }));
  words = zeros;
  place =
      update (update (update (update (λ t. user) 1 queue_wake) 2 queue_wake) 3 queue_wake) 0
        (wake_lock 64 2);
  asleep = update (update (update (λ t. false) 1 true) 2 true) 3 true;
}

rounds_two : rounds 2 ≡ 2
unfolding rounds
rounds_two = refl

-- All 64 bits: -1 as an `int`.
rounds_all : rounds 18446744073709551615 ≡ 0
unfolding rounds
rounds_all = refl

futex_wake_up_lem_example :
    Leads asleep_three 0 64 user
      (woken (take (rounds 2) (1 ∷ 2 ∷ 3 ∷ [])) asleep_three.asleep)
      (drop (rounds 2) (1 ∷ 2 ∷ 3 ∷ []))
      false
      false
      true
futex_wake_up_lem_example =
    futex_wake_up_lem 0 64 2 asleep_three
      (record { place = refl; awake = refl; futex = refl; queue = refl }) refl

Lost-wake_up_example : Lost zeros 0 1 64 7 1
Lost-wake_up_example = Lost-wake_up zeros 0 1 64 7 1 (omega arith) (omega arith)

one_looks-Happen : Happen (fresh zeros) false one_looks
unfolding advance lock_futex try_lock
one_looks-Happen =
    Happen.step (Happen.step Happen.here (Step.futex_wait 1 64 0 refl refl)) (Step.go 1 refl)

-- It faults there.
Happen-Keeps_example : Keeps true (goes 1 user one_looks)
Happen-Keeps_example = Happen-Keeps zeros (Happen.fault one_looks-Happen (Fault.throws 1))

-- Thread 2 calls `sys_futex_wake_up` after that.
Happen-IsAbandoned_example : IsAbandoned (goes 2 (wake_lock 64 1) (goes 1 user one_looks))
unfolding advance lock_futex try_lock
Happen-IsAbandoned_example =
    Happen-IsAbandoned zeros 1 one_looks-Happen refl
      (Happen.step Happen.here (Step.futex_wake_up 2 64 1 refl refl))
