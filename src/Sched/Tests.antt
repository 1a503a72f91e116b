-- ===== src/Sched/Tests.antt =====
-- The scheduler at concrete inputs.
use infos.Prelude.{
  ℕ, ◌≤◌, ◌<◌, ◌≡◌, ◌⊎◌, refl, true, false, some, List, [], ◌∷◌, arith, tally, length,
}
use infos.LinkedList
use infos.LinkedList.{LinkedList}
use infos.Sched.{
  EntityState, sleeping, runnable, Entity, Scheduler, set_entity_state, schedule, cpu_runtime_of,
}
use infos.Sched.Cfs.{add_to_runqueue, pick_next_entity}
use infos.Sched.Cfs.Laws.{cfs, cfs-IsLawful, pick_next_entity_least}
use infos.Sched.Runqueue.{IsConsistent}
use infos.Sched.Waking.{IsReady, Ends, set_entity_state_total}
use infos.Sched.Switch.{IsRunning, Runs, schedule_lem}

abbrev queue_of : List ℕ → LinkedList ℕ
queue_of es = record { elems = es; count = length es }

abbrev entity : EntityState → ℕ → List ℕ → Entity
entity state runtime waiters = record {
  state = state;
  cpu_runtime = runtime;
  exec_start_time = 0;
  waiters = queue_of waiters;
  lock_held = false;
}

-- The idle entity, two that run, and one that sleeps while the idle one is current.
abbrev four : Scheduler (LinkedList ℕ)
four = record {
  active = true;
  has_algorithm = true;
  queue = queue_of (1 ∷ 2 ∷ []);
  entities =
      entity runnable 0 []
      ∷ entity runnable 50 []
      ∷ entity runnable 20 []
      ∷ entity sleeping 5 (1 ∷ [])
      ∷ [];
  current = some 0;
  idle_entity = 0;
  current_thread = some 0;
}

-- Entity 3 wakes up; its waiter 1 is awake already.
abbrev woken : Scheduler (LinkedList ℕ)
woken = record four {
  queue = queue_of (1 ∷ 2 ∷ 3 ∷ []);
  entities =
      entity runnable 0 []
      ∷ entity runnable 50 []
      ∷ entity runnable 20 []
      ∷ entity runnable 5 []
      ∷ [];
}

wakes_three : set_entity_state cfs 2 runnable 3 four ≡ some woken
unfolding set_entity_state cfs LinkedList.enqueue LinkedList.clear add_to_runqueue
wakes_three = refl

four-IsConsistent : IsConsistent cfs cfs-IsLawful 0 four
unfolding cfs-IsLawful
four-IsConsistent = record {
  idle_fixed = refl;
  queue_ok = record { counted = refl };
  queued = λ i. ground arith;
  idle_never_waits = λ i en g. ground arith;
}

-- Entity 2 runs and entity 3 sleeps until entity 2 changes its state.
abbrev waited : Scheduler (LinkedList ℕ)
waited = record four {
  entities =
      entity runnable 0 []
      ∷ entity runnable 50 []
      ∷ entity runnable 20 (3 ∷ [])
      ∷ entity sleeping 5 []
      ∷ [];
}

four-IsReady : IsReady four
four-IsReady = record {
  has_algorithm = refl;
  waiters_exist = λ i en g. ground arith;
  locks_free = λ i en g b. ground arith;
}

set_entity_state_total_example : Ends (set_entity_state cfs 2 runnable 3 four) four
set_entity_state_total_example =
    set_entity_state_total cfs 2 3 four four-IsReady (omega arith) (omega arith)

four-IsRunning : IsRunning four
four-IsRunning = record {
  active = refl;
  has_algorithm = refl;
  idle_entity = entity runnable 0 [];
  idle_there = refl;
  idle_runnable = refl;
  none_running = λ i en g. ground arith;
}

four-IsSmall : cfs-IsLawful.IsSmall four.queue
unfolding cfs-IsLawful
four-IsSmall = omega arith

schedule_lem_example :
    (s : Scheduler (LinkedList ℕ)) × (e : ℕ) × (schedule cfs 100 four ≡ some s)
    × Runs 100 e four s
    × (((cfs.pick_next_entity (cpu_runtime_of four) four.queue ≡ some e)
          × (0 < tally e (cfs-IsLawful.contents four.queue)))
        ⊎ ((e ≡ 0) × ((i : ℕ) → tally i (cfs-IsLawful.contents four.queue) ≡ 0)))
schedule_lem_example =
    schedule_lem cfs cfs-IsLawful 100 four four-IsRunning four-IsConsistent four-IsSmall

abbrev times : ℕ → ℕ
times = cpu_runtime_of woken

picks_three : pick_next_entity times woken.queue ≡ some 3
unfolding pick_next_entity cpu_runtime_of
picks_three = refl

pick_next_entity_least_example : (0 < tally 3 woken.queue.elems) × (times 3 ≤ times 1)
pick_next_entity_least_example =
    pick_next_entity_least times woken.queue 3 1 (record { counted = refl }) (omega arith)
      picks_three (omega arith)
