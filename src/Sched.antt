-- ===== src/Sched.antt =====
-- kernel/sched.cpp, include/infos/kernel/sched-entity.h and sched.h, util/wakequeue.cpp and the
-- activation in kernel/thread.cpp. Entities are the objects of a store, and a pointer to one is its
-- place there. The scheduling algorithm is an interface. `none` is a failed `assert`, a pointer that
-- points nowhere, a lock that its holder takes again, or fuel that ran out.
pub mod Clock
pub mod Lawful
pub mod Cfs
pub mod Runqueue
pub mod Waking
pub mod Setting
pub mod Switch
mod Tests
use infos.Prelude.{
  ℕ, zero, suc, ◌+◌, ◌-◌, ◌%◌, ◌^◌, Bool, true, false, not, ◌||◌, Option, none, some, List, [], ◌∷◌,
  ◌==◌, if◌then◌else◌, ◌>>=◌, ◌>>◌, assert, get_elem?, set,
}
use infos.LinkedList
use Clock.{timepoint_sub}
use infos.LinkedList.{LinkedList}

pub data EntityState : Type 0 where
  stopped sleeping runnable running : EntityState

-- `SchedulingEntity`, with the wake queue inside its `_state_changed` event.
pub record Entity : Type 0 where
  pub state : EntityState
  pub cpu_runtime : ℕ  -- Nanoseconds, uint64_t
  pub exec_start_time : ℕ  -- Timepoint, uint64_t
  pub waiters : LinkedList ℕ
  pub lock_held : Bool

-- `SchedulingAlgorithm`. The virtual calls read the run times of the entities in the store.
pub record Algorithm (Q : Type 0) : Type 0 where
  pub init : Q → Q
  pub add_to_runqueue : ℕ → Q → Q
  pub remove_from_runqueue : ℕ → Q → Q
  pub pick_next_entity : (ℕ → ℕ) → Q → Option ℕ

-- `Scheduler`, the store, and the thread that the architecture runs.
pub record Scheduler (Q : Type 0) : Type 0 where
  pub active : Bool
  pub has_algorithm : Bool
  pub queue : Q
  pub entities : List Entity
  pub current : Option ℕ
  pub idle_entity : ℕ
  pub current_thread : Option ℕ

abbrev pub is_same : EntityState → EntityState → Bool
is_same stopped stopped = true
is_same sleeping sleeping = true
is_same runnable runnable = true
is_same running running = true
is_same _ _ = false

abbrev pub is_queued : EntityState → Bool
is_queued runnable = true
is_queued running = true
is_queued _ = false

-- Visits the waiters one after the other.
unfoldable pub wake_all {ℓ} : {S : Type ℓ} → (ℕ → S → Option S) → List ℕ → S → Option S
wake_all wake_up [] s = some s
wake_all wake_up (w ∷ ws) s = do s' ← wake_up w s; wake_all wake_up ws s'

module _ {Q : Type 0} where
  abbrev pub put : ℕ → Entity → Scheduler Q → Scheduler Q
  put e en s = record s { entities = set s.entities e en }

  -- `Event::trigger` of an entity's `_state_changed`, which is `WakeQueue::wake`.
  unfoldable pub trigger :
      (ℕ → Scheduler Q → Option (Scheduler Q)) → ℕ → Scheduler Q → Option (Scheduler Q)
  unfolding wake_all
  trigger wake_up e s = do
    en ← get_elem? s.entities e
    assert (not en.lock_held)
    s' ← wake_all wake_up en.waiters.elems (put e (record en { lock_held = true }) s)
    en' ← get_elem? s'.entities e
    some (put e (record en' { waiters = LinkedList.clear en'.waiters; lock_held = false }) s')

module _ {Q : Type 0} (algorithm : Algorithm Q) where
  -- The run queue's part of a change of state from the second argument to the first.
  unfoldable pub requeue : EntityState → EntityState → ℕ → Q → Option Q
  requeue runnable old e q = some (if is_queued old then q else algorithm.add_to_runqueue e q)
  requeue running old e q = do assert (is_same old runnable); some q
  requeue _ old e q = some (if is_queued old then algorithm.remove_from_runqueue e q else q)

  -- What is done to an entity whose state differs from the new one.
  unfoldable pub change_state :
      (ℕ → Scheduler Q → Option (Scheduler Q))
      → EntityState
      → ℕ
      → Entity
      → Scheduler Q
      → Option (Scheduler Q)
  unfolding requeue trigger
  change_state wake state e en s = do
    q ← requeue state en.state e s.queue
    trigger wake e (put e (record en { state = state }) (record s { queue = q }))

  -- Waking a waiter sets its state, so each round of fuel is one entity further along a chain of
  -- waiters.
  unfoldable pub set_entity_state : ℕ → EntityState → ℕ → Scheduler Q → Option (Scheduler Q)
  unfolding change_state
  set_entity_state zero state e s = none
  set_entity_state (suc fuel) state e s = do
    assert s.has_algorithm
    en ← get_elem? s.entities e
    (if is_same en.state state
        then some s
        else change_state (set_entity_state fuel runnable) state e en s)

  -- `Thread::start`, `Thread::wake_up`; `Thread::sleep` goes on to yield if it is the current thread.
  unfoldable pub wake_up : ℕ → ℕ → Scheduler Q → Option (Scheduler Q)
  unfolding set_entity_state
  wake_up fuel e s = set_entity_state fuel runnable e s

  unfoldable pub sleep : ℕ → ℕ → Scheduler Q → Option (Scheduler Q)
  unfolding set_entity_state
  sleep fuel e s = set_entity_state fuel sleeping e s

abbrev pub is_current : Option ℕ → ℕ → Bool
is_current none e = false
is_current (some c) e = c == e

runtime_of : Option Entity → ℕ
runtime_of none = 0
runtime_of (some en) = en.cpu_runtime

abbrev pub or_idle : Option ℕ → ℕ → ℕ
or_idle none idle = idle
or_idle (some e) idle = e

module _ {Q : Type 0} where
  -- `Thread::activate`, the one implementation of `SchedulingEntity::activate`.
  unfoldable pub activate : ℕ → Option ℕ → Scheduler Q → Option (Bool × Scheduler Q)
  activate e prev s = do
    en ← get_elem? s.entities e
    assert (is_same en.state runnable)
    some (true, if is_current prev e then s else record s { current_thread = some e })

  -- `entity->cpu_runtime()`, as the algorithm reads it.
  unfoldable pub cpu_runtime_of : Scheduler Q → ℕ → ℕ
  unfolding runtime_of
  cpu_runtime_of s e = runtime_of (get_elem? s.entities e)

  unfoldable pub start_current : ℕ → Scheduler Q → Option (Scheduler Q)
  start_current now s = do
    c ← s.current
    en ← get_elem? s.entities c
    some (put c (record en { exec_start_time = now }) s)

  -- `increment_cpu_runtime` by the time since `_exec_start_time`.
  unfoldable pub update_accounting : ℕ → Scheduler Q → Option (Scheduler Q)
  unfolding timepoint_sub
  update_accounting now s = elim s.current [
    | none ↦ some s
    | some c ↦ do
      en ← get_elem? s.entities c
      let delta = timepoint_sub now en.exec_start_time
      some (
          put c
            (record en { cpu_runtime = (en.cpu_runtime + delta) % 2 ^ 64; exec_start_time = now })
            s)
  ]

  -- The switch to `next`, with the idle entity in its place where `next` does not activate.
  unfoldable pub switch_to : ℕ → Scheduler Q → Option (Scheduler Q)
  unfolding activate
  switch_to next s = do
    (done, s') ← activate next s.current s
    (if done then some (record s' { current = some next }) else (do
      (idled, s'') ← activate s'.idle_entity s'.current s'
      assert idled
      some (record s'' { current = some s''.idle_entity })))

module _ {Q : Type 0} (algorithm : Algorithm Q) where
  unfoldable pub schedule : ℕ → Scheduler Q → Option (Scheduler Q)
  unfolding cpu_runtime_of switch_to start_current
  schedule now s = if not s.active then some s else if not s.has_algorithm then some s else (do
    let next = or_idle (algorithm.pick_next_entity (cpu_runtime_of s) s.queue) s.idle_entity
    s' ← (if is_current s.current next then some s else switch_to next s)
    start_current now s')
