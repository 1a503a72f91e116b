-- ===== src/Sched/Switch.antt =====
-- `schedule` always ends with a runnable entity as the current one: the algorithm's choice, or the
-- idle entity if there is none.
use infos.Prelude.{
  ℕ, ◌<◌, ◌≡◌, ◌∙◌, ◌⊎◌, refl, true, false, Option, none, some, if◌then◌else◌, ◌>>=◌, arith, tally,
  get_elem?, set, Bool-cases, Option-cases, inl, inr,
}
use infos.Sched.{
  runnable, running, Entity, Algorithm, Scheduler, is_same, put, activate, is_current,
  cpu_runtime_of, start_current, or_idle, switch_to, schedule,
}
use infos.Sched.Lawful.{IsLawful}
use infos.Sched.Runqueue.{IsConsistent}

module _ {Q : Type 0} where
  -- A scheduler that runs: an algorithm, a runnable idle entity, and no entity in the state that
  -- no caller in the kernel ever sets.
  pub record IsRunning (s : Scheduler Q) : Type 0 where
    pub active : s.active ≡ true
    pub has_algorithm : s.has_algorithm ≡ true
    pub idle_entity : Entity
    pub idle_there : get_elem? s.entities s.idle_entity ≡ some idle_entity
    pub idle_runnable : idle_entity.state ≡ runnable
    pub none_running :
        (i : ℕ) (en : Entity) → get_elem? s.entities i ≡ some en → is_same en.state running ≡ false

  -- The outcome of a switch: `e` is current, its start time is `now`, and nothing else changed that
  -- the run queue depends on.
  abbrev pub Runs : ℕ → ℕ → Scheduler Q → Scheduler Q → Type 0
  Runs now e s s' =
      (s'.current ≡ some e)
      × (s'.queue ≡ s.queue)
      × (s'.idle_entity ≡ s.idle_entity)
      × ((en : Entity) × (get_elem? s.entities e ≡ some en)
          × (en.state ≡ runnable)
          × (s'.entities ≡ set s.entities e (record en { exec_start_time = now })))

  start_runs :
      (now e : ℕ) (en : Entity) (s : Scheduler Q)
      → s.current ≡ some e
      → get_elem? s.entities e ≡ some en
      → start_current now s ≡ some (put e (record en { exec_start_time = now }) s)
  unfolding start_current
  start_runs now e en s c found = ground arith

  switch_runs :
      (e : ℕ) (en : Entity) (s : Scheduler Q)
      → get_elem? s.entities e ≡ some en
      → en.state ≡ runnable
      → switch_to e s
        ≡ some (record s {
          current = some e;
          current_thread = if is_current s.current e then s.current_thread else some e;
        })
  unfolding switch_to activate
  switch_runs e en s found r = ground arith

module _ {Q : Type 0} (algorithm : Algorithm Q) where
  schedule_unfolds :
      (now : ℕ) (o : Option ℕ) (s : Scheduler Q)
      → s.active ≡ true
      → s.has_algorithm ≡ true
      → algorithm.pick_next_entity (cpu_runtime_of s) s.queue ≡ o
      → schedule algorithm now s ≡ (
          (if is_current s.current (or_idle o s.idle_entity)
            then some s
            else switch_to (or_idle o s.idle_entity) s)
          >>= start_current now)
  unfolding schedule
  schedule_unfolds now o s a h p = rw (a, h, p)

  -- From a runnable entity that is chosen to the end of `schedule`.
  switched :
      (now e : ℕ) (en : Entity) (s : Scheduler Q)
      → get_elem? s.entities e ≡ some en
      → en.state ≡ runnable
      → (s' : Scheduler Q) × (((if is_current s.current e then some s else switch_to e s)
            >>= start_current now)
          ≡ some s')
        × Runs now e s s'
  switched now e en s found r = elim (Bool-cases (is_current s.current e)) [
    | inl same ↦
        let c : s.current ≡ some e = ground arith in
        let s' = put e (record en { exec_start_time = now }) s in
        (s', rw same (start_runs now e en s c found), (c, refl, refl, (en, found, r, refl)))
    | inr other ↦
        let s₁ = record s { current = some e; current_thread = some e } in
        let sw : switch_to e s ≡ some s₁ = switch_runs e en s found r ∙ rw other refl in
        let s' = put e (record en { exec_start_time = now }) s₁ in
        (
          s',
          rw other (rw sw (start_runs now e en s₁ refl found)),
          (refl, refl, refl, (en, found, r, refl)),
        )
  ]

module _ {Q : Type 0} (algorithm : Algorithm Q) (law : IsLawful algorithm) where
  -- An entity of the run queue is there and runnable.
  picked_runnable :
      (e : ℕ) (s : Scheduler Q)
      → IsRunning s
      → IsConsistent algorithm law s.idle_entity s
      → 0 < tally e (law.contents s.queue)
      → (en : Entity) × (get_elem? s.entities e ≡ some en) × (en.state ≡ runnable)
  picked_runnable e s run c there = elim (Option-cases (get_elem? s.entities e)) [
    | inl none_there ↦ absurd (ground (arith, c.queued e))
    | inr (en, found) ↦ (en, found, ground (arith, c.queued e, run.none_running e en found))
  ]

  -- On an active scheduler with an algorithm, whose idle entity is runnable, where no entity is in the
  -- state of running, the run queue is in step with the states and is small enough for its count,
  -- `schedule` ends without a fault. The algorithm's choice runs; where it has none, and then the run
  -- queue is empty, the idle entity runs.
  pub schedule_lem :
      (now : ℕ) (s : Scheduler Q)
      → IsRunning s
      → IsConsistent algorithm law s.idle_entity s
      → law.IsSmall s.queue
      → (s' : Scheduler Q) × (e : ℕ) × (schedule algorithm now s ≡ some s')
        × Runs now e s s'
        × (((algorithm.pick_next_entity (cpu_runtime_of s) s.queue ≡ some e)
              × (0 < tally e (law.contents s.queue)))
            ⊎ ((e ≡ s.idle_entity) × ((i : ℕ) → tally i (law.contents s.queue) ≡ 0)))
  schedule_lem now s run c small =
      elim (Option-cases (algorithm.pick_next_entity (cpu_runtime_of s) s.queue)) [
        | inl p ↦
            let (s', ends, runs) =
              switched algorithm now s.idle_entity run.idle_entity s run.idle_there
                run.idle_runnable in
            (
              s',
              s.idle_entity,
              schedule_unfolds algorithm now none s run.active run.has_algorithm p ∙ ends,
              runs,
              inr (refl, λ i. law.pick_none _ s.queue i c.queue_ok small p),
            )
        | inr (e, p) ↦
            let member = law.pick_member _ s.queue e c.queue_ok small p in
            let (en, found, r) = picked_runnable e s run c member in
            let (s', ends, runs) = switched algorithm now e en s found r in
            (
              s',
              e,
              schedule_unfolds algorithm now (some e) s run.active run.has_algorithm p ∙ ends,
              runs,
              inl (p, member),
            )
      ]
