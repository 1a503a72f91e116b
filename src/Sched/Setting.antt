-- ===== src/Sched/Setting.antt =====
-- `set_entity_state` ends for every change of state, and keeps the run queue in step with the states.
use infos.Prelude.{ℕ, ◌≡◌, Bool, true, false, some, List, [], ◌∷◌, tally, get_elem?, length}
use infos.LinkedList
use infos.Sched.{EntityState, runnable, running, Entity, Algorithm, Scheduler, is_same}

module _ {Q : Type 0} where
  -- An entity that nobody waits for, with its wake queue free.
  pub record IsQuiet (i : ℕ) (s : Scheduler Q) : Type 0 where
    pub entity : Entity
    pub there : get_elem? s.entities i ≡ some entity
    pub no_waiters : entity.waiters.elems ≡ []
    pub free : entity.lock_held ≡ false

  abbrev pub AllQuiet : List ℕ → Scheduler Q → Type 0
  AllQuiet [] s = Unit
  AllQuiet (w ∷ ws) s = IsQuiet w s × AllQuiet ws s

  -- From s to s' quiet entities stay quiet, all but at most one, and none goes away.
  record Calms (P : ℕ → Type 0) (s s' : Scheduler Q) : Type 0 where
    algorithm_stays : s'.has_algorithm ≡ s.has_algorithm
    quiet : (i : ℕ) → P i → IsQuiet i s → IsQuiet i s'
    long : length s'.entities ≡ length s.entities

-- What `requeue` asserts: only a runnable entity starts to run.
abbrev pub admits : EntityState → EntityState → Bool
admits running old = is_same old runnable
admits state old = true

module _ {Q : Type 0} (algorithm : Algorithm Q) where
  -- Where every waiter of an entity is quiet, whatever the entity's new state is.
  pub record IsSimple (state : EntityState) (e : ℕ) (en : Entity) (s : Scheduler Q) : Type 0 where
    pub allowed : admits state en.state ≡ true
    pub free : en.lock_held ≡ false
    pub not_itself : tally e en.waiters.elems ≡ 0
    pub quiet : AllQuiet en.waiters.elems s
