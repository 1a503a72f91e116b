-- ===== src/Sched/Runqueue.antt =====
-- The run queue holds, once each, the entities that are runnable or running, but the idle one:
-- setting an entity's state keeps that, whatever waiters it wakes.
use infos.Prelude.{
  ℕ, zero, suc, ◌≡◌, ◌≢◌, refl, Bool, true, false, not, Option, none, some, List, [], ◌∷◌, ◌==◌,
  if◌then◌else◌, tally, arith, assert, get_elem?, get_elem?-set, >>=-eq-some,
}
use infos.LinkedList
use infos.LinkedList.{LinkedList}
use infos.Sched.{
  EntityState, stopped, sleeping, runnable, running, Entity, Algorithm, Scheduler, is_same,
  is_queued, wake_all, put, trigger, requeue, change_state, set_entity_state,
}
use infos.Sched.Lawful.{IsLawful}

abbrev queued_once : Option Entity → ℕ
queued_once none = 0
queued_once (some en) = if is_queued en.state then 1 else 0

-- How often an entity stands in the run queue.
abbrev pub expected : ℕ → List Entity → ℕ → ℕ
expected idle entities i = if i == idle then 0 else queued_once (get_elem? entities i)

module _ {Q : Type 0} (algorithm : Algorithm Q) (law : IsLawful algorithm) where
  pub record IsConsistent (idle : ℕ) (s : Scheduler Q) : Type 0 where
    pub idle_fixed : s.idle_entity ≡ idle
    pub queue_ok : law.IsOk s.queue
    pub queued : (i : ℕ) → tally i (law.contents s.queue) ≡ expected idle s.entities i
    pub idle_never_waits :
        (i : ℕ) (en : Entity) → get_elem? s.entities i ≡ some en → tally idle en.waiters.elems ≡ 0

  -- What a queue becomes for an entity that goes from one state to another.
  abbrev Requeued : ℕ → EntityState → Q → Q → Type 0
  Requeued e state q q' =
      law.IsOk q'
      × ((i : ℕ)
          → tally i (law.contents q')
            ≡ (if e == i then (if is_queued state then 1 else 0) else tally i (law.contents q)))

  requeue_same :
      (e : ℕ) (state : EntityState) (q q' : Q)
      → some q ≡ some q'
      → law.IsOk q
      → tally e (law.contents q) ≡ (if is_queued state then 1 else 0)
      → Requeued e state q q'
  requeue_same e state q q' h ok c = let same : q' ≡ q = cc in rw same (ok, λ i. ground arith)

  requeue_add :
      (e : ℕ) (state : EntityState) (q q' : Q)
      → some (algorithm.add_to_runqueue e q) ≡ some q'
      → is_queued state ≡ true
      → law.IsOk q
      → tally e (law.contents q) ≡ 0
      → Requeued e state q q'
  requeue_add e state q q' h r ok c =
      let same : q' ≡ algorithm.add_to_runqueue e q = cc in
      rw same (law.add-IsOk e q ok, λ i. ground (arith, law.contents-add i e q))

  requeue_remove :
      (e : ℕ) (state : EntityState) (q q' : Q)
      → some (algorithm.remove_from_runqueue e q) ≡ some q'
      → is_queued state ≡ false
      → law.IsOk q
      → tally e (law.contents q) ≡ 1
      → Requeued e state q q'
  requeue_remove e state q q' h r ok c =
      let same : q' ≡ algorithm.remove_from_runqueue e q = cc in
      rw same (law.remove-IsOk e q ok, λ i. ground (arith, law.contents-remove i e q))

  requeue_lem :
      (state old : EntityState) (e : ℕ) (q q' : Q)
      → requeue algorithm state old e q ≡ some q'
      → law.IsOk q
      → tally e (law.contents q) ≡ (if is_queued old then 1 else 0)
      → Requeued e state q q'
  unfolding requeue
  requeue_lem runnable stopped e q q' h ok c = requeue_add e runnable q q' h refl ok c
  requeue_lem runnable sleeping e q q' h ok c = requeue_add e runnable q q' h refl ok c
  requeue_lem runnable runnable e q q' h ok c = requeue_same e runnable q q' h ok c
  requeue_lem runnable running e q q' h ok c = requeue_same e runnable q q' h ok c
  requeue_lem running runnable e q q' h ok c = requeue_same e running q q' h ok c
  requeue_lem running _ e q q' h ok c = cc
  requeue_lem stopped runnable e q q' h ok c = requeue_remove e stopped q q' h refl ok c
  requeue_lem stopped running e q q' h ok c = requeue_remove e stopped q q' h refl ok c
  requeue_lem stopped _ e q q' h ok c = requeue_same e stopped q q' h ok c
  requeue_lem sleeping runnable e q q' h ok c = requeue_remove e sleeping q q' h refl ok c
  requeue_lem sleeping running e q q' h ok c = requeue_remove e sleeping q q' h refl ok c
  requeue_lem sleeping _ e q q' h ok c = requeue_same e sleeping q q' h ok c

  -- A write to an entity that leaves its state alone, and adds no idle waiter.
  put-IsConsistent :
      (idle e : ℕ) (en en' : Entity) (s : Scheduler Q)
      → get_elem? s.entities e ≡ some en
      → en'.state ≡ en.state
      → tally idle en'.waiters.elems ≡ 0
      → IsConsistent idle s
      → IsConsistent idle (put e en' s)
  put-IsConsistent idle e en en' s g same w c = record {
    idle_fixed = c.idle_fixed;
    queue_ok = c.queue_ok;
    queued = λ i. ground (arith, c.queued i, get_elem?-set s.entities e i en' g);
    idle_never_waits =
        λ i en₁ g₁. ground (arith, c.idle_never_waits i en₁, get_elem?-set s.entities e i en' g);
  }

  -- The change of state itself.
  change-IsConsistent :
      (idle e : ℕ) (en : Entity) (state : EntityState) (q' : Q) (s : Scheduler Q)
      → e ≢ idle
      → get_elem? s.entities e ≡ some en
      → requeue algorithm state en.state e s.queue ≡ some q'
      → IsConsistent idle s
      → IsConsistent idle (put e (record en { state = state }) (record s { queue = q' }))
  change-IsConsistent idle e en state q' s ne g h c =
      let (ok, counts) =
        requeue_lem state en.state e s.queue q' h c.queue_ok (ground (arith, c.queued e)) in
      record {
        idle_fixed = c.idle_fixed;
        queue_ok = ok;
        queued = λ i. ground (
          arith,
          c.queued i,
          counts i,
          get_elem?-set s.entities e i (record en { state = state }) g,
        );
        idle_never_waits = λ i en₁ g₁. ground (
          arith,
          c.idle_never_waits i en₁,
          c.idle_never_waits e en g,
          get_elem?-set s.entities e i (record en { state = state }) g,
        );
      }

  -- `P` survives a wake-up of any entity but the idle one.
  abbrev Keeps : ℕ → (ℕ → Scheduler Q → Option (Scheduler Q)) → Type 0
  Keeps idle wake =
      (w : ℕ) (s s' : Scheduler Q)
      → w ≢ idle
      → IsConsistent idle s
      → wake w s ≡ some s'
      → IsConsistent idle s'

  wake_all-IsConsistent :
      (idle : ℕ) (wake : ℕ → Scheduler Q → Option (Scheduler Q)) (ws : List ℕ) (s s' : Scheduler Q)
      → Keeps idle wake
      → tally idle ws ≡ 0
      → IsConsistent idle s
      → wake_all wake ws s ≡ some s'
      → IsConsistent idle s'
  unfolding wake_all
  wake_all-IsConsistent idle wake [] s s' keeps n c h = let same : s ≡ s' = cc in rw same at c
  wake_all-IsConsistent idle wake (w ∷ ws) s s' keeps n c h =
      let (s₁, woken, rest) = >>=-eq-some (wake w s) (wake_all wake ws) h in
      wake_all-IsConsistent idle wake ws s₁ s' keeps (ground arith)
        (keeps w s s₁ (ground arith) c woken) rest

  trigger-IsConsistent :
      (idle e : ℕ) (wake : ℕ → Scheduler Q → Option (Scheduler Q)) (s s' : Scheduler Q)
      → Keeps idle wake
      → IsConsistent idle s
      → trigger wake e s ≡ some s'
      → IsConsistent idle s'
  unfolding trigger LinkedList.clear
  trigger-IsConsistent idle e wake s s' keeps c h =
      let (en, found, h₁) = >>=-eq-some (get_elem? s.entities e) _ h in
      let (_, free, h₂) = >>=-eq-some (assert (not en.lock_held)) _ h₁ in
      let locked = record en { lock_held = true } in
      let (s₁, woken, h₃) = >>=-eq-some (wake_all wake en.waiters.elems (put e locked s)) _ h₂ in
      let (en₁, found₁, h₄) = >>=-eq-some (get_elem? s₁.entities e) _ h₃ in
      let waits = c.idle_never_waits e en found in
      let c₁ =
        wake_all-IsConsistent idle wake en.waiters.elems (put e locked s) s₁ keeps waits
          (put-IsConsistent idle e en locked s found refl waits c) woken in
      let released = record en₁ { waiters = LinkedList.clear en₁.waiters; lock_held = false } in
      let same : put e released s₁ ≡ s' = cc in
      rw same at (put-IsConsistent idle e en₁ released s₁ found₁ refl refl c₁)

  change_state-IsConsistent :
      (idle e : ℕ) (wake : ℕ → Scheduler Q → Option (Scheduler Q)) (state : EntityState)
      (en : Entity) (s s' : Scheduler Q)
      → Keeps idle wake
      → e ≢ idle
      → get_elem? s.entities e ≡ some en
      → IsConsistent idle s
      → change_state algorithm wake state e en s ≡ some s'
      → IsConsistent idle s'
  unfolding change_state
  change_state-IsConsistent idle e wake state en s s' keeps ne found c h =
      let (q, queued, h₁) = >>=-eq-some (requeue algorithm state en.state e s.queue) _ h in
      trigger-IsConsistent idle e wake _ s' keeps
        (change-IsConsistent idle e en state q s ne found queued c) h₁

  choice-IsConsistent :
      (idle : ℕ) (b : Bool) (s s' : Scheduler Q) (o : Option (Scheduler Q))
      → IsConsistent idle s
      → (o ≡ some s' → IsConsistent idle s')
      → (if b then some s else o) ≡ some s'
      → IsConsistent idle s'
  choice-IsConsistent idle true s s' o c next h = let same : s ≡ s' = cc in rw same at c
  choice-IsConsistent idle false s s' o c next h = next h

  -- Setting the state of an entity, but the idle one, keeps the run queue in step with the states
  -- of all entities but that one, those included that it wakes.
  pub set_entity_state-IsConsistent :
      (fuel idle e : ℕ) (state : EntityState) (s s' : Scheduler Q)
      → e ≢ idle
      → IsConsistent idle s
      → set_entity_state algorithm fuel state e s ≡ some s'
      → IsConsistent idle s'
  unfolding set_entity_state
  set_entity_state-IsConsistent zero idle e state s s' ne c h = cc
  set_entity_state-IsConsistent (suc fuel) idle e state s s' ne c h =
      let (_, present, h₁) = >>=-eq-some (assert s.has_algorithm) _ h in
      let (en, found, h₂) = >>=-eq-some (get_elem? s.entities e) _ h₁ in
      choice-IsConsistent idle (is_same en.state state) s s' _ c
        (change_state-IsConsistent idle e (set_entity_state algorithm fuel runnable) state en s s'
          (λ w t t' nw ct ht. set_entity_state-IsConsistent fuel idle w runnable t t' nw ct ht) ne
          found c)
        h₂
