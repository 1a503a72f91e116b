-- ===== src/Sched/Waking.antt =====
-- Waking an entity ends: along any chain of waiters each entity changes its state once.
use infos.Prelude.{
  ℕ, zero, suc, ◌+◌, ◌≤◌, ◌<◌, ◌≡◌, refl, Bool, true, false, not, Option, some, List, [], ◌∷◌,
  if◌then◌else◌, ◌∙◌, arith, get_elem?, set, get_elem?-set, length, length-set, get_elem?_of_lt,
  lt_of_get_elem?, Bool-cases, inl, inr,
}
use infos.LinkedList
use infos.LinkedList.{LinkedList}
use infos.Sched.{
  EntityState, runnable, Entity, Algorithm, Scheduler, is_same, is_queued, wake_all, put, trigger,
  requeue, change_state, set_entity_state,
}

abbrev pub is_blocked : Entity → Bool
is_blocked en = not (is_same en.state runnable)

-- The entities that are not runnable.
abbrev pub blocked : List Entity → ℕ
blocked [] = 0
blocked (en ∷ ens) = (if is_blocked en then 1 else 0) + blocked ens

abbrev pub AllBelow : ℕ → List ℕ → Type 0
AllBelow n [] = Unit
AllBelow n (w ∷ ws) = (w < n) × AllBelow n ws

blocked-set :
    (ens : List Entity) (e : ℕ) (en' : Entity) {en : Entity}
    → get_elem? ens e ≡ some en
    → blocked (set ens e en') + (if is_blocked en then 1 else 0)
      ≡ blocked ens + (if is_blocked en' then 1 else 0)
blocked-set [] e en' h = cc
blocked-set (x ∷ ens) zero en' h = ground arith
blocked-set (x ∷ ens) (suc e) en' h = omega (arith, blocked-set ens e en' h)

abbrev pub lock : Entity → Entity
lock en = record en { lock_held = true }

abbrev pub release : Entity → Entity
release en = record en { waiters = LinkedList.clear en.waiters; lock_held = false }

module _ {Q : Type 0} where
  -- Waiters are entities of the store, and only a runnable entity's wake queue is locked.
  pub record IsReady (s : Scheduler Q) : Type 0 where
    pub has_algorithm : s.has_algorithm ≡ true
    pub waiters_exist :
        (i : ℕ) (en : Entity)
        → get_elem? s.entities i ≡ some en
        → AllBelow (length s.entities) en.waiters.elems
    pub locks_free :
        (i : ℕ) (en : Entity)
        → get_elem? s.entities i ≡ some en
        → is_blocked en ≡ true
        → en.lock_held ≡ false

  put-IsReady :
      (e : ℕ) (en en' : Entity) (s : Scheduler Q)
      → IsReady s
      → get_elem? s.entities e ≡ some en
      → (is_blocked en' ≡ true → en'.lock_held ≡ false)
      → AllBelow (length s.entities) en'.waiters.elems
      → IsReady (put e en' s)
  put-IsReady e en en' s r found free below = record {
    has_algorithm = r.has_algorithm;
    waiters_exist = λ i en₁ g.
        rw length-set
          (ground (arith, r.waiters_exist i en₁, get_elem?-set s.entities e i en' found));
    locks_free =
        λ i en₁ g b. ground (arith, r.locks_free i en₁, get_elem?-set s.entities e i en' found);
  }

  -- An operation that ends, and leaves no more blocked entities.
  abbrev pub Ends : Option (Scheduler Q) → Scheduler Q → Type 0
  Ends o s =
      (s' : Scheduler Q) × (o ≡ some s')
      × IsReady s'
      × (blocked s'.entities ≤ blocked s.entities)
      × (length s'.entities ≡ length s.entities)

  -- Wake-ups that end while few enough entities are blocked.
  abbrev Wakes : ℕ → (ℕ → Scheduler Q → Option (Scheduler Q)) → Type 0
  Wakes fuel wake =
      (w : ℕ) (s : Scheduler Q)
      → IsReady s
      → w < length s.entities
      → blocked s.entities < fuel
      → Ends (wake w s) s

  wake_all_total :
      (fuel : ℕ) (wake : ℕ → Scheduler Q → Option (Scheduler Q)) (ws : List ℕ) (s : Scheduler Q)
      → Wakes fuel wake
      → IsReady s
      → AllBelow (length s.entities) ws
      → blocked s.entities < fuel
      → Ends (wake_all wake ws s) s
  unfolding wake_all
  wake_all_total fuel wake [] s wakes r below few = (s, refl, r, omega arith, refl)
  wake_all_total fuel wake (w ∷ ws) s wakes r below few =
      let (s₁, woken, r₁, less, same) = wakes w s r below.0 few in
      let below₁ : AllBelow (length s₁.entities) ws = rw same below.1 in
      let (s₂, rest, r₂, less₂, same₂) =
        wake_all_total fuel wake ws s₁ wakes r₁ below₁ (omega arith) in
      (s₂, rw woken rest, r₂, omega arith, omega arith)

  pub trigger_runs :
      (wake : ℕ → Scheduler Q → Option (Scheduler Q)) (e : ℕ) (en en₂ : Entity) (s s₂ : Scheduler Q)
      → get_elem? s.entities e ≡ some en
      → en.lock_held ≡ false
      → wake_all wake en.waiters.elems (put e (lock en) s) ≡ some s₂
      → get_elem? s₂.entities e ≡ some en₂
      → trigger wake e s ≡ some (put e (release en₂) s₂)
  unfolding trigger
  trigger_runs wake e en en₂ s s₂ found free woken found₂ = rw (found, free, woken, found₂)

  trigger_total :
      (fuel : ℕ) (wake : ℕ → Scheduler Q → Option (Scheduler Q)) (e : ℕ) (en : Entity)
      (s : Scheduler Q)
      → Wakes fuel wake
      → IsReady s
      → get_elem? s.entities e ≡ some en
      → is_blocked en ≡ false
      → en.lock_held ≡ false
      → blocked s.entities < fuel
      → Ends (trigger wake e s) s
  unfolding trigger LinkedList.clear
  trigger_total fuel wake e en s wakes r found awake free few =
      let locked = lock en in
      let r₁ = put-IsReady e en locked s r found (λ b. ground arith) (r.waiters_exist e en found) in
      let below : AllBelow (length (put e locked s).entities) en.waiters.elems =
        rw length-set (r.waiters_exist e en found) in
      let (s₂, woken, r₂, less, same) =
        wake_all_total fuel wake en.waiters.elems (put e locked s) wakes r₁ below
          (ground (arith, blocked-set s.entities e locked found)) in
      let there : e < length s₂.entities =
        omega (arith, lt_of_get_elem? s.entities e found, length-set s.entities e locked) in
      let (en₂, found₂) = get_elem?_of_lt s₂.entities e there in
      let released = release en₂ in
      (
        put e released s₂,
        trigger_runs wake e en en₂ s s₂ found free woken found₂,
        put-IsReady e en₂ released s₂ r₂ found₂ (λ b. refl) tt,
        ground (
          arith,
          blocked-set s₂.entities e released found₂,
          blocked-set s.entities e locked found,
        ),
        omega (arith, length-set s₂.entities e released, length-set s.entities e locked),
      )

module _ {Q : Type 0} (algorithm : Algorithm Q) where
  change_total :
      (fuel : ℕ) (wake : ℕ → Scheduler Q → Option (Scheduler Q)) (e : ℕ) (en : Entity)
      (s : Scheduler Q)
      → Wakes fuel wake
      → IsReady s
      → get_elem? s.entities e ≡ some en
      → is_blocked en ≡ true
      → blocked s.entities < suc fuel
      → Ends (change_state algorithm wake runnable e en s) s
  unfolding change_state requeue
  change_total fuel wake e en s wakes r found b few =
      let awake = record en { state = runnable } in
      let q = if is_queued en.state then s.queue else algorithm.add_to_runqueue e s.queue in
      let s₁ = put e awake (record s { queue = q }) in
      let fewer : blocked s₁.entities + 1 ≡ blocked s.entities =
        ground (arith, blocked-set s.entities e awake found) in
      let (s₂, ends, r₂, less, same) =
        trigger_total fuel wake e awake s₁ wakes
          (put-IsReady e en awake (record s { queue = q })
            (record {
              has_algorithm = r.has_algorithm;
              waiters_exist = r.waiters_exist;
              locks_free = r.locks_free;
            })
            found (λ b'. ground arith) (r.waiters_exist e en found))
          (ground (arith, get_elem?-set s.entities e e awake found)) refl
          (r.locks_free e en found b) (omega arith) in
      (s₂, ends, r₂, omega arith, omega (arith, length-set s.entities e awake))

  pub set_runs :
      (fuel e : ℕ) (state : EntityState) (en : Entity) (b : Bool) (s : Scheduler Q)
      → s.has_algorithm ≡ true
      → get_elem? s.entities e ≡ some en
      → is_same en.state state ≡ b
      → set_entity_state algorithm (suc fuel) state e s ≡ (
          if b
          then some s
          else change_state algorithm (set_entity_state algorithm fuel runnable) state e en s)
  unfolding set_entity_state
  set_runs fuel e state en b s ha found same = rw (ha, found, same)

  -- On a scheduler with an algorithm, whose waiters are entities and whose entities that are not runnable
  -- have their wake queues free, and with more fuel than there are entities that are not runnable, making
  -- an entity runnable ends without a fault, and leaves the scheduler ready for the next call.
  pub set_entity_state_total :
      (fuel e : ℕ) (s : Scheduler Q)
      → IsReady s
      → e < length s.entities
      → blocked s.entities < fuel
      → Ends (set_entity_state algorithm fuel runnable e s) s
  set_entity_state_total zero e s r there few = absurd (omega arith)
  set_entity_state_total (suc fuel) e s r there few =
      let (en, found) = get_elem?_of_lt s.entities e there in
      elim (Bool-cases (is_same en.state runnable)) [
        | inl awake ↦ (
          s,
          set_runs fuel e runnable en true s r.has_algorithm found awake,
          r,
          omega arith,
          refl,
        )
        | inr b ↦
            let (s₂, ends, r₂, less, same) =
              change_total fuel (set_entity_state algorithm fuel runnable) e en s
                (λ w t rt tt few'. set_entity_state_total fuel w t rt tt few') r found (rw b) few in
            (s₂, set_runs fuel e runnable en false s r.has_algorithm found b ∙ ends, r₂, less, same)
      ]
