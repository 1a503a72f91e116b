-- ===== src/Futex/Release.antt =====
-- How many steps a thread has left in a call, and that the thread inside a queue's lock gives it back.
use infos.Prelude.{
  ℕ, zero, suc, ◌+◌, ◌<◌, ◌≡◌, ◌≢◌, refl, ap, ◌∙◌, ◌⊎◌, inl, inr, Bool, true, false, Bool-cases,
  Option-cases, arith,
}
use infos.Locks.{try_lock}
use infos.Locks.Exclusion.{free_of_left}
use infos.Futex.{
  Place, System, lock_futex, lock_queue, on_queue, find_queue, sleep, wake_round, advance, Step,
  Reach, rounds, user, wait_lock, wait_check, wait_unlock, wait_leave, set_lock, set_find,
  set_unlock, queue_lock, queue_append, queue_unlock, queue_sleep, queue_wake, wake_lock, wake_find,
  wake_queue_lock, wake_loop, wake_queue_unlock, wake_unlock,
}
use infos.Futex.Exclusion.{holds_queue, queue_locked, advance_others}
use infos.Futex.Sound.{has_queue, has_its_queue, IsSound, advance-IsSound}

-- The steps that are left, but for those in which a lock is not free.
abbrev pub left : Place → ℕ
left user = 0
left (wait_lock va expected) = 10
left (wait_check va expected) = 9
left (wait_unlock va) = 8
left wait_leave = 1
left (set_lock va) = 7
left (set_find va) = 6
left (set_unlock va) = 5
left (queue_lock va) = 4
left (queue_append va) = 3
left (queue_unlock va) = 2
left queue_sleep = 1
left queue_wake = 0
left (wake_lock va number) = rounds number + 6
left (wake_find va number) = rounds number + 5
left (wake_queue_lock va n) = n + 4
left (wake_loop va n) = n + 3
left (wake_queue_unlock va) = 2
left wake_unlock = 1

-- The lock that a thread waits for is not free.
abbrev pub is_blocked : Place → System → Bool
is_blocked (wait_lock va expected) s = s.futex_mutex.locked
is_blocked (set_lock va) s = s.futex_mutex.locked
is_blocked (wake_lock va number) s = s.futex_mutex.locked
is_blocked (queue_lock va) s = queue_locked va s
is_blocked (wake_queue_lock va n) s = queue_locked va s
is_blocked p s = false

lock_queue-left :
    (t va : ℕ) (p : Place) (s : System)
    → has_queue va s ≡ true
    → queue_locked va s ≡ false
    → (lock_queue t va p s).place t ≡ p
unfolding lock_queue try_lock
lock_queue-left t va p s h free = elim (Option-cases (s.queues va)) [
  | inl absent ↦ ground arith
  | inr (q, present) ↦ ground arith
]

pub advance-left :
    (t : ℕ) (p : Place) (s : System)
    → has_its_queue p s ≡ true
    → is_blocked p s ≡ false
    → 0 < left p
    → left ((advance t p s).place t) < left p
unfolding advance lock_futex try_lock on_queue find_queue sleep wake_round
advance-left t user s h free m = absurd (omega arith)
advance-left t queue_wake s h free m = absurd (omega arith)
advance-left t (queue_lock va) s h free m =
    ground (arith, lock_queue-left t va (queue_append va) s h free)
advance-left t (wake_queue_lock va n) s h free m =
    ground (arith, lock_queue-left t va (wake_loop va n) s h free)
advance-left t (wake_loop va zero) s h free m = ground arith
advance-left t (wake_loop va (suc n)) s h free m = ground arith
advance-left t p s h free m = ground arith

pub user_of_left : (p : Place) → left p ≡ 0 → (p ≡ user) ⊎ (p ≡ queue_wake)
user_of_left user h = inl refl
user_of_left queue_wake h = inr refl
user_of_left p h = absurd (omega arith)

pub awake_inside : (t : ℕ) (s : System) → IsSound s → 0 < left (s.place t) → s.asleep t ≡ false
awake_inside t s x h = elim (Bool-cases (s.asleep t)) [
  | inl asleep ↦ absurd (omega (arith, ap left (x.outside t asleep)))
  | inr awake ↦ awake
]

holds_queue-left :
    (a : ℕ) (p : Place) (s : System)
    → holds_queue a p ≡ true
    → (0 < left p) × (is_blocked p s ≡ false)
holds_queue-left a (queue_append va) s h = (omega arith, refl)
holds_queue-left a (queue_unlock va) s h = (omega arith, refl)
holds_queue-left a (wake_loop va n) s h = (omega arith, refl)
holds_queue-left a (wake_queue_unlock va) s h = (omega arith, refl)
holds_queue-left a p s h = cc

-- Where a run leads in which only threads inside the lock of a queue, or inside any lock, go on.
pub record Freed (s s' : System) (Stays : Place → Type 0) : Type 0 where
  pub reached : Reach s s'
  pub sound : IsSound s'
  pub same : (u : ℕ) → Stays (s.place u) → s'.place u ≡ s.place u

pub Reach-trans : {s s' s'' : System} → Reach s s' → Reach s' s'' → Reach s s''
Reach-trans r Reach.here = r
Reach-trans r (Reach.next r' step) = Reach.next (Reach-trans r r') step

abbrev pub OutsideQueue : ℕ → Place → Type 0
OutsideQueue a p = holds_queue a p ≡ false

-- The thread inside a queue's lock gives it back.
pub release_queue :
    (fuel a w : ℕ) (s : System)
    → left (s.place w) < fuel
    → IsSound s
    → holds_queue a (s.place w) ≡ true
    → (s' : System) × Freed s s' (OutsideQueue a) × (queue_locked a s' ≡ false)
release_queue zero a w s m x h = absurd (omega arith)
release_queue (suc fuel) a w s m x h =
    let (some_left, free) = holds_queue-left a (s.place w) s h in
    let s1 = advance w (s.place w) s in
    let awake = awake_inside w s x some_left in
    let x1 = advance-IsSound w s awake x in
    let fewer = advance-left w (s.place w) s (x.queues w) free some_left in
    let step : Reach s s1 = Reach.next Reach.here (Step.go w awake) in
    let stay = λ (u : ℕ) (o : holds_queue a (s.place u) ≡ false).
      advance_others w (s.place w) s u (not_inside u o) in
    elim (Bool-cases (holds_queue a (s1.place w))) [
      | inl still ↦
          let (s', freed, done) = release_queue fuel a w s1 (omega arith) x1 still in
          (
            s',
            record {
              reached = Reach-trans step freed.reached;
              sound = freed.sound;
              same = λ u o. freed.same u (ap (holds_queue a) (stay u o) ∙ o) ∙ stay u o;
            },
            done,
          )
      | inr left_it ↦ (
        s1,
        record { reached = step; sound = x1; same = stay },
        free_of_left w _ _ (λ u. holds_queue a (s.place u)) (λ u. holds_queue a (s1.place u))
            (λ u n. ap (holds_queue a) (advance_others w (s.place w) s u n)) (x.orderly.queue a)
            (x1.orderly.queue a) h left_it,
      )
    ]
  where
    not_inside : (u : ℕ) → holds_queue a (s.place u) ≡ false → u ≢ w
    not_inside u o e = let h' : holds_queue a (s.place u) ≡ true = rw e h in cc
