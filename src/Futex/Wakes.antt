-- ===== src/Futex/Wakes.antt =====
-- The two calls where no other thread runs: who is queued, and who is woken up.
use infos.Prelude.{
  ℕ, zero, suc, ◌≡◌, Bool, true, false, List, [], ◌∷◌, ◌++◌, ltb, if◌then◌else◌, take, drop, tally,
  arith,
}
use infos.Futex.{
  Place, System, update, wake_round, advance, RunsAlone, rounds, user, set_lock, set_find,
  set_unlock, queue_lock, queue_append, queue_unlock, queue_sleep, queue_wake, wake_lock, wake_find,
  wake_loop, wake_queue_unlock, wake_unlock,
}
use infos.Futex.Exclusion.{queue_locked}
use infos.Futex.Sound.{has_queue}
use infos.Futex.Alone.{
  waiters_of, Alone, goes_on, lock_futex-Alone, unlock_futex-Alone, goes-Alone, find_queue-Alone,
  lock_queue-Alone, append-Alone, unlock_queue-Alone, sleep-Alone, wake_round-Alone,
  wake_round_empty-Alone, wake_find-Alone, wake_find_none-Alone,
}

-- Thread t stands at p, awake, and the two locks that it may want are free.
pub record IsAt (t va : ℕ) (p : Place) (s : System) : Type 0 where
  pub place : s.place t ≡ p
  pub awake : s.asleep t ≡ false
  pub futex : s.futex_mutex.locked ≡ false
  pub queue : queue_locked va s ≡ false

-- A run of thread t alone to such a state.
abbrev pub Leads : System → ℕ → ℕ → Place → (ℕ → Bool) → List ℕ → Bool → Bool → Bool → Type 0
Leads b t va p asleep ws f l h = (s : System) × RunsAlone t b s × Alone b t va s p asleep ws f l h

pub start :
    (t va : ℕ) (p : Place) (b : System)
    → IsAt t va p b
    → Leads b t va p b.asleep (waiters_of va b) false false (has_queue va b)
start t va p b x = (b, RunsAlone.here, grind arith)

module _ (b : System) (t va : ℕ) {p p' : Place} {asleep asleep' : ℕ → Bool} {ws ws' : List ℕ}
    {f f' l l' h h' : Bool} where
  pub then_goes :
      Leads b t va p asleep ws f l h
      → asleep t ≡ false
      → ((s : System)
          → Alone b t va s p asleep ws f l h
          → Alone b t va (advance t p s) p' asleep' ws' f' l' h')
      → Leads b t va p' asleep' ws' f' l' h'
  then_goes (s, r, x) awake k = (advance t p s, goes_on b t va s p asleep ws f l h r x awake, k s x)

-- A thread that has found its word as expected, and given the mutex back, is put behind the others in
-- the queue of its address and sleeps, if no other thread runs; nothing else changes.
pub set_thread_waiting_lem :
    (t va : ℕ) (b : System)
    → IsAt t va (set_lock va) b
    → Leads b t va queue_wake (update b.asleep t true) (waiters_of va b ++ t ∷ []) false false true
unfolding advance
set_thread_waiting_lem t va b x0 =
    let locked =
      then_goes b t va (start t va (set_lock va) b x0) x0.awake
        (λ s. lock_futex-Alone b t va s _ (set_find va) _ _ _ _) in
    let found =
      then_goes b t va locked x0.awake (λ s. find_queue-Alone b t va s _ (set_unlock va) _ _ _ _) in
    let free =
      then_goes b t va found x0.awake
        (λ s. unlock_futex-Alone b t va s _ (queue_lock va) _ _ _ _ _) in
    let inside =
      then_goes b t va free x0.awake (λ s. lock_queue-Alone b t va s _ (queue_append va) _ _ _) in
    let queued =
      then_goes b t va inside x0.awake (λ s. append-Alone b t va s _ (queue_unlock va) _ _ _ _) in
    let done =
      then_goes b t va queued x0.awake (λ s. unlock_queue-Alone b t va s _ queue_sleep _ _ _ _) in
    then_goes b t va done x0.awake (λ s. sleep-Alone b t va s _ user _ _ _ _ _)

-- Who sleeps once some have been woken up.
abbrev pub woken : List ℕ → (ℕ → Bool) → ℕ → Bool
woken ws asleep u = if ltb 0 (tally u ws) then false else asleep u

woken-next :
    (b : System) (t va w : ℕ) (s : System) (p : Place) (asleep : ℕ → Bool) (first ws : List ℕ)
    (f l h : Bool)
    → Alone b t va s p (woken first (update asleep w false)) ws f l h
    → Alone b t va s p (woken (w ∷ first) asleep) ws f l h
woken-next b t va w s p asleep first ws f l h x = grind arith

wake_loop_lem :
    (b : System) (t va n : ℕ) (asleep : ℕ → Bool) (ws : List ℕ)
    → asleep t ≡ false
    → Leads b t va (wake_loop va n) asleep ws true true true
    → Leads b t va (wake_queue_unlock va) (woken (take n ws) asleep) (drop n ws) true true true
unfolding advance wake_round
wake_loop_lem b t va zero asleep ws awake start =
    then_goes b t va start awake (λ s. goes-Alone b t va s _ (wake_queue_unlock va) _ _ _ _ _)
wake_loop_lem b t va (suc n) asleep [] awake start =
    then_goes b t va start awake (λ s. wake_round_empty-Alone b t va s _ user _ (suc n) _ _)
wake_loop_lem b t va (suc n) asleep (w ∷ ws) awake start =
    let (s, r, x) =
      wake_loop_lem b t va n (update asleep w false) ws (ground arith)
        (then_goes b t va start awake (λ s. wake_round-Alone b t va s _ user _ w n ws _ _)) in
    (s, r, woken-next b t va w s _ asleep (take n ws) _ _ _ _ x)

leave_wake :
    (b : System) (t va : ℕ) (asleep : ℕ → Bool) (ws : List ℕ)
    → asleep t ≡ false
    → Leads b t va (wake_queue_unlock va) asleep ws true true true
    → Leads b t va user asleep ws false false true
unfolding advance
leave_wake b t va asleep ws awake woke =
    let freed =
      then_goes b t va woke awake (λ s. unlock_queue-Alone b t va s _ wake_unlock _ _ _ _) in
    then_goes b t va freed awake (λ s. unlock_futex-Alone b t va s _ user _ _ _ _ _)

-- A call of `sys_futex_wake_up` for an address with a queue, from its start to its end, with both locks
-- free at its start and no other thread running: it wakes up the first threads in the queue of its
-- address, as many as `int n` admits rounds, and takes them out of the queue; the other threads, words
-- and queues stay as they are, and the locks are free again.
pub futex_wake_up_lem :
    (t va number : ℕ) (b : System)
    → IsAt t va (wake_lock va number) b
    → has_queue va b ≡ true
    → Leads b t va user
        (woken (take (rounds number) (waiters_of va b)) b.asleep)
        (drop (rounds number) (waiters_of va b))
        false
        false
        true
unfolding advance
futex_wake_up_lem t va number b x0 there =
    let locked =
      then_goes b t va (start t va (wake_lock va number) b x0) x0.awake
        (λ s. lock_futex-Alone b t va s _ (wake_find va number) _ _ _ _) in
    let found =
      then_goes b t va locked x0.awake
        (λ s x. wake_find-Alone b t va number s _ _ _ _ _ (rw there at x)) in
    let inside =
      then_goes b t va found x0.awake
        (λ s. lock_queue-Alone b t va s _ (wake_loop va (rounds number)) _ _ _) in
    let (s, r, x) =
      wake_loop_lem b t va (rounds number) b.asleep (waiters_of va b) x0.awake inside in
    leave_wake b t va _ _ (woken_stays (take (rounds number) (waiters_of va b)) x0.awake) (s, r, x)
  where
    woken_stays : (ws : List ℕ) → b.asleep t ≡ false → woken ws b.asleep t ≡ false
    woken_stays ws h = ground arith

-- With no queue there is nobody to wake up, and nothing changes.
pub futex_wake_up_none :
    (t va number : ℕ) (b : System)
    → IsAt t va (wake_lock va number) b
    → has_queue va b ≡ false
    → Leads b t va user b.asleep (waiters_of va b) false false false
unfolding advance
futex_wake_up_none t va number b x0 absent =
    let locked =
      then_goes b t va (start t va (wake_lock va number) b x0) x0.awake
        (λ s. lock_futex-Alone b t va s _ (wake_find va number) _ _ _ _) in
    let found =
      then_goes b t va locked x0.awake
        (λ s x. wake_find_none-Alone b t va number s _ _ _ _ _ (rw absent at x)) in
    then_goes b t va found x0.awake (λ s. unlock_futex-Alone b t va s _ user _ _ _ _ _)
