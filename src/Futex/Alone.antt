-- ===== src/Futex/Alone.antt =====
-- What the steps of the two calls do while no other thread runs.
use infos.Prelude.{
  ℕ, zero, suc, ◌≡◌, ◌≢◌, ◌∙◌, inl, inr, Bool, true, false, none, some, List, [], ◌∷◌, ◌++◌,
  Option-cases, arith,
}
use infos.Locks.{try_lock, unlock}
use infos.Futex.{
  Place, System, goes, update, lock_futex, unlock_futex, lock_queue, on_queue, find_queue, sleep,
  wake_round, advance, Step, Reach, RunsAlone, rounds, queue_wake, wake_find, wake_queue_lock,
  wake_loop, wake_queue_unlock, wake_unlock,
}
use infos.Futex.Exclusion.{queue_locked}
use infos.Futex.Sound.{has_queue}
use mathlib.Core.Path.{subst}

abbrev pub waiters_of : ℕ → System → List ℕ
waiters_of va s = elim (s.queues va) [ none ↦ [] | some q ↦ q.waiters ]

-- How a state of such a run stands to the state b before it: thread t is at a place, `asleep` says who
-- sleeps, ws are those in the queue at va, and the flags say whether the mutex is locked, whether the
-- queue is locked, and whether there is a queue. All else is as in b.
pub record Alone (b : System) (t va : ℕ) (s : System) (p : Place) (asleep : ℕ → Bool) (ws : List ℕ)
    (f l h : Bool) : Type 0 where
  pub place : s.place t ≡ p
  pub others : (u : ℕ) → u ≢ t → s.place u ≡ b.place u
  pub words : (a : ℕ) → s.words a ≡ b.words a
  pub asleep_now : (u : ℕ) → s.asleep u ≡ asleep u
  pub futex : s.futex_mutex.locked ≡ f
  pub queue : queue_locked va s ≡ l
  pub waiters : waiters_of va s ≡ ws
  pub elsewhere : (a : ℕ) → a ≢ va → s.queues a ≡ b.queues a
  pub found : has_queue va s ≡ h

module _ (b : System) (t va : ℕ) (s : System) (p q : Place) (asleep : ℕ → Bool) where
  pub lock_futex-Alone :
      (ws : List ℕ) (l h : Bool)
      → Alone b t va (s) p asleep ws false l h
      → Alone b t va (lock_futex t q s) q asleep ws true l h
  unfolding lock_futex try_lock
  lock_futex-Alone ws l h x = grind arith

  pub unlock_futex-Alone :
      (ws : List ℕ) (f l h : Bool)
      → Alone b t va (s) p asleep ws f l h
      → Alone b t va (unlock_futex t q s) q asleep ws false l h
  unlock_futex-Alone ws f l h x = grind arith

  pub goes-Alone :
      (ws : List ℕ) (f l h : Bool)
      → Alone b t va (s) p asleep ws f l h
      → Alone b t va (goes t q s) q asleep ws f l h
  goes-Alone ws f l h x = grind arith

  pub find_queue-Alone :
      (ws : List ℕ) (f h : Bool)
      → Alone b t va (s) p asleep ws f false h
      → Alone b t va (goes t q (find_queue va s)) q asleep ws f false true
  unfolding find_queue
  find_queue-Alone ws f h x = elim (Option-cases (s.queues va)) [
    | inl absent ↦ grind arith
    | inr (queue, present) ↦ grind arith
  ]

  pub lock_queue-Alone :
      (ws : List ℕ) (f : Bool)
      → Alone b t va (s) p asleep ws f false true
      → Alone b t va (lock_queue t va q s) q asleep ws f true true
  unfolding lock_queue try_lock
  lock_queue-Alone ws f x = elim (Option-cases (s.queues va)) [
    | inl absent ↦ grind arith
    | inr (queue, present) ↦ grind arith
  ]

  pub append-Alone :
      (ws : List ℕ) (f l : Bool)
      → Alone b t va (s) p asleep ws f l true
      → Alone b t va
          (on_queue t va q (λ queue. record queue { waiters = queue.waiters ++ t ∷ [] }) s)
          q
          asleep
          (ws ++ t ∷ [])
          f
          l
          true
  unfolding on_queue
  append-Alone ws f l x = elim (Option-cases (s.queues va)) [
    | inl absent ↦ grind arith
    | inr (queue, present) ↦ grind arith
  ]

  pub unlock_queue-Alone :
      (ws : List ℕ) (f l : Bool)
      → Alone b t va (s) p asleep ws f l true
      → Alone b t va
          (on_queue t va q (λ queue. record queue { lock = unlock queue.lock }) s)
          q
          asleep
          ws
          f
          false
          true
  unfolding on_queue
  unlock_queue-Alone ws f l x = elim (Option-cases (s.queues va)) [
    | inl absent ↦ grind arith
    | inr (queue, present) ↦ grind arith
  ]

  pub sleep-Alone :
      (ws : List ℕ) (f l h : Bool)
      → Alone b t va (s) p asleep ws f l h
      → Alone b t va (sleep t s) queue_wake (update asleep t true) ws f l h
  unfolding sleep
  sleep-Alone ws f l h x = grind arith

  pub wake_round-Alone :
      (w n : ℕ) (ws : List ℕ) (f l : Bool)
      → Alone b t va (s) p asleep (w ∷ ws) f l true
      → Alone b t va
          (wake_round t va (suc n) s)
          (wake_loop va n)
          (update asleep w false)
          ws
          f
          l
          true
  unfolding wake_round
  wake_round-Alone w n ws f l x = elim (Option-cases (s.queues va)) [
    | inl absent ↦ grind arith
    | inr (queue, present) ↦ grind arith
  ]

  pub wake_round_empty-Alone :
      (n : ℕ) (f l : Bool)
      → Alone b t va s p asleep [] f l true
      → Alone b t va (wake_round t va n s) (wake_queue_unlock va) asleep [] f l true
  unfolding wake_round
  wake_round_empty-Alone zero f l x = grind arith
  wake_round_empty-Alone (suc n) f l x = elim (Option-cases (s.queues va)) [
    | inl absent ↦ grind arith
    | inr (queue, present) ↦ grind arith
  ]

-- `try_get_value`.
module _ (b : System) (t va number : ℕ) (s : System) (p : Place) (asleep : ℕ → Bool) (ws : List ℕ)
    (f l : Bool) where
  pub wake_find-Alone :
      Alone b t va s p asleep ws f l true
      → Alone b t va
          (advance t (wake_find va number) s)
          (wake_queue_lock va (rounds number))
          asleep
          ws
          f
          l
          true
  unfolding advance
  wake_find-Alone x = elim (Option-cases (s.queues va)) [
    | inl absent ↦ grind arith
    | inr (queue, present) ↦ grind arith
  ]

  pub wake_find_none-Alone :
      Alone b t va s p asleep ws f l false
      → Alone b t va (advance t (wake_find va number) s) wake_unlock asleep ws f l false
  unfolding advance
  wake_find_none-Alone x = elim (Option-cases (s.queues va)) [
    | inl absent ↦ grind arith
    | inr (queue, present) ↦ grind arith
  ]

-- A step of a run of thread t alone.
pub goes_on :
    (b : System) (t va : ℕ) (s : System) (p : Place) (asleep : ℕ → Bool) (ws : List ℕ)
    (f l h : Bool)
    → RunsAlone t b s
    → Alone b t va s p asleep ws f l h
    → asleep t ≡ false
    → RunsAlone t b (advance t p s)
goes_on b t va s p asleep ws f l h r x awake =
    subst (λ q. RunsAlone t b (advance t q s)) x.place (RunsAlone.next r (x.asleep_now t ∙ awake))

pub RunsAlone-Reach : (t : ℕ) (b : System) {s : System} → RunsAlone t b s → Reach b s
RunsAlone-Reach t b RunsAlone.here = Reach.here
RunsAlone-Reach t b (RunsAlone.next r awake) = Reach.next (RunsAlone-Reach t b r) (Step.go t awake)
