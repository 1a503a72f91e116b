-- ===== src/Futex/Exclusion.antt =====
-- The mutex of the process and the lock of each queue keep all but one thread out of their sections.
use infos.Prelude.{
  ℕ, zero, suc, ◌≡◌, ◌≢◌, refl, ap, inl, inr, Bool, true, false, none, some, ◌==◌, Bool-cases,
  Option-cases, arith,
}
use infos.Locks.{try_lock, unlock}
use infos.Locks.Exclusion.{IsExclusive, Change, keep, take_lock, release, Change-IsExclusive}
use infos.Futex.{
  Place, System, goes, lock_futex, lock_queue, on_queue, find_queue, sleep, wake_round, advance,
  Step, fresh, user, wait_lock, wait_check, wait_unlock, wait_leave, set_lock, set_find, set_unlock,
  queue_lock, queue_append, queue_unlock, wake_lock, wake_find, wake_queue_lock, wake_loop,
  wake_queue_unlock, wake_unlock,
}

-- The places between taking the mutex of the process and giving it back.
abbrev pub holds_futex : Place → Bool
holds_futex (wait_check va expected) = true
holds_futex (wait_unlock va) = true
holds_futex wait_leave = true
holds_futex (set_find va) = true
holds_futex (set_unlock va) = true
holds_futex (wake_find va number) = true
holds_futex (wake_queue_lock va n) = true
holds_futex (wake_loop va n) = true
holds_futex (wake_queue_unlock va) = true
holds_futex wake_unlock = true
holds_futex p = false

-- The same for the lock of the queue at an address.
abbrev pub holds_queue : ℕ → Place → Bool
holds_queue a (queue_append va) = va == a
holds_queue a (queue_unlock va) = va == a
holds_queue a (wake_loop va n) = va == a
holds_queue a (wake_queue_unlock va) = va == a
holds_queue a p = false

abbrev pub queue_locked : ℕ → System → Bool
queue_locked a s = elim (s.queues a) [ none ↦ false | some q ↦ q.lock.locked ]

pub advance_others :
    (t : ℕ) (p : Place) (s : System) (u : ℕ) → u ≢ t → (advance t p s).place u ≡ s.place u
unfolding advance lock_futex lock_queue on_queue find_queue sleep wake_round
advance_others t (wake_loop va zero) s u h = ground arith
advance_others t (wake_loop va (suc n)) s u h = ground arith
advance_others t p s u h = ground arith

lock_futex-Change :
    (t : ℕ) (p q : Place) (s : System)
    → s.place t ≡ q
    → holds_futex q ≡ false
    → holds_futex p ≡ true
    → Change s.futex_mutex.locked
        (holds_futex q)
        (lock_futex t p s).futex_mutex.locked
        (holds_futex ((lock_futex t p s).place t))
unfolding lock_futex try_lock
lock_futex-Change t p q s e before after = elim (Bool-cases s.futex_mutex.locked) [
  | inl busy ↦ keep (ground arith) (ground arith)
  | inr free ↦ take_lock free (ground arith) (ground arith)
]

pub advance-Change_futex :
    (t : ℕ) (p : Place) (s : System)
    → s.place t ≡ p
    → Change s.futex_mutex.locked
        (holds_futex p)
        (advance t p s).futex_mutex.locked
        (holds_futex ((advance t p s).place t))
unfolding advance lock_queue on_queue find_queue sleep wake_round
advance-Change_futex t (wait_lock va expected) s e = lock_futex-Change t _ _ s e refl refl
advance-Change_futex t (set_lock va) s e = lock_futex-Change t _ _ s e refl refl
advance-Change_futex t (wake_lock va number) s e = lock_futex-Change t _ _ s e refl refl
advance-Change_futex t (wait_unlock va) s e = release refl (ground arith) (ground arith)
advance-Change_futex t wait_leave s e = release refl (ground arith) (ground arith)
advance-Change_futex t (set_unlock va) s e = release refl (ground arith) (ground arith)
advance-Change_futex t wake_unlock s e = release refl (ground arith) (ground arith)
advance-Change_futex t (wake_loop va zero) s e = keep (ground arith) (ground arith)
advance-Change_futex t (wake_loop va (suc n)) s e = keep (ground arith) (ground arith)
advance-Change_futex t p s e = keep (ground arith) (ground arith)

lock_queue-Change :
    (a t va n : ℕ) (p q : Place) (s : System)
    → s.place t ≡ q
    → holds_queue a q ≡ false
    → holds_queue a p ≡ (va == a)
    → Change
        (queue_locked a s)
        (holds_queue a q)
        (queue_locked a (lock_queue t va p s))
        (holds_queue a ((lock_queue t va p s).place t))
unfolding lock_queue try_lock
lock_queue-Change a t va n p q s e before after = elim (Option-cases (s.queues va)) [
  | inl absent ↦ keep (ground arith) (ground arith)
  | inr (queue, present) ↦ elim (Bool-cases queue.lock.locked) [
    | inl busy ↦ keep (ground arith) (ground arith)
    | inr free ↦ elim (Bool-cases (va == a)) [
      | inl same ↦ take_lock (ground arith) (ground arith) (ground arith)
      | inr other ↦ keep (ground arith) (ground arith)
    ]
  ]
]

queue_unlock-Change :
    (a t va : ℕ) (p q : Place) (s : System)
    → s.place t ≡ q
    → holds_queue a q ≡ (va == a)
    → holds_queue a p ≡ false
    → Change
        (queue_locked a s)
        (holds_queue a q)
        (queue_locked a (on_queue t va p (λ queue. record queue { lock = unlock queue.lock }) s))
        (holds_queue a
          ((on_queue t va p (λ queue. record queue { lock = unlock queue.lock }) s).place t))
unfolding on_queue
queue_unlock-Change a t va p q s e before after = elim (Option-cases (s.queues va)) [
  | inl absent ↦ keep (ground arith) (ground arith)
  | inr (queue, present) ↦ elim (Bool-cases (va == a)) [
    | inl same ↦ release (ground arith) (ground arith) (ground arith)
    | inr other ↦ keep (ground arith) (ground arith)
  ]
]

pub advance-Change_queue :
    (a t : ℕ) (p : Place) (s : System)
    → s.place t ≡ p
    → Change
        (queue_locked a s)
        (holds_queue a p)
        (queue_locked a (advance t p s))
        (holds_queue a ((advance t p s).place t))
unfolding advance lock_futex find_queue sleep wake_round
advance-Change_queue a t (queue_lock va) s e = lock_queue-Change a t va 0 _ _ s e refl refl
advance-Change_queue a t (wake_queue_lock va n) s e = lock_queue-Change a t va n _ _ s e refl refl
advance-Change_queue a t (queue_unlock va) s e = queue_unlock-Change a t va _ _ s e refl refl
advance-Change_queue a t (wake_queue_unlock va) s e = queue_unlock-Change a t va _ _ s e refl refl
advance-Change_queue a t (queue_append va) s e =
    keep (unfold on_queue in ground arith) (unfold on_queue in ground arith)
advance-Change_queue a t (wake_loop va zero) s e = keep (ground arith) (ground arith)
advance-Change_queue a t (wake_loop va (suc n)) s e = keep (ground arith) (ground arith)
advance-Change_queue a t p s e = keep (ground arith) (ground arith)

-- All locks of a system are exclusive.
pub record IsOrderly (s : System) : Type 0 where
  pub futex : IsExclusive s.futex_mutex.locked (λ t. holds_futex (s.place t))
  pub queue : (a : ℕ) → IsExclusive (queue_locked a s) (λ t. holds_queue a (s.place t))

pub advance-IsOrderly : (t : ℕ) (s : System) → IsOrderly s → IsOrderly (advance t (s.place t) s)
advance-IsOrderly t s x = record {
  futex =
      Change-IsExclusive t _ _ (λ u. holds_futex (s.place u))
        (λ u. holds_futex ((advance t (s.place t) s).place u))
        (λ u h. ap holds_futex (advance_others t (s.place t) s u h))
        (advance-Change_futex t (s.place t) s refl) x.futex;
  queue = λ a.
      Change-IsExclusive t _ _ (λ u. holds_queue a (s.place u))
        (λ u. holds_queue a ((advance t (s.place t) s).place u))
        (λ u h. ap (holds_queue a) (advance_others t (s.place t) s u h))
        (advance-Change_queue a t (s.place t) s refl) (x.queue a);
}

-- A call moves a thread from one place outside of all sections to another.
enter-IsOrderly :
    (t : ℕ) (p : Place) (s : System)
    → s.place t ≡ user
    → holds_futex p ≡ false
    → ((a : ℕ) → holds_queue a p ≡ false)
    → IsOrderly s
    → IsOrderly (goes t p s)
enter-IsOrderly t p s e f q x = record {
  futex =
      Change-IsExclusive t _ _ (λ u. holds_futex (s.place u))
        (λ u. holds_futex ((goes t p s).place u)) (λ u h. ground arith) (keep refl (ground arith))
        x.futex;
  queue = λ a.
      Change-IsExclusive t _ _ (λ u. holds_queue a (s.place u))
        (λ u. holds_queue a ((goes t p s).place u)) (λ u h. ground arith)
        (keep refl (ground (arith, q a))) (x.queue a);
}

pub Step-IsOrderly : {s s' : System} → Step s s' → IsOrderly s → IsOrderly s'
Step-IsOrderly {s} (Step.go t awake) x = advance-IsOrderly t s x
Step-IsOrderly {s} (Step.futex_wait t va expected awake e) x =
    enter-IsOrderly t _ s e refl (λ a. refl) x
Step-IsOrderly {s} (Step.futex_wake_up t va number awake e) x =
    enter-IsOrderly t _ s e refl (λ a. refl) x
Step-IsOrderly {s} (Step.store t va v awake e) x = record { futex = x.futex; queue = x.queue }

pub fresh-IsOrderly : (words : ℕ → ℕ) → IsOrderly (fresh words)
fresh-IsOrderly words = record {
  futex = record { one = λ t u p q. cc; closed = λ t p. cc; held = λ p. cc };
  queue = λ a. record { one = λ t u p q. cc; closed = λ t p. cc; held = λ p. cc };
}
