-- ===== src/Futex/Sound.antt =====
-- What holds of every reachable state besides the locks: a thread sleeps at the end of its call, and
-- uses a queue only where there is one.
use infos.Prelude.{
  eq-or-ne, ℕ, zero, suc, ◌≡◌, refl, ◌∙◌, ◌⊎◌, inl, inr, Bool, true, false, none, some, arith,
}
use infos.Locks.{try_lock}
use infos.Futex.{
  Place, System, goes, lock_futex, lock_queue, on_queue, find_queue, sleep, wake_round, advance,
  Step, Reach, fresh, set_unlock, queue_lock, queue_append, queue_unlock, queue_sleep, queue_wake,
  wake_queue_lock, wake_loop, wake_queue_unlock,
}
use infos.Futex.Exclusion.{
  advance_others, IsOrderly, advance-IsOrderly, Step-IsOrderly, fresh-IsOrderly,
}

abbrev pub has_queue : ℕ → System → Bool
has_queue va s = elim (s.queues va) [ none ↦ false | some q ↦ true ]

-- Where a thread stands that uses a queue, there is one.
abbrev pub has_its_queue : Place → System → Bool
has_its_queue (set_unlock va) s = has_queue va s
has_its_queue (queue_lock va) s = has_queue va s
has_its_queue (queue_append va) s = has_queue va s
has_its_queue (queue_unlock va) s = has_queue va s
has_its_queue (wake_queue_lock va n) s = has_queue va s
has_its_queue (wake_loop va n) s = has_queue va s
has_its_queue (wake_queue_unlock va) s = has_queue va s
has_its_queue p s = true

pub advance-has_queue :
    (a t : ℕ) (p : Place) (s : System) → has_queue a s ≡ true → has_queue a (advance t p s) ≡ true
unfolding advance lock_futex lock_queue try_lock on_queue find_queue sleep wake_round
advance-has_queue a t (wake_loop va zero) s h = ground arith
advance-has_queue a t (wake_loop va (suc n)) s h = ground arith
advance-has_queue a t p s h = ground arith

has_its_queue-grown :
    (p : Place) (s s' : System)
    → ((a : ℕ) → has_queue a s ≡ true → has_queue a s' ≡ true)
    → has_its_queue p s ≡ true
    → has_its_queue p s' ≡ true
has_its_queue-grown (set_unlock va) s s' more h = more va h
has_its_queue-grown (queue_lock va) s s' more h = more va h
has_its_queue-grown (queue_append va) s s' more h = more va h
has_its_queue-grown (queue_unlock va) s s' more h = more va h
has_its_queue-grown (wake_queue_lock va n) s s' more h = more va h
has_its_queue-grown (wake_loop va n) s s' more h = more va h
has_its_queue-grown (wake_queue_unlock va) s s' more h = more va h
has_its_queue-grown p s s' more h = refl

advance-has_its_queue :
    (t : ℕ) (p : Place) (s : System)
    → s.place t ≡ p
    → has_its_queue p s ≡ true
    → has_its_queue ((advance t p s).place t) (advance t p s) ≡ true
unfolding advance lock_futex lock_queue try_lock on_queue find_queue sleep wake_round
advance-has_its_queue t (wake_loop va zero) s e h = ground arith
advance-has_its_queue t (wake_loop va (suc n)) s e h = ground arith
advance-has_its_queue t p s e h = ground arith

-- A step puts no thread to sleep but the one that runs, which then waits to be woken up.
advance-asleep :
    (t : ℕ) (p : Place) (s : System) (u : ℕ)
    → (advance t p s).asleep u ≡ true
    → (s.asleep u ≡ true) ⊎ ((u ≡ t) × ((advance t p s).place t ≡ queue_wake))
unfolding advance lock_futex lock_queue try_lock on_queue find_queue sleep wake_round
advance-asleep t (wake_loop va zero) s u h = inl (ground arith)
advance-asleep t (wake_loop va (suc n)) s u h = inl (ground arith)
advance-asleep t queue_sleep s u h = elim (eq-or-ne u t) [
  | inl e ↦ inr (e, ground arith)
  | inr n ↦ inl (ground arith)
]
advance-asleep t p s u h = inl (ground arith)

pub record IsSound (s : System) : Type 0 where
  pub orderly : IsOrderly s
  pub outside : (t : ℕ) → s.asleep t ≡ true → s.place t ≡ queue_wake
  pub queues : (t : ℕ) → has_its_queue (s.place t) s ≡ true

pub advance-IsSound :
    (t : ℕ) (s : System) → s.asleep t ≡ false → IsSound s → IsSound (advance t (s.place t) s)
advance-IsSound t s awake x = record {
  orderly = advance-IsOrderly t s x.orderly;
  outside = λ u h. elim (eq-or-ne u t) [
    | inl e ↦ elim (advance-asleep t (s.place t) s u h) [
      | inl was ↦ let was' : s.asleep t ≡ true = rw (← e) was in cc
      | inr (e', there) ↦ rw e there
    ]
    | inr n ↦ elim (advance-asleep t (s.place t) s u h) [
      | inl was ↦ advance_others t (s.place t) s u n ∙ x.outside u was
      | inr (e', there) ↦ absurd (n e')
    ]
  ];
  queues = λ u. elim (eq-or-ne u t) [
    | inl e ↦ rw e (advance-has_its_queue t (s.place t) s refl (x.queues t))
    | inr n ↦ rw (advance_others t (s.place t) s u n) (
        has_its_queue-grown (s.place u) s (advance t (s.place t) s)
          (λ a. advance-has_queue a t (s.place t) s) (x.queues u))
  ];
}

enter-IsSound :
    (t : ℕ) (p : Place) (s : System)
    → s.asleep t ≡ false
    → has_its_queue p s ≡ true
    → IsOrderly (goes t p s)
    → IsSound s
    → IsSound (goes t p s)
enter-IsSound t p s awake h orderly x = record {
  orderly = orderly;
  outside =
      λ u h. elim (eq-or-ne u t) [ inl e ↦ ground arith | inr n ↦ ground (arith, x.outside u h) ];
  queues = λ u. elim (eq-or-ne u t) [ inl e ↦ ground arith | inr n ↦ ground (arith, x.queues u) ];
}

pub Step-IsSound : {s s' : System} → Step s s' → IsSound s → IsSound s'
Step-IsSound {s} (Step.go t awake) x = advance-IsSound t s awake x
Step-IsSound {s} (Step.futex_wait t va expected awake e) x =
    enter-IsSound t _ s awake refl
      (Step-IsOrderly (Step.futex_wait t va expected awake e) x.orderly) x
Step-IsSound {s} (Step.futex_wake_up t va number awake e) x =
    enter-IsSound t _ s awake refl
      (Step-IsOrderly (Step.futex_wake_up t va number awake e) x.orderly) x
Step-IsSound {s} (Step.store t va v awake e) x = record {
  orderly = Step-IsOrderly (Step.store t va v awake e) x.orderly;
  outside = x.outside;
  queues = λ u. has_its_queue-grown (s.place u) s _ (λ a h. h) (x.queues u);
}

pub Reach-IsSound : (words : ℕ → ℕ) {s : System} → Reach (fresh words) s → IsSound s
Reach-IsSound words Reach.here = record {
  orderly = fresh-IsOrderly words;
  outside = λ t h. cc;
  queues = λ t. refl;
}
Reach-IsSound words (Reach.next r step) = Step-IsSound step (Reach-IsSound words r)
