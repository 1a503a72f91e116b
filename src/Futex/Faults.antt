-- ===== src/Futex/Faults.antt =====
-- Page faults and `Thread::stop` in the two calls: what is left of the exclusion of the locks, and that a
-- mutex whose holder has left stays locked.
use infos.Prelude.{ℕ, ◌≡◌, refl, ap, ◌∙◌, inl, inr, Bool, true, false, eq-or-ne, Bool-cases, arith}
use infos.Locks.Exclusion.{
  IsGuarded, guarded, Change, keep, take_lock, release, Change-IsGuarded, leave-IsGuarded,
}
use infos.Futex.{
  Place, System, goes, advance, Step, Fault, Happen, fresh, user, wait_lock, wake_lock,
}
use infos.Futex.Exclusion.{
  holds_futex, holds_queue, queue_locked, advance_others, advance-Change_futex,
  advance-Change_queue, IsOrderly, Step-IsOrderly, fresh-IsOrderly,
}

-- Each lock has at most one thread in its section, and is locked while one is there.
pub record IsSafe (s : System) : Type 0 where
  pub futex : IsGuarded s.futex_mutex.locked (λ t. holds_futex (s.place t))
  pub queue : (a : ℕ) → IsGuarded (queue_locked a s) (λ t. holds_queue a (s.place t))

-- A step within a call.
go-IsSafe : (t : ℕ) (s : System) → IsSafe s → IsSafe (advance t (s.place t) s)
go-IsSafe t s x = record {
  futex =
      Change-IsGuarded t _ _ (λ u. holds_futex (s.place u))
        (λ u. holds_futex ((advance t (s.place t) s).place u))
        (λ u h. ap holds_futex (advance_others t (s.place t) s u h))
        (advance-Change_futex t (s.place t) s refl) x.futex;
  queue = λ a.
      Change-IsGuarded t _ _ (λ u. holds_queue a (s.place u))
        (λ u. holds_queue a ((advance t (s.place t) s).place u))
        (λ u h. ap (holds_queue a) (advance_others t (s.place t) s u h))
        (advance-Change_queue a t (s.place t) s refl) (x.queue a);
}

-- A thread goes to a place outside of all sections, and the locks are as they were.
leaves-IsSafe :
    (t : ℕ) (p : Place) (s : System)
    → holds_futex p ≡ false
    → ((a : ℕ) → holds_queue a p ≡ false)
    → IsSafe s
    → IsSafe (goes t p s)
leaves-IsSafe t p s f q x = record {
  futex =
      leave-IsGuarded t _ _ (λ u. holds_futex (s.place u)) (λ u. holds_futex ((goes t p s).place u))
        (λ u h. ground arith) refl (ground arith) x.futex;
  queue = λ a.
      leave-IsGuarded t _ _ (λ u. holds_queue a (s.place u))
        (λ u. holds_queue a ((goes t p s).place u)) (λ u h. ground arith) refl (ground (arith, q a))
        (x.queue a);
}

Step-IsSafe : {s s' : System} → Step s s' → IsSafe s → IsSafe s'
Step-IsSafe {s} (Step.go t awake) x = go-IsSafe t s x
Step-IsSafe {s} (Step.futex_wait t va expected awake e) x =
    leaves-IsSafe t (wait_lock va expected) s refl (λ a. refl) x
Step-IsSafe {s} (Step.futex_wake_up t va number awake e) x =
    leaves-IsSafe t (wake_lock va number) s refl (λ a. refl) x
Step-IsSafe {s} (Step.store t va v awake e) x = record { futex = x.futex; queue = x.queue }

Fault-IsSafe : {s s' : System} → Fault s s' → IsSafe s → IsSafe s'
Fault-IsSafe {s} (Fault.throws t) x = leaves-IsSafe t user s refl (λ a. refl) x
Fault-IsSafe {s} (Fault.stops t) x = record { futex = x.futex; queue = x.queue }

-- What holds after a run: each lock has at most one thread in its section, is locked while one is there,
-- and, if there was no fault, is free while none is.
abbrev pub Keeps : Bool → System → Type 0
Keeps false s = IsOrderly s
Keeps true s = IsSafe s

Keeps-IsSafe : (faulty : Bool) (s : System) → Keeps faulty s → IsSafe s
Keeps-IsSafe false s x = record { futex = guarded x.futex; queue = λ a. guarded (x.queue a) }
Keeps-IsSafe true s x = x

Step-Keeps : (faulty : Bool) {s s' : System} → Step s s' → Keeps faulty s → Keeps faulty s'
Step-Keeps false step x = Step-IsOrderly step x
Step-Keeps true step x = Step-IsSafe step x

-- In every state that the threads of a fresh process reach, where exceptions may leave a call and a stop
-- may end one at any point, each of the process's mutex and the queues' locks has at most one thread in
-- its section, and is locked while a thread is there; after a run with no such fault, it is also free
-- while none is there.
pub Happen-Keeps :
    (words : ℕ → ℕ) {faulty : Bool} {s : System} → Happen (fresh words) faulty s → Keeps faulty s
Happen-Keeps words Happen.here = fresh-IsOrderly words
Happen-Keeps words (Happen.step {faulty = b} r step) = Step-Keeps b step (Happen-Keeps words r)
Happen-Keeps words (Happen.fault {faulty = b} {s' = a} r fault) =
    Fault-IsSafe fault (Keeps-IsSafe b a (Happen-Keeps words r))

-- The mutex of the process is locked, and no thread is in its section.
pub record IsAbandoned (s : System) : Type 0 where
  pub shut : s.futex_mutex.locked ≡ true
  pub nobody : (t : ℕ) → holds_futex (s.place t) ≡ false

Change-abandoned :
    {locked before locked' after : Bool}
    → Change locked before locked' after
    → locked ≡ true
    → before ≡ false
    → (locked' ≡ true) × (after ≡ false)
Change-abandoned (keep same stays) shut out = (same ∙ shut, stays ∙ out)
Change-abandoned (take_lock free now enters) shut out = cc
Change-abandoned (release was now leaves) shut out = cc

enter-IsAbandoned :
    (t : ℕ) (p : Place) (s : System)
    → holds_futex p ≡ false
    → IsAbandoned s
    → IsAbandoned (goes t p s)
enter-IsAbandoned t p s out x = record {
  shut = x.shut;
  nobody = λ u. elim (eq-or-ne u t) [ inl e ↦ ground arith | inr n ↦ ground (arith, x.nobody u) ];
}

Step-IsAbandoned : {s s' : System} → Step s s' → IsAbandoned s → IsAbandoned s'
Step-IsAbandoned {s} (Step.go t awake) x =
    let (shut, out) =
      Change-abandoned (advance-Change_futex t (s.place t) s refl) x.shut (x.nobody t) in
    record {
      shut = shut;
      nobody = λ u. elim (eq-or-ne u t) [
        | inl e ↦ rw e out
        | inr n ↦ ap holds_futex (advance_others t (s.place t) s u n) ∙ x.nobody u
      ];
    }
Step-IsAbandoned {s} (Step.futex_wait t va expected awake e) x =
    enter-IsAbandoned t (wait_lock va expected) s refl x
Step-IsAbandoned {s} (Step.futex_wake_up t va number awake e) x =
    enter-IsAbandoned t (wake_lock va number) s refl x
Step-IsAbandoned {s} (Step.store t va v awake e) x = record { shut = x.shut; nobody = x.nobody }

abandons :
    (t : ℕ) (s : System) → IsSafe s → holds_futex (s.place t) ≡ true → IsAbandoned (goes t user s)
abandons t s x inside = record {
  shut = x.futex.closed t inside;
  nobody = λ u. elim (eq-or-ne u t) [
    | inl e ↦ ground arith
    | inr n ↦ elim (Bool-cases (holds_futex (s.place u))) [
      | inl also ↦ absurd (n (x.futex.one u t also inside))
      | inr out ↦ ground (arith, out)
    ]
  ];
}

Happen-stays :
    {s : System} {faulty : Bool} {s' : System} → IsAbandoned s → Happen s faulty s' → IsAbandoned s'
Happen-stays x Happen.here = x
Happen-stays x (Happen.step r step) = Step-IsAbandoned step (Happen-stays x r)
Happen-stays x (Happen.fault {s' = a} r (Fault.throws u)) =
    enter-IsAbandoned u user a refl (Happen-stays x r)
Happen-stays x (Happen.fault r (Fault.stops u)) =
    let before = Happen-stays x r in record { shut = before.shut; nobody = before.nobody }

-- Once a thread in the section of the mutex has left its call by an exception, as where
-- `sys_futex_wait` reads a word that is not mapped, the mutex is locked for good and no thread is in its
-- section again, whatever the threads of the process do and however the run went before.
pub Happen-IsAbandoned :
    (words : ℕ → ℕ) (t : ℕ) {b b' : Bool} {s s' : System}
    → Happen (fresh words) b s
    → holds_futex (s.place t) ≡ true
    → Happen (goes t user s) b' s'
    → IsAbandoned s'
Happen-IsAbandoned words t {b} {b'} {s} r inside r' =
    Happen-stays (abandons t s (Keeps-IsSafe b s (Happen-Keeps words r)) inside) r'
