-- ===== src/Futex.antt =====
-- `sys_futex_wait` and `sys_futex_wake_up` of kernel/syscall.cpp, `set_thread_waiting` and
-- `wake_up_threads` of include/infos/kernel/process.h, and util/wakequeue.cpp, as the threads of one
-- process run them: `Place` says where a thread stands, `advance` what it does next, and `Step` lets
-- any thread that is awake go on. `Fault` is what page faults and Thread::stop do to a thread in a call.
-- The map from addresses to queues is a function.
pub mod Exclusion
pub mod Sound
pub mod Release
pub mod Faults
pub mod Progress
pub mod Alone
pub mod Wakes
pub mod Lost
mod Tests
use infos.Prelude.{
  ℕ, zero, suc, ◌+◌, ◌%◌, ◌^◌, ◌<◌, ◌≡◌, Bool, true, false, Option, none, some, List, [], ◌∷◌, ◌++◌,
  ltb, ◌==◌, if◌then◌else◌,
}
use infos.Locks.{Mutex, new_mutex, try_lock, unlock}

pub record WakeQueue : Type 0 where
  pub waiters : List ℕ
  pub lock : Mutex

abbrev pub new_queue : WakeQueue
new_queue = record { waiters = []; lock = new_mutex }

-- Where a thread stands in a system call; `user` is outside of them. The `set_` and `queue_` places are
-- those of `set_thread_waiting` and of the methods of `WakeQueue`.
pub data Place : Type 0 where
  user : Place
  wait_lock : ℕ → ℕ → Place
  wait_check : ℕ → ℕ → Place
  wait_unlock : ℕ → Place
  wait_leave : Place
  set_lock : ℕ → Place
  set_find : ℕ → Place
  set_unlock : ℕ → Place
  queue_lock : ℕ → Place
  queue_append : ℕ → Place
  queue_unlock : ℕ → Place
  queue_sleep : Place
  queue_wake : Place
  wake_lock : ℕ → ℕ → Place
  wake_find : ℕ → ℕ → Place
  wake_queue_lock : ℕ → ℕ → Place
  wake_loop : ℕ → ℕ → Place
  wake_queue_unlock : ℕ → Place
  wake_unlock : Place

pub record System : Type 0 where
  pub futex_mutex : Mutex
  pub queues : ℕ → Option WakeQueue
  pub words : ℕ → ℕ
  pub place : ℕ → Place
  pub asleep : ℕ → Bool

abbrev pub update {ℓ} : {A : Type ℓ} → (ℕ → A) → ℕ → A → ℕ → A
update f a b c = if c == a then b else f c

abbrev pub goes : ℕ → Place → System → System
goes t p s = record s { place = update s.place t p }

-- What `int n` holds of a `uint64_t`: the rounds that the loop of `wakeMax` admits, none if n is
-- negative.
unfoldable pub rounds : ℕ → ℕ
rounds number = if ltb (number % 2 ^ 32) (2 ^ 31) then number % 2 ^ 32 else 0

-- `process.lock()`, to go on at p.
unfoldable pub lock_futex : ℕ → Place → System → System
unfolding try_lock
lock_futex t p s =
    let (old, m) = try_lock t s.futex_mutex in
    if old then record s { futex_mutex = m } else goes t p (record s { futex_mutex = m })

abbrev pub unlock_futex : ℕ → Place → System → System
unlock_futex t p s = goes t p (record s { futex_mutex = unlock s.futex_mutex })

-- The queue of an address becomes another one.
abbrev pub put_queue : ℕ → WakeQueue → System → System
put_queue va q s = record s { queues = update s.queues va (some q) }

-- `_lock.lock()` of the queue. There is a queue wherever this is called.
unfoldable pub lock_queue : ℕ → ℕ → Place → System → System
unfolding try_lock
lock_queue t va p s = elim (s.queues va) [
  | none ↦ s
  | some q ↦
      let (old, m) = try_lock t q.lock in
      let s' = put_queue va (record q { lock = m }) s in if old then s' else goes t p s'
]

-- A change of the queue's fields.
unfoldable pub on_queue : ℕ → ℕ → Place → (WakeQueue → WakeQueue) → System → System
on_queue t va p f s = elim (s.queues va) [ none ↦ s | some q ↦ goes t p (put_queue va (f q) s) ]

-- `contains_key` and `add`.
unfoldable pub find_queue : ℕ → System → System
find_queue va s = elim (s.queues va) [ none ↦ put_queue va new_queue s | some q ↦ s ]

-- `sleep` of a thread: it goes on, out of its call, only once it has been woken up.
unfoldable pub sleep : ℕ → System → System
sleep t s = goes t queue_wake (record s { asleep = update s.asleep t true })

unfoldable pub wake_up : ℕ → System → System
wake_up t s = record s { asleep = update s.asleep t false }

-- A round of the loop of `wakeMax`.
unfoldable pub wake_round : ℕ → ℕ → ℕ → System → System
unfolding wake_up
wake_round t va zero s = goes t (wake_queue_unlock va) s
wake_round t va (suc n) s = elim (s.queues va) [
  | none ↦ s
  | some q ↦ elim q.waiters [
    | [] ↦ goes t (wake_queue_unlock va) s
    | w ∷ rest ↦ goes t (wake_loop va n) (wake_up w (put_queue va (record q { waiters = rest }) s))
  ]
]

-- What thread t does next.
unfoldable pub advance : ℕ → Place → System → System
unfolding lock_futex lock_queue on_queue find_queue sleep wake_round
advance t user s = s
advance t (wait_lock va expected) s = lock_futex t (wait_check va expected) s
advance t (wait_check va expected) s =
    goes t (if s.words va == expected then wait_unlock va else wait_leave) s
advance t (wait_unlock va) s = unlock_futex t (set_lock va) s
advance t wait_leave s = unlock_futex t user s
advance t (set_lock va) s = lock_futex t (set_find va) s
advance t (set_find va) s = goes t (set_unlock va) (find_queue va s)
advance t (set_unlock va) s = unlock_futex t (queue_lock va) s
advance t (queue_lock va) s = lock_queue t va (queue_append va) s
advance t (queue_append va) s =
    on_queue t va (queue_unlock va) (λ q. record q { waiters = q.waiters ++ t ∷ [] }) s
advance t (queue_unlock va) s = on_queue t va queue_sleep (λ q. record q { lock = unlock q.lock }) s
advance t queue_sleep s = sleep t s
advance t queue_wake s = goes t user s
advance t (wake_lock va number) s = lock_futex t (wake_find va number) s
advance t (wake_find va number) s =
    goes t (elim (s.queues va) [ none ↦ wake_unlock | some q ↦ wake_queue_lock va (rounds number) ])
      s
advance t (wake_queue_lock va n) s = lock_queue t va (wake_loop va n) s
advance t (wake_loop va n) s = wake_round t va n s
advance t (wake_queue_unlock va) s =
    on_queue t va wake_unlock (λ q. record q { lock = unlock q.lock }) s
advance t wake_unlock s = unlock_futex t user s

-- A step of the process: an awake thread goes on, calls one of the two, or writes a word.
pub data Step (s : System) : System → Type 0 where
  go : (t : ℕ) → s.asleep t ≡ false → Step s (advance t (s.place t) s)
  futex_wait :
      (t va expected : ℕ)
      → s.asleep t ≡ false
      → s.place t ≡ user
      → Step s (goes t (wait_lock va expected) s)
  futex_wake_up :
      (t va number : ℕ)
      → s.asleep t ≡ false
      → s.place t ≡ user
      → Step s (goes t (wake_lock va number) s)
  store :
      (t va v : ℕ)
      → s.asleep t ≡ false
      → s.place t ≡ user
      → Step s (record s { words = update s.words va v })

pub data Reach (s : System) : System → Type 0 where
  here : Reach s s
  next : {s' s'' : System} → Reach s s' → Step s' s'' → Reach s s''

-- Thread t goes on while no other thread does, and calls nothing new.
pub data RunsAlone (t : ℕ) (s : System) : System → Type 0 where
  here : RunsAlone t s s
  next :
      {s' : System}
      → RunsAlone t s s'
      → s'.asleep t ≡ false
      → RunsAlone t s (advance t (s'.place t) s')

-- What else may happen: the handler of a page fault throws an exception, as where `sys_futex_wait` reads
-- its word, or `Thread::stop` throws one, and the thread leaves its call as it stands; or
-- `Thread::stop` leaves the thread asleep where it stands.
pub data Fault (s : System) : System → Type 0 where
  throws : (t : ℕ) → Fault s (goes t user s)
  stops : (t : ℕ) → Fault s (record s { asleep = update s.asleep t true })

-- A run with any faults, and whether there was one.
pub data Happen (s : System) : Bool → System → Type 0 where
  here : Happen s false s
  step : {faulty : Bool} {s' s'' : System} → Happen s faulty s' → Step s' s'' → Happen s faulty s''
  fault : {faulty : Bool} {s' s'' : System} → Happen s faulty s' → Fault s' s'' → Happen s true s''

-- All threads outside, no queue.
abbrev pub fresh : (ℕ → ℕ) → System
fresh words = record {
  futex_mutex = new_mutex;
  queues = λ va. none;
  words = words;
  place = λ t. user;
  asleep = λ t. false;
}
