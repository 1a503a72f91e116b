-- ===== src/Locks.antt =====
-- util/lock.cpp and include/infos/util/lock.h: `Mutex` and `IRQLock`. A thread is a number; the
-- processor's state is whether its interrupts are enabled.
pub mod Exclusion
pub mod Interrupts
use infos.Prelude.{
  ℕ, Bool, true, false, not, ◌&&◌, Option, none, some, ◌==◌, if◌then◌else◌, ◌>>◌, assert,
}

pub record Mutex : Type 0 where
  pub locked : Bool
  pub owner : ℕ

abbrev pub new_mutex : Mutex
new_mutex = record { locked = false; owner = 0 }

-- A round of `lock`: the old value that `__sync_lock_test_and_set` gives, and the mutex. Where the
-- value was 0 the loop ends and the thread becomes the owner; else the thread yields and tries again.
unfoldable pub try_lock : ℕ → Mutex → Bool × Mutex
try_lock thread m =
    if m.locked
    then (true, record m { locked = true })
    else (false, record { locked = true; owner = thread })

abbrev pub unlock : Mutex → Mutex
unlock m = record m { locked = false }

unfoldable pub locked_by_me : ℕ → Mutex → Bool
locked_by_me current m = m.locked && m.owner == current

-- `IRQLock`: its field, and the processor before and after. `none` is a failed assertion.
pub record IrqLock : Type 0 where
  pub were_interrupts_enabled : Bool

unfoldable pub lock_irq : Bool → Option (IrqLock × Bool)
lock_irq enabled =
    let after = if enabled then false else enabled in
    assert (not after) >> some (record { were_interrupts_enabled = enabled }, after)

unfoldable pub unlock_irq : IrqLock → Bool → Option Bool
unlock_irq l enabled = if l.were_interrupts_enabled then assert true >> some true else some enabled
