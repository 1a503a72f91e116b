-- ===== src/Locks/Interrupts.antt =====
-- `IRQLock`: sections with interrupts off.
use infos.Prelude.{◌≡◌, refl, Bool, true, false, some}
use infos.Locks.{IrqLock, lock_irq, unlock_irq}

-- A section under an `IRQLock` runs with interrupts off, also inside another one, and its end brings
-- back what held before it, if the section itself leaves them off.
pub unlock_irq-lock_irq :
    (enabled : Bool)
    → (l : IrqLock) × (lock_irq enabled ≡ some (l, false)) × (unlock_irq l false ≡ some enabled)
unfolding lock_irq unlock_irq
unlock_irq-lock_irq true = (record { were_interrupts_enabled = true }, refl, refl)
unlock_irq-lock_irq false = (record { were_interrupts_enabled = false }, refl, refl)
