-- ===== src/Sched/Lawful.antt =====
-- What the scheduler asks of a scheduling algorithm: a run queue that holds what was added and not
-- removed, and a choice from it.
use infos.Prelude.{ℕ, ◌+◌, ◌-◌, ◌<◌, ◌≡◌, none, some, List, ◌==◌, if◌then◌else◌, tally}
use infos.Sched.{Algorithm}

pub record IsLawful {Q : Type 0} (algorithm : Algorithm Q) : Type 1 where
  -- The entities of a queue, its well-formedness, and that it is not too long to be counted.
  pub contents : Q → List ℕ
  pub IsOk : Q → Type 0
  pub IsSmall : Q → Type 0
  pub add-IsOk : (e : ℕ) (q : Q) → IsOk q → IsOk (algorithm.add_to_runqueue e q)
  pub remove-IsOk : (e : ℕ) (q : Q) → IsOk q → IsOk (algorithm.remove_from_runqueue e q)
  pub contents-add :
      (i e : ℕ) (q : Q)
      → tally i (contents (algorithm.add_to_runqueue e q))
        ≡ tally i (contents q) + (if e == i then 1 else 0)
  pub contents-remove :
      (i e : ℕ) (q : Q)
      → tally i (contents (algorithm.remove_from_runqueue e q))
        ≡ tally i (contents q) - (if e == i then 1 else 0)
  pub pick_member :
      (runtime : ℕ → ℕ) (q : Q) (e : ℕ)
      → IsOk q
      → IsSmall q
      → algorithm.pick_next_entity runtime q ≡ some e
      → 0 < tally e (contents q)
  pub pick_none :
      (runtime : ℕ → ℕ) (q : Q) (i : ℕ)
      → IsOk q
      → IsSmall q
      → algorithm.pick_next_entity runtime q ≡ none
      → tally i (contents q) ≡ 0
