-- ===== src/Sched/Cfs.antt =====
-- kernel/sched-cfs.cpp: `CompletelyFairScheduler`, over the linked list. The interrupt lock around
-- its two writers makes each of them one step.
pub mod Laws
use infos.Prelude.{
  ℕ, zero, suc, ◌+◌, ◌≤◌, ◌≡◌, refl, Bool, Option, none, some, List, [], ◌∷◌, ◌==◌, ltb, true,
  if◌then◌else◌,
}
use infos.LinkedList
use infos.LinkedList.{LinkedList}

-- The test of the loop: the first entity, or one that ran for a shorter time.
abbrev is_better : (ℕ → ℕ) → Option ℕ → ℕ → Bool
is_better runtime none e = true
is_better runtime (some best) e = ltb (runtime e) (runtime best)

-- `min_runtime_entity`, after the loop over the rest of the queue. `min_runtime` is its run time.
unfoldable pub scan : (ℕ → ℕ) → Option ℕ → List ℕ → Option ℕ
scan runtime best [] = best
scan runtime best (e ∷ es) = scan runtime (if is_better runtime best e then some e else best) es

unfoldable pub init : LinkedList ℕ → LinkedList ℕ
init runqueue = runqueue

unfoldable pub add_to_runqueue : ℕ → LinkedList ℕ → LinkedList ℕ
add_to_runqueue e runqueue = LinkedList.enqueue e runqueue

unfoldable pub remove_from_runqueue : ℕ → LinkedList ℕ → LinkedList ℕ
remove_from_runqueue e runqueue = LinkedList.remove ◌==◌ e runqueue

unfoldable pub pick_next_entity : (ℕ → ℕ) → LinkedList ℕ → Option ℕ
unfolding scan
pick_next_entity runtime runqueue =
    if runqueue.count == 0
    then none
    else if runqueue.count == 1
    then LinkedList.first runqueue
    else scan runtime none runqueue.elems
