-- ===== src/Objects/Tests.antt =====
-- The object manager at a concrete input.
use infos.Prelude.{ℕ, ◌≡◌, none, some, ◌==◌, if◌then◌else◌, arith}
use infos.Map.{try_get_value}
use infos.Objects.{ObjectManager, new_manager, register_object, get_object_secure}
use infos.Objects.Laws.{IsManager, new_manager-IsManager, register_object_lem}

-- Thread 5 registers an object; two threads make a process.
register_object_lem_example :
    (om : ObjectManager) × (register_object 5 700 new_manager ≡ some (1, om))
    × IsManager om
    × (try_get_value new_manager.objects 1 ≡ none)
    × ((process_of : ℕ → ℕ) (thread h : ℕ)
        → get_object_secure process_of thread h om ≡ (
            if 1 == h
            then (if process_of 5 == process_of thread then some 700 else none)
            else get_object_secure process_of thread h new_manager))
register_object_lem_example =
    register_object_lem 5 700 new_manager new_manager-IsManager (omega arith)
