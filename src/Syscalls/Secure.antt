-- ===== src/Syscalls/Secure.antt =====
-- Handles of objects: fresh, and of use to the threads of one process only.
use infos.Prelude.{
  ℕ, ◌+◌, ◌^◌, ◌<◌, ◌≡◌, ◌≢◌, refl, sym, ◌∙◌, true, false, Option, some, [], ◌∷◌, ◌++◌, ◌==◌,
  if◌then◌else◌, length, length-set, length-append_one, get_elem?, lt_of_get_elem?, get_elem?-set,
  get_elem?-append_one, set, Bool-cases, some_inverse, inl, inr, arith,
}
use infos.Map.{try_get_value}
use infos.Objects.{Descriptor, register_object, get_object_secure}
use infos.Objects.Laws.{IsManager, register_object_table}
use infos.Syscalls.Handles.{Object, Kernel, register, with_object}

module _ {F : Type 0} where
  -- A handle of a thread for an object in this state.
  abbrev pub Holds : Kernel F → ℕ → ℕ → Object F → Type 0
  Holds k owner h obj =
      (o : ℕ) × (try_get_value k.om.objects h ≡ some (record { owner = owner; object = o }))
      × (get_elem? k.objects o ≡ some obj)

  -- The object manager is sound, and its pointers point to objects.
  pub record IsKernel (k : Kernel F) : Type 0 where
    pub manager : IsManager k.om
    pub inside :
        (h : ℕ) (od : Descriptor)
        → try_get_value k.om.objects h ≡ some od
        → od.object < length k.objects

  pub register_lem :
      (thread : ℕ) (obj : Object F) (k : Kernel F)
      → IsKernel k
      → k.om.next_handle + 1 < 2 ^ 64
      → (k' : Kernel F) × (register thread obj k ≡ some (k.om.next_handle, k'))
        × IsKernel k'
        × (k'.vfs ≡ k.vfs)
        × Holds k' thread k.om.next_handle obj
        × ((owner h : ℕ) (old : Object F) → Holds k owner h old → Holds k' owner h old)
  unfolding register register_object
  register_lem thread obj k is room =
      let (om', done, manager, reads) =
        register_object_table thread (length k.objects) k.om is.manager room in
      let more = get_elem?-append_one k.objects obj in
      let new : get_elem? (k.objects ++ obj ∷ []) (length k.objects) ≡ some obj =
        ground (arith, more (length k.objects)) in
      (
        record k { om = om'; objects = k.objects ++ obj ∷ [] },
        rw done refl,
        record {
          manager = manager;
          inside = λ h od e. registered_inside thread obj k is h od (sym (reads h) ∙ e);
        },
        refl,
        (length k.objects, ground (arith, reads k.om.next_handle), new),
        λ owner h old (o, at, there). (
          o,
          ground (arith, reads h, at, is.manager.fresh h),
          ground (arith, more o, there, lt_of_get_elem? k.objects o there),
        ),
      )
    where
      registered_inside :
          (thread : ℕ) (obj : Object F) (k : Kernel F)
          → IsKernel k
          → (h : ℕ) (od : Descriptor)
          → (if k.om.next_handle == h
              then some (record { owner = thread; object = length k.objects })
              else try_get_value k.om.objects h)
            ≡ some od
          → od.object < length (k.objects ++ obj ∷ [])
      registered_inside thread obj k is h od e = elim (Bool-cases (k.om.next_handle == h)) [
        | inl new ↦
            let same : record { owner = thread; object = length k.objects } ≡ od =
              some_inverse (rw new at e) in
            rw (← same) (omega (arith, length-append_one k.objects obj))
        | inr old ↦
            let before : try_get_value k.om.objects h ≡ some od = rw old at e in
            omega (arith, length-append_one k.objects obj, is.inside h od before)
      ]

  -- A call on the object of a handle. A thread of the process that made the handle gets what the call on
  -- the object returns, and the object in its new state; a thread of another process gets what is
  -- returned without an object, and nothing changes.
  pub with_object_lem :
      {R : Type 0} (process_of : ℕ → ℕ) (absent r : R) (call : Object F → Option (R × Object F))
      (owner thread h : ℕ) (obj obj' : Object F) (k : Kernel F)
      → IsKernel k
      → Holds k owner h obj
      → (process_of owner ≡ process_of thread
          → call obj ≡ some (r, obj')
          → (k' : Kernel F) × (with_object process_of absent call thread h k ≡ some (r, k'))
            × IsKernel k'
            × (k'.om ≡ k.om)
            × Holds k' owner h obj')
        × (process_of owner ≢ process_of thread
            → with_object process_of absent call thread h k ≡ some (absent, k))
  unfolding with_object get_object_secure
  with_object_lem process_of absent r call owner thread h obj obj' k is (o, at, there) = (
    (λ same called.
        let mine : (process_of owner == process_of thread) ≡ true = ground (arith, same) in
        let size = length-set k.objects o obj' in
        (
          record k { objects = set k.objects o obj' },
          rw (with_object, get_object_secure, at, mine, there, called) refl,
          record { manager = is.manager; inside = λ g od e. omega (arith, size, is.inside g od e) },
          refl,
          (o, at, ground (arith, get_elem?-set k.objects o o obj' there)),
        )),
    λ differ.
        let not_mine : (process_of owner == process_of thread) ≡ false = ground (arith, differ) in
        rw (with_object, get_object_secure, at, not_mine) refl,
  )

  -- While handles are left, a new object gets the next handle. A thread of the process that registered it
  -- can call its methods through the handle; for a thread of another process the call returns what it
  -- returns without an object, and nothing changes.
  pub with_object-register :
      {R : Type 0} (process_of : ℕ → ℕ) (absent r : R) (call : Object F → Option (R × Object F))
      (owner thread : ℕ) (obj obj' : Object F) (k : Kernel F)
      → IsKernel k
      → k.om.next_handle + 1 < 2 ^ 64
      → call obj ≡ some (r, obj')
      → (k1 : Kernel F) × (register owner obj k ≡ some (k.om.next_handle, k1))
        × IsKernel k1
        × (process_of owner ≡ process_of thread
            → (k2 : Kernel F) × (with_object process_of absent call thread k.om.next_handle k1
                ≡ some (r, k2))
              × IsKernel k2
              × Holds k2 owner k.om.next_handle obj')
        × (process_of owner ≢ process_of thread
            → with_object process_of absent call thread k.om.next_handle k1 ≡ some (absent, k1))
  with_object-register process_of absent r call owner thread obj obj' k is left called =
      let (k1, registers, is1, _, holds, _) = register_lem owner obj k is left in
      let both =
        with_object_lem process_of absent r call owner thread k.om.next_handle obj obj' k1 is1
          holds in
      (
        k1,
        registers,
        is1,
        (λ same. let (k2, ends, is2, _, holds2) = both.0 same called in (k2, ends, is2, holds2)),
        both.1,
      )
