-- ===== src/Devices/Names.antt =====
-- Registered devices are found by their names, and the names of a class differ.
use infos.Prelude.{
  ℕ, ◌+◌, ◌%◌, ◌^◌, ◌<◌, ◌≡◌, ◌≢◌, sym, ap, ◌∙◌, Bool, Option, some, List, [], ◌∷◌, ◌++◌, get_elem?,
  set, get_elem?-set, arith,
}
use infos.Map.Laws
use infos.Map.Laws.{add_refines, try_get_value-add}
use infos.Strings.{to_string}
use infos.Strings.Cells.{to_string_lem}
use infos.Printf.Numbers.{read_numeral}
use infos.Devices.{
  DeviceClass, DeviceManager, acquire_instance, name_for, hash_of, rename, register_device,
  try_get_device_by_name,
}

to_string_injective : (v w : ℕ) → v < 2 ^ 32 → w < 2 ^ 32 → to_string v ≡ to_string w → v ≡ w
to_string_injective v w h h' e =
    sym (to_string_lem v h).0 ∙ ap (read_numeral 10 0) e ∙ (to_string_lem w h').0

append_injective : (xs ys zs : List ℕ) → xs ++ ys ≡ xs ++ zs → ys ≡ zs
append_injective [] ys zs e = e
append_injective (x ∷ xs) ys zs e = append_injective xs ys zs (cc)

-- Two instances of a class, below 2 ^ 32, have different names.
pub name_for_injective :
    (class_name : List ℕ) (i j : ℕ)
    → i < 2 ^ 32
    → j < 2 ^ 32
    → i ≢ j
    → name_for class_name i ≢ name_for class_name j
unfolding name_for
name_for_injective class_name i j h h' differ e =
    let digits = append_injective class_name _ _ e in
    let same = to_string_injective (i % 2 ^ 32) (j % 2 ^ 32) (omega arith) (omega arith) digits in
    differ (omega (arith, same))

-- Registering a device of a class, in a valid table, ends with what the device's init does to a manager,
-- and so without a fault of its own. In that manager the device has a name, of its class and the class's
-- next instance, under which it is found; other hashes find what they found before, and the class hands
-- out the next instance.
pub register_device_lem :
    (class_of : ℕ → ℕ) (init : ℕ → DeviceManager → Option (Bool × DeviceManager)) (device : ℕ)
    (class : DeviceClass) (dm : DeviceManager)
    → Laws.IsValid dm.devices
    → get_elem? dm.classes (class_of device) ≡ some class
    → (dm' : DeviceManager) × (register_device class_of init device dm ≡ init device dm')
      × Laws.IsValid dm'.devices
      × (dm'.names device ≡ name_for class.name class.instance_nr)
      × (try_get_device_by_name (dm'.names device) dm' ≡ some device)
      × ((other : List ℕ)
          → hash_of other ≢ hash_of (dm'.names device)
          → try_get_device_by_name other dm' ≡ try_get_device_by_name other dm)
      × (get_elem? dm'.classes (class_of device)
          ≡ some (record class { instance_nr = (class.instance_nr + 1) % 2 ^ 64 }))
unfolding register_device acquire_instance try_get_device_by_name
register_device_lem class_of init device class dm valid e =
    let name = name_for class.name class.instance_nr in
    let (devices, ends, valid', _) = add_refines dm.devices (hash_of name) device valid in
    let reads = λ (j : ℕ). try_get_value-add dm.devices (hash_of name) j device valid ends in
    let next : DeviceClass = record class { instance_nr = (class.instance_nr + 1) % 2 ^ 64 } in
    let named : rename dm.names device name device ≡ name = ground arith in
    (
      record {
        devices = devices;
        classes = set dm.classes (class_of device) next;
        names = rename dm.names device name;
      },
      simp (e, ends),
      valid',
      named,
      rw named (ground (arith, reads (hash_of name))),
      λ other differ. ground (arith, reads (hash_of other), ap hash_of named, differ),
      ground (arith, get_elem?-set dm.classes (class_of device) (class_of device) next e),
    )
