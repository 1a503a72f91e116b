-- ===== src/Devices/Tests.antt =====
-- Devices at concrete tables.
use infos.Prelude.{
  ℕ, zero, suc, ◌+◌, ◌%◌, ◌^◌, ◌≡◌, ◌≢◌, refl, Bool, true, Option, some, none, List, [], ◌∷◌,
  get_elem?, ◌==◌, if◌then◌else◌, arith,
}
use infos.Map
use infos.Map.{Map, try_get_value, node, leaf, black}
use infos.Map.Laws
use infos.Map.Laws.{empty-IsValid}
use infos.Devices.{
  DeviceClass, DeviceManager, is_class, name_for, hash_of, register_device, try_get_device_by_name,
  try_get_device_by_class,
}
use infos.LinkedList
use infos.Map.Iterator.{entries}
use infos.Devices.Search.{IsHierarchy, IsAnswer, try_get_device_by_class_lem}
use infos.Devices.Names.{register_device_lem}

-- "tty" under the root class.
abbrev tty : DeviceClass
tty = record { parent = some 0; name = 116 ∷ 116 ∷ 121 ∷ []; instance_nr = 3 }

abbrev classes : List DeviceClass
classes = record { parent = none; name = []; instance_nr = 0 } ∷ tty ∷ []

abbrev no_devices : DeviceManager
no_devices = record { devices = Map.empty; classes = classes; names = λ d. [] }

is_class_root : is_class 3 classes 1 0 ≡ some true
unfolding is_class
is_class_root = refl

abbrev class_of : ℕ → ℕ
class_of d = 1

-- Device 7 registers its child 8; all others succeed at once.
abbrev init : ℕ → DeviceManager → Option (Bool × DeviceManager)
init d dm =
    if d == 7 then register_device class_of (λ c dm'. some (true, dm')) 8 dm else some (true, dm)

register_device_lem_example :
    (dm' : DeviceManager) × (register_device class_of init 7 no_devices ≡ init 7 dm')
    × Laws.IsValid dm'.devices
    × (dm'.names 7 ≡ name_for tty.name 3)
    × (try_get_device_by_name (dm'.names 7) dm' ≡ some 7)
    × ((other : List ℕ)
        → hash_of other ≢ hash_of (dm'.names 7)
        → try_get_device_by_name other dm' ≡ try_get_device_by_name other no_devices)
    × (get_elem? dm'.classes 1 ≡ some (record tty { instance_nr = (tty.instance_nr + 1) % 2 ^ 64 }))
register_device_lem_example = register_device_lem class_of init 7 tty no_devices empty-IsValid refl

-- One device, of the class.
abbrev one_device : DeviceManager
one_device = record {
  devices = record { root = node black leaf 5 7 leaf; count = 1 };
  classes = classes;
  names = λ d. [];
}

one_device-IsValid : Laws.IsValid one_device.devices
one_device-IsValid = record {
  sorted = omega arith;
  no_red_red = (refl, tt, tt);
  balanced = (refl, tt, tt);
  root_black = refl;
  counted = refl;
}

search-root : try_get_device_by_class 3 class_of 0 one_device ≡ some (some 7)
unfolding try_get_device_by_class entries LinkedList.new LinkedList.is_empty LinkedList.enqueue
    LinkedList.dequeue
search-root = refl

classes-IsHierarchy : IsHierarchy (λ c. c) classes
classes-IsHierarchy zero class p e above = cc
classes-IsHierarchy (suc zero) class p e above = ground arith
classes-IsHierarchy (suc (suc c)) class p e above = cc

try_get_device_by_class_lem_example :
    (found : Option ℕ) × (try_get_device_by_class 3 class_of 0 one_device ≡ some found)
    × IsAnswer 3 class_of 0 one_device found
try_get_device_by_class_lem_example =
    try_get_device_by_class_lem (λ c. c) 3 class_of 0 one_device classes-IsHierarchy
      one_device-IsValid (λ d. omega arith) (λ d. omega arith) (omega arith) (omega arith)
