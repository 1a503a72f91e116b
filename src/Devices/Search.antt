-- ===== src/Devices/Search.antt =====
-- The search for a device of a class.
use infos.Prelude.{
  ℕ, zero, suc, Bool, refl, get_elem?, length, get_elem?_of_lt, ◌^◌, ◌<◌, ◌≡◌, sym, ◌∙◌, true,
  false, Option, none, some, List, [], ◌∷◌, ◌==◌, ◌&&◌, if◌then◌else◌, Bool-cases, Option-cases,
  inl, inr, arith,
}
use infos.Map.{try_get_value}
use infos.Map.Laws
use infos.Map.Contents.{inorder, lookup, find_node-eq-lookup}
use infos.Map.Iterator.{weigh}
use infos.Map.Iterator.Loop.{entries_lem}
use infos.Devices.{DeviceClass, DeviceManager, is_class, first_of_class, try_get_device_by_class}

-- A device and a key, once for each time that they stand together.
abbrev pick : ℕ → ℕ → ℕ → ℕ → ℕ
pick h d k v = if k == h && v == d then 1 else 0

lookup-weigh : (h d : ℕ) (xs : List (ℕ × ℕ)) → lookup h xs ≡ some d → 0 < weigh (pick h d) xs
unfolding lookup
lookup-weigh h d [] e = cc
lookup-weigh h d ((k, v) ∷ xs) e = ground (arith, lookup-weigh h d xs, e)

module _ (fuel : ℕ) (classes : List DeviceClass) (class_of : ℕ → ℕ) (type : ℕ) where
  first_of_class-none :
      (xs : List (ℕ × ℕ))
      → first_of_class fuel classes class_of type xs ≡ some none
      → (h d : ℕ) → 0 < weigh (pick h d) xs
      → is_class fuel classes (class_of d) type ≡ some false
  unfolding first_of_class
  first_of_class-none [] e h d more = absurd (omega arith)
  first_of_class-none ((k, v) ∷ xs) e h d more =
      elim (Option-cases (is_class fuel classes (class_of v) type)) [
        | inl endless ↦ ground (arith, e)
        | inr (true, is) ↦ ground (arith, e)
        | inr (false, is) ↦
            let further : first_of_class fuel classes class_of type xs ≡ some none =
              ground (arith, e) in
            elim (Bool-cases (k == h && v == d)) [
              | inl here ↦ let same : v ≡ d = ground (arith, here) in rw (← same) is
              | inr other ↦ first_of_class-none xs further h d (ground (arith, other))
            ]
      ]

  first_of_class-some :
      (xs : List (ℕ × ℕ)) (d : ℕ)
      → first_of_class fuel classes class_of type xs ≡ some (some d)
      → (is_class fuel classes (class_of d) type ≡ some true)
        × ((h : ℕ) × (0 < weigh (pick h d) xs))
  unfolding first_of_class
  first_of_class-some [] d e = cc
  first_of_class-some ((k, v) ∷ xs) d e =
      elim (Option-cases (is_class fuel classes (class_of v) type)) [
        | inl endless ↦ ground (arith, e)
        | inr (true, is) ↦
            let same : v ≡ d = ground (arith, e) in (rw (← same) is, (k, ground (arith, same)))
        | inr (false, is) ↦
            let (found, (h, more)) = first_of_class-some xs d (ground (arith, e)) in
            (found, (h, omega arith))
      ]

-- The parent of a class is a class too, and stands nearer to the root.
abbrev pub IsHierarchy : (ℕ → ℕ) → List DeviceClass → Type 0
IsHierarchy depth classes =
    (c : ℕ) (class : DeviceClass) (p : ℕ)
    → get_elem? classes c ≡ some class
    → class.parent ≡ some p
    → (depth p < depth c) × (p < length classes)

is_class_total :
    (depth : ℕ → ℕ) (fuel : ℕ) (classes : List DeviceClass) (c type : ℕ)
    → IsHierarchy depth classes
    → c < length classes
    → depth c < fuel
    → (b : Bool) × (is_class fuel classes c type ≡ some b)
unfolding is_class
is_class_total depth zero classes c type up known enough = absurd (omega arith)
is_class_total depth (suc fuel) classes c type up known enough = elim (Bool-cases (c == type)) [
  | inl same ↦ (true, rw (is_class, same) refl)
  | inr other ↦
      let (class, at) = get_elem?_of_lt classes c known in
      let (b, e) =
        above class class.parent refl at
          (λ p lower there. is_class_total depth fuel classes p type up there (omega arith)) in
      (b, rw (is_class, other, at) e)
]
  where
    above :
        (class : DeviceClass) (o : Option ℕ)
        → class.parent ≡ o
        → get_elem? classes c ≡ some class
        → ((p : ℕ)
            → depth p < depth c
            → p < length classes
            → (b : Bool) × (is_class fuel classes p type ≡ some b))
        → (b : Bool) × ((elim class.parent [
          | none ↦ some false
          | some p ↦ is_class fuel classes p type
        ])
            ≡ some b)
    above class none root at next = (false, rw root refl)
    above class (some p) parent at next =
        let (lower, there) = up c class p at parent in
        let (b, e) = next p lower there in (b, rw parent e)

first_of_class_total :
    (depth : ℕ → ℕ) (fuel : ℕ) (classes : List DeviceClass) (class_of : ℕ → ℕ) (type : ℕ)
    (xs : List (ℕ × ℕ))
    → IsHierarchy depth classes
    → ((d : ℕ) → class_of d < length classes)
    → ((d : ℕ) → depth (class_of d) < fuel)
    → (found : Option ℕ) × (first_of_class fuel classes class_of type xs ≡ some found)
unfolding first_of_class
first_of_class_total depth fuel classes class_of type [] up known enough = (none, refl)
first_of_class_total depth fuel classes class_of type ((k, d) ∷ xs) up known enough =
    let (b, is) = is_class_total depth fuel classes (class_of d) type up (known d) (enough d) in
    let (found, rest) = first_of_class_total depth fuel classes class_of type xs up known enough in
    choose b found is rest
  where
    choose :
        (b : Bool) (found : Option ℕ)
        → is_class fuel classes (class_of d) type ≡ some b
        → first_of_class fuel classes class_of type xs ≡ some found
        → (o : Option ℕ) × (first_of_class fuel classes class_of type ((k, d) ∷ xs) ≡ some o)
    choose true found is rest = (some d, rw is refl)
    choose false found is rest = (found, rw is rest)

-- What the search answers: no device, where none in the table is of the class, or one of the class that
-- stands in the table.
abbrev pub IsAnswer : ℕ → (ℕ → ℕ) → ℕ → DeviceManager → Option ℕ → Type 0
IsAnswer fuel class_of type dm none =
    (h d : ℕ)
    → try_get_value dm.devices h ≡ some d
    → is_class fuel dm.classes (class_of d) type ≡ some false
IsAnswer fuel class_of type dm (some d) =
    (is_class fuel dm.classes (class_of d) type ≡ some true)
    × ((h : ℕ) × (0 < weigh (λ k v. if k == h && v == d then 1 else 0) (inorder dm.devices.root)))

-- On a valid table of less than 2 ^ 32 devices, and classes whose parents lead up to the root, a search by
-- class ends, with enough fuel for the table and the chains: with no device, where it has looked at every
-- registered device and none is of the class, or with a device of the class that stands in the table.
pub try_get_device_by_class_lem :
    (depth : ℕ → ℕ) (fuel : ℕ) (class_of : ℕ → ℕ) (type : ℕ) (dm : DeviceManager)
    → IsHierarchy depth dm.classes
    → Laws.IsValid dm.devices
    → ((d : ℕ) → class_of d < length dm.classes)
    → ((d : ℕ) → depth (class_of d) < fuel)
    → weigh (λ k v. 1) (inorder dm.devices.root) < 2 ^ 32
    → weigh (λ k v. 1) (inorder dm.devices.root) < fuel
    → (found : Option ℕ) × (try_get_device_by_class fuel class_of type dm ≡ some found)
      × IsAnswer fuel class_of type dm found
unfolding try_get_device_by_class try_get_value
try_get_device_by_class_lem depth fuel class_of type dm up valid known deep small enough =
    let (all, listed, weight) = entries_lem fuel dm.devices small enough in
    let (found, searched) =
      first_of_class_total depth fuel dm.classes class_of type all up known deep in
    (found, rw listed searched, answer all weight found searched)
  where
    answer :
        (all : List (ℕ × ℕ))
        → ((f : ℕ → ℕ → ℕ) → weigh f all ≡ weigh f (inorder dm.devices.root))
        → (found : Option ℕ) → first_of_class fuel dm.classes class_of type all ≡ some found
        → IsAnswer fuel class_of type dm found
    answer all weight none searched = λ h d there.
        first_of_class-none fuel dm.classes class_of type all searched h d (
          omega (
            arith,
            weight (pick h d),
            lookup-weigh h d (inorder dm.devices.root)
                (sym (find_node-eq-lookup h dm.devices.root valid.sorted) ∙ there),
          ))
    answer all weight (some d) searched =
        let (of_class, (h, more)) =
          first_of_class-some fuel dm.classes class_of type all d searched in
        (of_class, (h, omega (arith, weight (pick h d))))
