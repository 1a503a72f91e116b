-- ===== src/Sched/Cfs/Laws.antt =====
-- The completely fair scheduler keeps the interface, and picks an entity that ran least.
use infos.Prelude.{
  ℕ, ◌+◌, ◌-◌, ◌≤◌, ◌<◌, ◌≡◌, refl, ◌%◌, ◌^◌, none, some, List, [], ◌∷◌, ◌==◌, ltb, if◌then◌else◌,
  tally, tally-append, length, arith, Option-cases, inl, inr, Bool-cases, ap,
}
use infos.LinkedList
use infos.LinkedList.{LinkedList}
use infos.LinkedList.Laws.{IsCounted, append-elems, append-IsCounted, remove-IsCounted}
use infos.Sched.{Algorithm}
use infos.Sched.Cfs.{scan, init, add_to_runqueue, remove_from_runqueue, pick_next_entity}
use infos.Sched.Lawful.{IsLawful}

unfoldable pub cfs : Algorithm (LinkedList ℕ)
cfs = record {
  init = init;
  add_to_runqueue = add_to_runqueue;
  remove_from_runqueue = remove_from_runqueue;
  pick_next_entity = pick_next_entity;
}

tally-unlink :
    (i e : ℕ) (xs : List ℕ) {ys : List ℕ}
    → LinkedList.unlink ◌==◌ e xs ≡ some ys
    → tally i xs ≡ tally i ys + (if e == i then 1 else 0)
unfolding LinkedList.unlink
tally-unlink i e [] h = cc
tally-unlink i e (x ∷ xs) {ys} h = elim (Option-cases (LinkedList.unlink ◌==◌ e xs)) [
  | inl gone ↦ ground arith
  | inr (zs, found) ↦ ground (arith, tally-unlink i e xs found)
]

tally-unlink-none : (e : ℕ) (xs : List ℕ) → LinkedList.unlink ◌==◌ e xs ≡ none → tally e xs ≡ 0
unfolding LinkedList.unlink
tally-unlink-none e [] h = refl
tally-unlink-none e (x ∷ xs) h = elim (Option-cases (LinkedList.unlink ◌==◌ e xs)) [
  | inl gone ↦ ground (arith, tally-unlink-none e xs gone)
  | inr (zs, found) ↦ ground arith
]

pub contents-remove_lem :
    (i e : ℕ) (q : LinkedList ℕ)
    → tally i (remove_from_runqueue e q).elems ≡ tally i q.elems - (if e == i then 1 else 0)
unfolding remove_from_runqueue LinkedList.remove
contents-remove_lem i e q = elim (Option-cases (LinkedList.unlink ◌==◌ e q.elems)) [
  | inl gone ↦ ground (arith, tally-unlink-none e q.elems gone)
  | inr (ys, found) ↦ ground (arith, tally-unlink i e q.elems found)
]

pub contents-add_lem :
    (i e : ℕ) (q : LinkedList ℕ)
    → tally i (add_to_runqueue e q).elems ≡ tally i q.elems + (if e == i then 1 else 0)
unfolding add_to_runqueue LinkedList.enqueue
contents-add_lem i e q = rw (append-elems, tally-append) (omega arith)

-- From a candidate the loop ends at an entity, the candidate or one of the rest.
scan_member :
    (runtime : ℕ → ℕ) (b : ℕ) (es : List ℕ)
    → (e : ℕ) × (scan runtime (some b) es ≡ some e) × (0 < tally e (b ∷ es))
unfolding scan
scan_member runtime b [] = (b, refl, ground arith)
scan_member runtime b (x ∷ xs) = elim (Bool-cases (ltb (runtime x) (runtime b))) [
  | inl lt ↦
      let (e, ends, there) = scan_member runtime x xs in (e, rw (lt, scan) ends, ground arith)
  | inr ge ↦
      let (e, ends, there) = scan_member runtime b xs in (e, rw (ge, scan) ends, ground arith)
]

-- No entity of the rest, nor the candidate, ran for a shorter time than the result.
scan_least :
    (runtime : ℕ → ℕ) (b e i : ℕ) (es : List ℕ)
    → scan runtime (some b) es ≡ some e
    → 0 < tally i (b ∷ es)
    → runtime e ≤ runtime i
unfolding scan
scan_least runtime b e i [] h m = ground arith
scan_least runtime b e i (x ∷ xs) h m = elim (Bool-cases (ltb (runtime x) (runtime b))) [
  | inl lt ↦
      let h' : scan runtime (some x) xs ≡ some e = rw (lt, scan) at h in
      ground (arith, scan_least runtime x e i xs h', scan_least runtime x e x xs h')
  | inr ge ↦
      let h' : scan runtime (some b) xs ≡ some e = rw (ge, scan) at h in
      ground (arith, scan_least runtime b e i xs h', scan_least runtime b e b xs h')
]

abbrev pub IsSmallQueue : LinkedList ℕ → Type 0
IsSmallQueue q = length q.elems < 2 ^ 32

pick_cases :
    (runtime : ℕ → ℕ) (xs : List ℕ) (n : ℕ)
    → n ≡ length xs % 2 ^ 32
    → length xs < 2 ^ 32
    → pick_next_entity runtime (record { elems = xs; count = n }) ≡ scan runtime none xs
unfolding pick_next_entity scan LinkedList.first
pick_cases runtime [] n c h = ground arith
pick_cases runtime (x ∷ []) n c h = ground arith
pick_cases runtime (x ∷ y ∷ ys) n c h = ground arith

pub pick-eq-scan :
    (runtime : ℕ → ℕ) (q : LinkedList ℕ)
    → IsCounted q
    → IsSmallQueue q
    → pick_next_entity runtime q ≡ scan runtime none q.elems
pick-eq-scan runtime q c h = pick_cases runtime q.elems q.count c.counted h

pub scan-none : (runtime : ℕ → ℕ) (xs : List ℕ) → scan runtime none xs ≡ none → xs ≡ []
unfolding scan
scan-none runtime [] h = refl
scan-none runtime (x ∷ xs) h = let (e, ends, there) = scan_member runtime x xs in cc (ends)

pub scan-some :
    (runtime : ℕ → ℕ) (xs : List ℕ) (e : ℕ) → scan runtime none xs ≡ some e → 0 < tally e xs
unfolding scan
scan-some runtime [] e h = cc
scan-some runtime (x ∷ xs) e h =
    let (e', ends, there) = scan_member runtime x xs in ground (arith, ends, there)

pub add-IsCounted : (e : ℕ) (q : LinkedList ℕ) → IsCounted q → IsCounted (add_to_runqueue e q)
unfolding add_to_runqueue LinkedList.enqueue
add-IsCounted e q ok = append-IsCounted e q ok

pub remove_from_runqueue-IsCounted :
    (e : ℕ) (q : LinkedList ℕ) → IsCounted q → IsCounted (remove_from_runqueue e q)
unfolding remove_from_runqueue
remove_from_runqueue-IsCounted e q ok = remove-IsCounted ◌==◌ e q ok

unfoldable pub cfs-IsLawful : IsLawful cfs
unfolding cfs
cfs-IsLawful = record {
  contents = λ q. q.elems;
  IsOk = IsCounted;
  IsSmall = IsSmallQueue;
  add-IsOk = add-IsCounted;
  remove-IsOk = remove_from_runqueue-IsCounted;
  contents-add = contents-add_lem;
  contents-remove = contents-remove_lem;
  pick_member = λ runtime q e ok small h.
      scan-some runtime q.elems e (rw (pick-eq-scan runtime q ok small) at h);
  pick_none = λ runtime q i ok small h.
      ap (tally i) (scan-none runtime q.elems (rw (pick-eq-scan runtime q ok small) at h));
}

-- The entity that `pick_next_entity` answers is in the queue, and no entity of the queue ran for a
-- shorter time.
pub pick_next_entity_least :
    (runtime : ℕ → ℕ) (q : LinkedList ℕ) (e i : ℕ)
    → IsCounted q
    → length q.elems < 2 ^ 32
    → pick_next_entity runtime q ≡ some e
    → 0 < tally i q.elems
    → (0 < tally e q.elems) × (runtime e ≤ runtime i)
pick_next_entity_least runtime q e i c h p m =
    let p' : scan runtime none q.elems ≡ some e = rw (pick-eq-scan runtime q c h) at p in
    (scan-some runtime q.elems e p', least q.elems p' m)
  where
    least : (xs : List ℕ) → scan runtime none xs ≡ some e → 0 < tally i xs → runtime e ≤ runtime i
    least [] p m = absurd (omega arith)
    least (x ∷ xs) p m = scan_least runtime x e i xs (unfold scan in p) m
