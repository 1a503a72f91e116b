-- ===== src/Map/Iterator/Loop.antt =====
-- The loop over a map visits its entries.
use infos.Prelude.{
  ℕ, zero, suc, ◌+◌, ◌^◌, ◌<◌, ◌≡◌, refl, ap, ◌∙◌, false, Option, none, some, List, [], ◌∷◌, ◌==◌,
  arith,
}
use infos.LinkedList
use infos.LinkedList.{LinkedList}
use infos.LinkedList.Laws
use infos.Map.{Tree, leaf, node, Map, Colour}
use infos.Map.Contents.{inorder}
use infos.Map.Iterator.{
  Iterator, enqueue_child, visit, advance, begin_at, entries_from, entries, weigh,
}
use infos.Map.Iterator.Queue.{
  IsQueue, load, AreNodes, add_child, AreNodes-add_child, load-add_child, enqueue_child-elems,
  enqueue_child-IsCounted, length-load, now, IsIterator, weigh-append,
}

module _ {ℓ} {V : Type ℓ} where
  -- An `advance` of such a queue takes one entry out of it, or ends if it is empty.
  abbrev Advanced : LinkedList (Tree V) → Type ℓ
  Advanced queue =
      (it : Iterator V) × (advance queue ≡ some it)
      × IsIterator it
      × ((p : ℕ → V → ℕ) → load p queue.elems ≡ now p it.current + load p it.queue.elems)

  visit_lem :
      (c : Colour) (l : Tree V) (k : ℕ) (v : V) (r : Tree V) (queue : LinkedList (Tree V))
      → AreNodes queue.elems
      → Laws.IsCounted queue
      → load (λ k v. 1) (node c l k v r ∷ queue.elems) < 2 ^ 32
      → (it : Iterator V) × (visit (node c l k v r) queue ≡ some it)
        × IsIterator it
        × ((p : ℕ → V → ℕ)
            → load p (node c l k v r ∷ queue.elems) ≡ now p it.current + load p it.queue.elems)
  unfolding visit
  visit_lem c l k v r queue nodes counted bound =
      let left = enqueue_child l queue in
      let elems : (enqueue_child r left).elems ≡ add_child r (add_child l queue.elems) =
        enqueue_child-elems r left ∙ ap (add_child r) (enqueue_child-elems l queue) in
      let taken : (p : ℕ → V → ℕ)
          → load p (node c l k v r ∷ queue.elems) ≡ p k v + load p (enqueue_child r left).elems =
        λ p. omega (
          arith,
          weigh-append p (inorder l) ((k, v) ∷ inorder r),
          load-add_child p r (add_child l queue.elems),
          load-add_child p l queue.elems,
          ap (load p) elems,
        ) in
      (
        record { queue = enqueue_child r left; current = some (k, v) },
        refl,
        record {
          queue = record {
            nodes = rw elems (AreNodes-add_child r _ (AreNodes-add_child l _ nodes));
            counted = enqueue_child-IsCounted r _ (enqueue_child-IsCounted l _ counted);
            bounded = omega (arith, taken (λ k v. 1));
          };
          ended = λ e. cc;
        },
        taken,
      )

  advance_lem :
      (elems : List (Tree V)) (n : ℕ)
      → IsQueue (record { elems = elems; count = n })
      → Advanced (record { elems = elems; count = n })
  unfolding advance LinkedList.is_empty
  advance_lem [] n q = (
    record { queue = record { elems = []; count = n }; current = none },
    ground arith,
    record { queue = q; ended = λ e. refl },
    λ p. refl,
  )
  advance_lem (leaf ∷ ts) n q = absurd q.nodes
  advance_lem (node c l k v r ∷ ts) n q =
      let rest : LinkedList (Tree V) = record { elems = ts; count = LinkedList.dec32 n } in
      let (it, visited, is, taken) =
        visit_lem c l k v r rest q.nodes (Laws.dequeue-IsCounted _ ts n q.counted) q.bounded in
      let some_left : (n == 0) ≡ false =
        ground (
          arith,
          length-load ts q.nodes,
          weigh-append (λ k v. 1) (inorder l) ((k, v) ∷ inorder r),
        ) in
      (it, rw (some_left, Laws.dequeue-cons (node c l k v r) ts n) visited, is, taken)

  abbrev Listed : ℕ → Iterator V → Type ℓ
  Listed fuel it =
      (es : List (ℕ × V)) × (entries_from fuel it ≡ some es)
      × ((p : ℕ → V → ℕ) → weigh p es ≡ now p it.current + load p it.queue.elems)

  entries_from_lem :
      (fuel : ℕ) (queue : LinkedList (Tree V)) (current : Option (ℕ × V))
      → IsIterator (record { queue = queue; current = current })
      → now (λ k v. 1) current + load (λ k v. 1) queue.elems < fuel
      → Listed fuel (record { queue = queue; current = current })
  unfolding entries_from
  entries_from_lem zero queue current is h = absurd (omega arith)
  entries_from_lem (suc fuel) queue none is h =
      ([], refl, λ p. omega (arith, ap (load p) (is.ended refl)))
  entries_from_lem (suc fuel) queue (some (k, v)) is h =
      let (it, moved, is', taken) = advance_lem queue.elems queue.count is.queue in
      let (es, ends, weight) =
        entries_from_lem fuel it.queue it.current is' (omega (arith, taken (λ k v. 1))) in
      ((k, v) ∷ es, rw (moved, ends) refl, λ p. omega (arith, weight p, taken p))

  begin_at_lem :
      (t : Tree V)
      → weigh (λ k v. 1) (inorder t) < 2 ^ 32
      → (it : Iterator V) × (begin_at t ≡ some it)
        × IsIterator it
        × ((p : ℕ → V → ℕ) → weigh p (inorder t) ≡ now p it.current + load p it.queue.elems)
  unfolding begin_at LinkedList.new LinkedList.enqueue LinkedList.append LinkedList.append_node
  begin_at_lem leaf h = (
    record { queue = LinkedList.new; current = none },
    refl,
    record {
      queue = record { nodes = tt; counted = record { counted = refl }; bounded = omega arith };
      ended = λ e. refl;
    },
    λ p. refl,
  )
  begin_at_lem (node c l k v r) h =
      let (it, moved, is, taken) =
        advance_lem (node c l k v r ∷ []) 1
          (record { nodes = tt; counted = record { counted = refl }; bounded = omega arith }) in
      (it, moved, is, λ p. omega (arith, taken p))

-- The loop over a map of less than 2 ^ 32 entries ends, with more fuel than there are entries, and
-- visits the entries of the map, each as often as it stands there: any weight that is given to keys and
-- values sums up to the same over both.
pub entries_lem {ℓ} :
    {V : Type ℓ} (fuel : ℕ) (m : Map V)
    → weigh (λ k v. 1) (inorder m.root) < 2 ^ 32
    → weigh (λ k v. 1) (inorder m.root) < fuel
    → (es : List (ℕ × V)) × (entries fuel m ≡ some es)
      × ((p : ℕ → V → ℕ) → weigh p es ≡ weigh p (inorder m.root))
unfolding entries
entries_lem fuel m h h' =
    let (it, begun, is, weight) = begin_at_lem m.root h in
    let (es, ends, weight') =
      entries_from_lem fuel it.queue it.current is (omega (arith, weight (λ k v. 1))) in
    (es, rw begun ends, λ p. omega (arith, weight p, weight' p))
