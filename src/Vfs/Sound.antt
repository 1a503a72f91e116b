-- ===== src/Vfs/Sound.antt =====
-- The nodes of a file system tree refer to nodes that are there, and every step keeps it so.
use infos.Prelude.{
  ℕ, ◌+◌, ◌≤◌, ◌<◌, ◌≡◌, some, [], ◌∷◌, ◌++◌, ◌==◌, if◌then◌else◌, length, get_elem?, set,
  get_elem?-set, get_elem?-append_one, length-append_one, length-set, Bool-cases, inl, inr, arith,
}
use infos.Map
use infos.Map.{Map, try_get_value}
use infos.Map.Laws
use infos.Map.Laws.{add_refines, try_get_value-add, empty-IsValid}
use infos.Vfs.{PfsNode, root_node, temp_node, device_root, device_node, VfsNode, Vfs, new_pnode}

-- A table of numbers below a bound.
pub record IsTable (bound : ℕ) (table : Map ℕ) : Type 0 where
  pub valid : Laws.IsValid table
  pub inside : (h c : ℕ) → try_get_value table h ≡ some c → c < bound

pub IsTable-grown : (n n' : ℕ) (table : Map ℕ) → n ≤ n' → IsTable n table → IsTable n' table
IsTable-grown n n' table h x = record {
  valid = x.valid;
  inside = λ k c e. omega (arith, x.inside k c e);
}

pub empty-IsTable : (n : ℕ) → IsTable n Map.empty
unfolding Map.empty try_get_value
empty-IsTable n = record { valid = empty-IsValid; inside = λ h c e. cc }

pub add-IsTable :
    (n k c : ℕ) (table : Map ℕ)
    → c < n
    → IsTable n table
    → (table' : Map ℕ) × (Map.add table k c ≡ some table')
      × IsTable n table'
      × ((j : ℕ) → try_get_value table' j ≡ (if k == j then some c else try_get_value table j))
add-IsTable n k c table h x =
    let (table', ends, valid, _) = add_refines table k c x.valid in
    let reads = λ (j : ℕ). try_get_value-add table k j c x.valid ends in
    (
      table',
      ends,
      record { valid = valid; inside = λ j d e. ground (arith, reads j, x.inside j d, e) },
      reads,
    )

-- The tables of a node of the file systems, where there are np of them.
abbrev pub IsPfsNode : ℕ → PfsNode → Type 0
IsPfsNode np root_node = Unit {0}
IsPfsNode np (temp_node own children) = IsTable np children
IsPfsNode np device_root = Unit {0}
IsPfsNode np (device_node dev) = Unit {0}

pub record IsVfsNode (nv np : ℕ) (node : VfsNode) : Type 0 where
  pub table : IsTable nv node.children
  pub over : (p : ℕ) → node.pn ≡ some p → p < np

pub record IsVfs (s : Vfs) : Type 0 where
  pub root : 0 < length s.vnodes
  pub vnode :
      (v : ℕ) (node : VfsNode)
      → get_elem? s.vnodes v ≡ some node
      → IsVfsNode (length s.vnodes) (length s.pnodes) node
  pub pnode : (p : ℕ) (n : PfsNode) → get_elem? s.pnodes p ≡ some n → IsPfsNode (length s.pnodes) n

IsPfsNode-grown : (n n' : ℕ) (node : PfsNode) → n ≤ n' → IsPfsNode n node → IsPfsNode n' node
IsPfsNode-grown n n' root_node h x = tt
IsPfsNode-grown n n' (temp_node own children) h x = IsTable-grown n n' children h x
IsPfsNode-grown n n' device_root h x = tt
IsPfsNode-grown n n' (device_node dev) h x = tt

IsVfsNode-grown :
    (nv nv' np np' : ℕ) (node : VfsNode)
    → nv ≤ nv'
    → np ≤ np'
    → IsVfsNode nv np node
    → IsVfsNode nv' np' node
IsVfsNode-grown nv nv' np np' node h h' x = record {
  table = IsTable-grown nv nv' node.children h x.table;
  over = λ p e. omega (arith, x.over p e);
}

pub new_pnode-IsVfs :
    (n : PfsNode) (s : Vfs) → IsPfsNode (length s.pnodes + 1) n → IsVfs s → IsVfs (new_pnode n s)
new_pnode-IsVfs n s x v =
    let more : length (s.pnodes ++ n ∷ []) ≡ length s.pnodes + 1 = length-append_one s.pnodes n in
    record {
      root = v.root;
      vnode =
          λ u node e. IsVfsNode-grown _ _ _ _ node (omega arith) (omega arith) (v.vnode u node e);
      pnode = λ p m e. rw more (elim (Bool-cases (p == length s.pnodes)) [
        | inl new ↦
            let same : n ≡ m = ground (arith, get_elem?-append_one s.pnodes n p, e) in rw (← same) x
        | inr old ↦
            IsPfsNode-grown _ _ m (omega arith)
              (v.pnode p m (ground (arith, get_elem?-append_one s.pnodes n p, e)))
      ]);
    }

-- Another node in the place of one, with the same number of nodes.
pub put_pnode-IsVfs :
    (p : ℕ) (n old : PfsNode) (s : Vfs)
    → get_elem? s.pnodes p ≡ some old
    → IsPfsNode (length s.pnodes) n
    → IsVfs s
    → IsVfs (record s { pnodes = set s.pnodes p n })
put_pnode-IsVfs p n old s e x v =
    let same_length = length-set s.pnodes p n in
    record {
      root = v.root;
      vnode =
          λ u node e'. IsVfsNode-grown _ _ _ _ node (omega arith) (omega arith) (v.vnode u node e');
      pnode = λ q m e'. rw same_length (elim (Bool-cases (p == q)) [
        | inl here ↦
            let same : n ≡ m = ground (arith, get_elem?-set s.pnodes p q n e, e') in rw (← same) x
        | inr other ↦ v.pnode q m (ground (arith, get_elem?-set s.pnodes p q n e, e'))
      ]);
    }

pub put_vnode-IsVfs :
    (u : ℕ) (n old : VfsNode) (s : Vfs)
    → get_elem? s.vnodes u ≡ some old
    → IsVfsNode (length s.vnodes) (length s.pnodes) n
    → IsVfs s
    → IsVfs (record s { vnodes = set s.vnodes u n })
put_vnode-IsVfs u n old s e x v =
    let same_length = length-set s.vnodes u n in
    record {
      root = rw same_length v.root;
      vnode = λ w m e'. rw same_length (elim (Bool-cases (u == w)) [
        | inl here ↦
            let same : n ≡ m = ground (arith, get_elem?-set s.vnodes u w n e, e') in rw (← same) x
        | inr other ↦ v.vnode w m (ground (arith, get_elem?-set s.vnodes u w n e, e'))
      ]);
      pnode = v.pnode;
    }

pub new_vnode-IsVfs :
    (n : VfsNode) (s : Vfs)
    → IsVfsNode (length s.vnodes + 1) (length s.pnodes) n
    → IsVfs s
    → IsVfs (record s { vnodes = s.vnodes ++ n ∷ [] })
new_vnode-IsVfs n s x v =
    let more : length (s.vnodes ++ n ∷ []) ≡ length s.vnodes + 1 = length-append_one s.vnodes n in
    record {
      root = omega arith;
      vnode = λ w m e. rw more (elim (Bool-cases (w == length s.vnodes)) [
        | inl new ↦
            let same : n ≡ m = ground (arith, get_elem?-append_one s.vnodes n w, e) in rw (← same) x
        | inr old ↦
            IsVfsNode-grown _ _ _ _ m (omega arith) (omega arith)
              (v.vnode w m (ground (arith, get_elem?-append_one s.vnodes n w, e)))
      ]);
      pnode = v.pnode;
    }
