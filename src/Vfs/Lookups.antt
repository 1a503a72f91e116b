-- ===== src/Vfs/Lookups.antt =====
-- Looking a path up is total and stable: what was found once is found again, whatever was looked up or
-- made since.
use infos.Prelude.{
  ℕ, ◌<◌, ◌≡◌, refl, ◌∙◌, true, Option, none, some, List, [], ◌∷◌, ltb, length, parts_of,
  some_inverse, Option-cases, inl, inr, arith,
}
use infos.Vfs.{Vfs, lookup_node}
use infos.Vfs.Paths.{leading, walk, lookup_node-walk}
use infos.Vfs.Sound.{IsVfs}
use infos.Vfs.Children.{Grown, Keeps, Keeps-Grown, get_child_kept, get_child_lem}

-- No name of 256 characters or more.
abbrev pub AreShort : List (List ℕ) → Type 0
AreShort [] = Unit {0}
AreShort (name ∷ names) = (length name < 256) × AreShort names

-- From v the names lead to c over children that are kept.
abbrev pub KeepsPath : ℕ → List (List ℕ) → ℕ → Vfs → Type 0
KeepsPath v [] c s = v ≡ c
KeepsPath v (name ∷ names) c s =
    (d : ℕ) × (ltb (length name) 256 ≡ true) × Keeps v name d s × KeepsPath d names c s

KeepsPath-Grown :
    (v : ℕ) (names : List (List ℕ)) (c : ℕ) (s s' : Vfs)
    → Grown s s'
    → KeepsPath v names c s
    → KeepsPath v names c s'
KeepsPath-Grown v [] c s s' g k = k
KeepsPath-Grown v (name ∷ names) c s s' g (d, short, k, rest) =
    (d, short, Keeps-Grown v name d s s' g k, KeepsPath-Grown d names c s s' g rest)

walk_kept :
    (v : ℕ) (names : List (List ℕ)) (c : ℕ) (s : Vfs)
    → KeepsPath v names c s
    → walk v names s ≡ some (some c, s)
unfolding walk
walk_kept v [] c s k = rw k refl
walk_kept v (name ∷ names) c s (d, short, k, rest) =
    rw (short, get_child_kept v name d s k) (walk_kept d names c s rest)

pub Grown-trans : (s s' s'' : Vfs) → Grown s s' → Grown s' s'' → Grown s s''
Grown-trans s s' s'' f g v node e =
    let (node', e', same, more) = f v node e in
    let (node'', e'', same', more') = g v node' e' in
    (node'', e'', same' ∙ same, λ h c k. more' h c (more h c k))

-- What a walk leaves, where it gives r.
pub record Walked (v : ℕ) (names : List (List ℕ)) (s : Vfs) (r : Option ℕ) (s' : Vfs) : Type 0 where
  pub sound : IsVfs s'
  pub inside : (c : ℕ) → r ≡ some c → c < length s'.vnodes
  pub grown : Grown s s'
  pub kept : (c : ℕ) → r ≡ some c → KeepsPath v names c s'

walk_lem :
    (names : List (List ℕ)) (v : ℕ) (s : Vfs)
    → IsVfs s
    → v < length s.vnodes
    → AreShort names
    → (r : Option ℕ) × (s' : Vfs) × (walk v names s ≡ some (r, s')) × Walked v names s r s'
unfolding walk
walk_lem [] v s x h short = (
  some v,
  s,
  refl,
  record {
    sound = x;
    inside = λ c e. rw (← some_inverse e) h;
    grown = λ u node e. (node, e, refl, λ k c q. q);
    kept = λ c e. some_inverse e;
  },
)
walk_lem (name ∷ names) v s x h short =
    let (r, s1, ends, given) = get_child_lem v name s x h in
    let fits : ltb (length name) 256 ≡ true = ground arith in
    elim (Option-cases r) [
      | inl nothing ↦ (
        none,
        s1,
        rw (fits, ends, nothing) refl,
        record { sound = given.sound; inside = λ c e. cc; grown = given.grown; kept = λ c e. cc },
      )
      | inr (d, found) ↦
          let (r', s', ends', walked) =
            walk_lem names d s1 given.sound (given.inside d found) short.1 in
          (
            r',
            s',
            rw (fits, ends, found) ends',
            record {
              sound = walked.sound;
              inside = walked.inside;
              grown = Grown-trans s s1 s' given.grown walked.grown;
              kept = λ c e. (
                d,
                fits,
                Keeps-Grown v name d s1 s' walked.grown (given.kept d found),
                walked.kept c e,
              );
            },
          )
    ]

-- On sound nodes the look-up of a path whose names have less than 256 characters ends without a fault
-- and keeps the nodes sound. A node that it finds is there, and the same look-up finds it again, with no
-- change, in this state and in every later one in which no table lost an entry.
pub lookup_node_lem :
    (path : List ℕ) (s : Vfs)
    → IsVfs s
    → AreShort (leading (parts_of 47 path))
    → (r : Option ℕ) × (s' : Vfs) × (lookup_node (47 ∷ path) s ≡ some (r, s'))
      × IsVfs s'
      × Grown s s'
      × ((c : ℕ) (later : Vfs)
          → r ≡ some c
          → Grown s' later
          → (c < length s'.vnodes) × (lookup_node (47 ∷ path) later ≡ some (some c, later)))
lookup_node_lem path s x short =
    let (r, s', ends, walked) = walk_lem (leading (parts_of 47 path)) 0 s x x.root short in
    (
      r,
      s',
      (lookup_node-walk path s).0 ∙ ends,
      walked.sound,
      walked.grown,
      λ c later e g. (
        walked.inside c e,
        (lookup_node-walk path later).0
            ∙ walk_kept 0 _ c later (KeepsPath-Grown 0 _ c s' later g (walked.kept c e)),
      ),
    )
