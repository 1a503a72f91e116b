-- ===== src/Locks/Exclusion.antt =====
-- How one thread's step may change a lock and who is in its section, and that such steps keep at most
-- one thread there.
use infos.Prelude.{eq-or-ne, ℕ, ◌≡◌, ◌≢◌, sym, ◌∙◌, inl, inr, Bool, true, false, Bool-cases}

-- `inside` says which threads are between taking the lock and giving it back.
pub record IsExclusive (locked : Bool) (inside : ℕ → Bool) : Type 0 where
  pub one : (t u : ℕ) → inside t ≡ true → inside u ≡ true → t ≡ u
  pub closed : (t : ℕ) → inside t ≡ true → locked ≡ true
  pub held : locked ≡ true → (t : ℕ) × (inside t ≡ true)

-- The part of it that is kept where a thread may leave without giving the lock back.
pub record IsGuarded (locked : Bool) (inside : ℕ → Bool) : Type 0 where
  pub one : (t u : ℕ) → inside t ≡ true → inside u ≡ true → t ≡ u
  pub closed : (t : ℕ) → inside t ≡ true → locked ≡ true

pub guarded :
    {locked : Bool} {inside : ℕ → Bool} → IsExclusive locked inside → IsGuarded locked inside
guarded x = record { one = x.one; closed = x.closed }

-- What a step of thread t does to a lock.
pub data Change (locked before : Bool) (locked' after : Bool) : Type 0 where
  keep : locked' ≡ locked → after ≡ before → Change locked before locked' after
  take_lock : locked ≡ false → locked' ≡ true → after ≡ true → Change locked before locked' after
  release : before ≡ true → locked' ≡ false → after ≡ false → Change locked before locked' after

module _ (t : ℕ) (locked locked' : Bool) (inside inside' : ℕ → Bool)
    (others : (u : ℕ) → u ≢ t → inside' u ≡ inside u) where
  as_before : inside' t ≡ inside t → (u : ℕ) → inside' u ≡ inside u
  as_before stays u = elim (eq-or-ne u t) [ inl e ↦ rw e stays | inr n ↦ others u n ]

  keep-IsGuarded :
      locked' ≡ locked → inside' t ≡ inside t → IsGuarded locked inside → IsGuarded locked' inside'
  keep-IsGuarded same stays x = record {
    one = λ u v p q. x.one u v (sym (as_before stays u) ∙ p) (sym (as_before stays v) ∙ q);
    closed = λ u p. same ∙ x.closed u (sym (as_before stays u) ∙ p);
  }

  take-IsGuarded :
      locked ≡ false → locked' ≡ true → IsGuarded locked inside → IsGuarded locked' inside'
  take-IsGuarded free now x = record {
    one = λ u v p q. only u p ∙ sym (only v q);
    closed = λ u p. now;
  }
    where
      only : (u : ℕ) → inside' u ≡ true → u ≡ t
      only u p = elim (eq-or-ne u t) [
        | inl e ↦ e
        | inr n ↦ let shut = x.closed u (sym (others u n) ∙ p) in cc
      ]

  release-IsGuarded :
      inside t ≡ true → inside' t ≡ false → IsGuarded locked inside → IsGuarded locked' inside'
  release-IsGuarded was leaves x = record {
    one = λ u v p q. absurd (nobody u p);
    closed = λ u p. absurd (nobody u p);
  }
    where
      nobody : (u : ℕ) → inside' u ≡ true → ⊥
      nobody u p = elim (eq-or-ne u t) [
        | inl e ↦ let p' : inside' t ≡ true = rw (← e) p in cc
        | inr n ↦ n (x.one u t (sym (others u n) ∙ p) was)
      ]

  pub Change-IsGuarded :
      Change locked (inside t) locked' (inside' t)
      → IsGuarded locked inside
      → IsGuarded locked' inside'
  Change-IsGuarded (keep same stays) x = keep-IsGuarded same stays x
  Change-IsGuarded (take_lock free now enters) x = take-IsGuarded free now x
  Change-IsGuarded (release was now leaves) x = release-IsGuarded was leaves x

  -- Thread t is outside afterwards, and the lock as it was.
  pub leave-IsGuarded :
      locked' ≡ locked → inside' t ≡ false → IsGuarded locked inside → IsGuarded locked' inside'
  leave-IsGuarded same leaves x = record {
    one = λ u v p q. x.one u v (was u p) (was v q);
    closed = λ u p. same ∙ x.closed u (was u p);
  }
    where
      was : (u : ℕ) → inside' u ≡ true → inside u ≡ true
      was u p = elim (eq-or-ne u t) [
        | inl e ↦ let p' : inside' t ≡ true = rw (← e) p in cc
        | inr n ↦ sym (others u n) ∙ p
      ]

  Change-held :
      Change locked (inside t) locked' (inside' t)
      → IsExclusive locked inside
      → locked' ≡ true
      → (u : ℕ) × (inside' u ≡ true)
  Change-held (keep same stays) x p =
      let (u, is) = x.held (sym same ∙ p) in (u, as_before stays u ∙ is)
  Change-held (take_lock free now enters) x p = (t, enters)
  Change-held (release was now leaves) x p = cc

  pub Change-IsExclusive :
      Change locked (inside t) locked' (inside' t)
      → IsExclusive locked inside
      → IsExclusive locked' inside'
  Change-IsExclusive change x =
      let g = Change-IsGuarded change (guarded x) in
      record { one = g.one; closed = g.closed; held = Change-held change x }

-- Once the thread that was inside has left, the lock is free.
pub free_of_left :
    (t : ℕ) (locked locked' : Bool) (inside inside' : ℕ → Bool)
    → ((u : ℕ) → u ≢ t → inside' u ≡ inside u)
    → IsExclusive locked inside
    → IsExclusive locked' inside'
    → inside t ≡ true
    → inside' t ≡ false
    → locked' ≡ false
free_of_left t locked locked' inside inside' others x x' was left = elim (Bool-cases locked') [
  | inl shut ↦
      let (u, is) = x'.held shut in
      elim (eq-or-ne u t) [
        | inl e ↦ let is' : inside' t ≡ true = rw (← e) is in cc
        | inr n ↦ absurd (n (x.one u t (sym (others u n) ∙ is) was))
      ]
  | inr free ↦ free
]
