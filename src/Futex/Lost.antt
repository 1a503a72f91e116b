-- ===== src/Futex/Lost.antt =====
-- A wake-up between the check of the word and the queue.
use infos.Prelude.{
  eq-or-ne, ℕ, ◌≡◌, ◌≢◌, refl, ap, ◌∙◌, inl, inr, Bool, true, false, List, [], ◌==◌, arith,
}
use infos.Futex.{
  Place, System, goes, update, advance, Step, Reach, RunsAlone, fresh, user, wait_lock, wait_check,
  wait_unlock, set_lock, queue_wake, wake_lock,
}
use infos.Futex.Sound.{has_queue}
use infos.Futex.Alone.{
  waiters_of, Alone, RunsAlone-Reach, lock_futex-Alone, unlock_futex-Alone, goes-Alone,
}
use infos.Futex.Wakes.{IsAt, Leads, start, then_goes, set_thread_waiting_lem, futex_wake_up_none}
use infos.Futex.Release.{Reach-trans}

-- The check finds what is expected.
wait_check-Alone :
    (b : System) (t va expected : ℕ) (s : System) (p : Place) (asleep : ℕ → Bool) (ws : List ℕ)
    (f l h : Bool)
    → b.words va ≡ expected
    → Alone b t va s p asleep ws f l h
    → Alone b t va (advance t (wait_check va expected) s) (wait_unlock va) asleep ws f l h
unfolding advance
wait_check-Alone b t va expected s p asleep ws f l h e x =
    let same : (s.words va == expected) ≡ true = ground (arith, x.words va) in
    let moved = goes-Alone b t va s p (wait_unlock va) asleep ws f l h x in rw same moved

-- A thread alone finds its word as expected and gives the mutex back.
checked :
    (w va : ℕ) (b : System)
    → IsAt w va (wait_lock va (b.words va)) b
    → Leads b w va (set_lock va) b.asleep (waiters_of va b) false false (has_queue va b)
unfolding advance
checked w va b x =
    let locked =
      then_goes b w va (start w va _ b x) x.awake
        (λ s. lock_futex-Alone b w va s _ (wait_check va (b.words va)) _ _ _ _) in
    let looked =
      then_goes b w va locked x.awake
        (λ s. wait_check-Alone b w va (b.words va) s _ _ _ _ _ _ refl) in
    then_goes b w va looked x.awake (λ s. unlock_futex-Alone b w va s _ (set_lock va) _ _ _ _ _)

-- A lost wake-up. Thread w calls `sys_futex_wait` with its word as it is, and runs to where it is about
-- to be queued; thread s then changes the word and runs the whole of `sys_futex_wake_up`; and thread w
-- goes on into a sleep from which no call is left to wake it, though its word is not what it waits for.
pub record Lost (words : ℕ → ℕ) (w s va v number : ℕ) : Type 0 where
  pub checked : System
  pub after : System
  pub final : System
  pub looks : RunsAlone w (goes w (wait_lock va (words va)) (fresh words)) checked
  pub not_queued : checked.place w ≡ set_lock va
  pub idle : (checked.place s ≡ user) × (checked.asleep s ≡ false)
  pub wakes :
      RunsAlone s
        (goes s (wake_lock va number) (record checked { words = update checked.words va v }))
        after
  pub returned : after.place s ≡ user
  pub goes_on : RunsAlone w after final
  pub sleeps : (final.asleep w ≡ true) × (final.place w ≡ queue_wake)
  pub others : (u : ℕ) → u ≢ w → final.place u ≡ user
  pub still : final.words va ≡ v
  pub reached : Reach (fresh words) final

-- What holds of the states between the runs.
module _ (words : ℕ → ℕ) (w s va v number : ℕ) (differ : w ≢ s) where
  abbrev called : System
  called = goes w (wait_lock va (words va)) (fresh words)

  abbrev Checked : System → Type 0
  Checked c = Alone called w va c (set_lock va) called.asleep [] false false false

  abbrev calling : System → System
  calling c = goes s (wake_lock va number) (record c { words = update c.words va v })

  user_there : (c : System) → Checked c → c.place s ≡ user
  user_there c x = ground (arith, x.others s, differ)

  ready : (c : System) → Checked c → IsAt s va (wake_lock va number) (calling c)
  ready c x = ground (arith, x.asleep_now s)

  ready_again :
      (c : System)
      → Checked c
      → (after : System)
      → Alone
          (calling c)
          s
          va
          after
          user
          (calling c).asleep
          (waiters_of va (calling c))
          false
          false
          false
      → IsAt w va (set_lock va) after
  ready_again c x after x' = ground (arith, x'.others w differ, x'.asleep_now w, x.asleep_now w)

  others_outside :
      (c : System)
      → Checked c
      → (after final : System)
      → Alone
          (calling c)
          s
          va
          after
          user
          (calling c).asleep
          (waiters_of va (calling c))
          false
          false
          false
      → ((u : ℕ) → u ≢ w → final.place u ≡ after.place u)
      → (u : ℕ) → u ≢ w
      → final.place u ≡ user
  others_outside c x after final x' others u n = elim (eq-or-ne u s) [
    | inl e ↦ others u n ∙ ap after.place e ∙ x'.place
    | inr m ↦ others u n ∙ x'.others u m ∙ ground (arith, x.others u n)
  ]

-- For any two threads and any new value of the word there is such a run: `sys_futex_wait` gives the
-- mutex back between the check of its word and the queue, and a wake-up in between is lost.
pub Lost-wake_up :
    (words : ℕ → ℕ) (w s va v number : ℕ) → w ≢ s → words va ≢ v → Lost words w s va v number
Lost-wake_up words w s va v number differ news =
    let c = goes w (wait_lock va (words va)) (fresh words) in
    let call : Step (fresh words) c = Step.futex_wait w va (words va) refl refl in
    let (c', r, x) = checked w va c (grind arith) in
    let out = user_there words w s va v number differ c' x in
    let stored = Step.store s va v (x.asleep_now s) out in
    let called = Step.futex_wake_up s va number (x.asleep_now s) out in
    let b = goes s (wake_lock va number) (record c' { words = update c'.words va v }) in
    let (after, r', x') =
      futex_wake_up_none s va number b (ready words w s va v number differ c' x) (x.found) in
    let (final, r'', x'') =
      set_thread_waiting_lem w va after (ready_again words w s va v number differ c' x after x') in
    record {
      checked = c';
      after = after;
      final = final;
      looks = r;
      not_queued = x.place;
      idle = (out, x.asleep_now s);
      wakes = r';
      returned = x'.place;
      goes_on = r'';
      sleeps = (x''.asleep_now w ∙ ground arith, x''.place);
      others = others_outside words w s va v number differ c' x after final x' x''.others;
      still = x''.words va ∙ x'.words va ∙ ground arith;
      reached =
          Reach-trans
            (Reach.next
              (Reach.next (Reach-trans (Reach.next Reach.here call) (RunsAlone-Reach w c r)) stored)
              called)
            (Reach-trans (RunsAlone-Reach s b r') (RunsAlone-Reach w after r''));
    }
