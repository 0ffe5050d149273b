-- ===== src/Exercise4/Turns/Round.antt =====
-- A round of incr.c that nobody disturbs.
use course_code.Base.{
  ℕ, zero, suc, ◌+◌, ◌-◌, ◌<◌, ◌≡◌, refl, ◌⊎◌, inl, inr, ◌≢◌, true, false, ◌&&◌, not, none,
  replicate, arith, ltb, leb, ◌==◌, ap, ◌∙◌,
}
use course_code.Base.Family.{update}
use course_code.Posix.Io.{==_refl}
use course_code.Exercise4.Turns.{
  size, Shared, Pc, head, System, advance, my_lock_wait, my_lock_release, run, step, schedule,
}

-- `k` steps of a process that runs alone.
abbrev alone : (i c k : ℕ) → Shared × Pc → Shared × Pc
alone i c zero r = r
alone i c (suc k) r = alone i c k (advance i c r.1 r.0)

module _ (n : ℕ) (char : ℕ → ℕ) (i : ℕ) (lt : i < n) where
  step-alone :
      (s : System)
      → let s' = step n char (run i) s in
        let r = advance i (char i) (s.pc i) s.mem in (s'.mem ≡ r.0) × (s'.pc i ≡ r.1)
  unfolding step
  step-alone s = let on : ltb i n ≡ true = ground arith in rw (on, ==_refl i) (refl, refl)

  schedule-alone :
      (k : ℕ) (s : System)
      → let s' = schedule n char (replicate k (run i)) s in
        let r = alone i (char i) k (s.mem, s.pc i) in (s'.mem ≡ r.0) × (s'.pc i ≡ r.1)
  unfolding schedule
  schedule-alone zero s = (refl, refl)
  schedule-alone (suc k) s =
      let (mem, pc) = step-alone s in
      let later = schedule-alone k (step n char (run i) s) in rw (mem, pc) at later

  -- The other processes stay where they are.
  step-other : (s : System) (j : ℕ) → j ≢ i → (step n char (run i) s).pc j ≡ s.pc j
  unfolding step
  step-other s j ne =
      let on : ltb i n ≡ true = ground arith in
      let elsewhere : (i == j) ≡ false = ground arith in rw (on, elsewhere) refl

  pub schedule-other :
      (k : ℕ) (s : System) (j : ℕ) → j ≢ i → (schedule n char (replicate k (run i)) s).pc j ≡ s.pc j
  unfolding schedule
  schedule-other zero s j ne = refl
  schedule-other (suc k) s j ne = schedule-other k (step n char (run i) s) j ne ∙ step-other s j ne

-- The test in front of the write lets the process through.
passes :
    (c : ℕ) (m : Shared)
    → (m.counter ≡ 0) ⊎ (m.table (m.counter - 1) ≢ c)
    → ((m.table (m.counter - 1) == c) && not (m.counter == 0)) ≡ false
passes c m (inl start) = ground arith
passes c m (inr other) = ground arith

round-alone :
    (i c k : ℕ) (m : Shared)
    → m.owner ≡ none
    → m.counter < size - 1
    → (m.counter ≡ 0) ⊎ (m.table (m.counter - 1) ≢ c)
    → alone i c 7 (m, head (suc k)) ≡ (
      record { owner = none; counter = m.counter + 1; table = update m.table m.counter c },
      head k,
    )
unfolding advance my_lock_wait my_lock_release
round-alone i c k m free room turn =
    let below : leb (size - 1) m.counter ≡ false = ground arith in
    let one_less : suc k - 1 ≡ k = omega arith in rw (free, below, passes c m turn, one_less)

-- A process at the head of its loop, with rounds left, that finds the lock free, a counter below
-- SIZE - 1 and behind the character of another, or none: if it alone runs, it has made its round in
-- seven steps. Its character stands at the old counter, the counter is one more, no other place has
-- changed, and the lock is free again.
pub undisturbed_round :
    (n : ℕ) (char : ℕ → ℕ) (i k : ℕ) (s : System)
    → i < n
    → s.pc i ≡ head (suc k)
    → s.mem.owner ≡ none
    → s.mem.counter < size - 1
    → (s.mem.counter ≡ 0) ⊎ (s.mem.table (s.mem.counter - 1) ≢ char i)
    → let s' = schedule n char (replicate 7 (run i)) s in
      (s'.pc i ≡ head k)
      × (s'.mem ≡ record {
        owner = none;
        counter = s.mem.counter + 1;
        table = update s.mem.table s.mem.counter (char i);
      })
undisturbed_round n char i k s lt at_head free room turn =
    let (mem, pc) = schedule-alone n char i lt 7 s in
    let same = ap (λ p. alone i (char i) 7 (s.mem, p)) at_head in
    let done = same ∙ round-alone i (char i) k s.mem free room turn in
    (pc ∙ ap (λ r. r.1) done, mem ∙ ap (λ r. r.0) done)
