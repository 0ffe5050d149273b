-- ===== src/Exercise4/Turns/Limit.antt =====
-- How far the counter goes.
use course_code.Base.{
  ℕ, zero, suc, ◌+◌, ◌-◌, ◌≤◌, ◌<◌, ◌≡◌, refl, inl, inr, List, [], ◌∷◌, arith, Bool-cases, ltb,
}
use course_code.Base.Family.{update, sum, sum-differ, sum-at_most, item-le_sum}
use course_code.Posix.Io.{==_refl}
use course_code.Exercise4.Turns.{
  Pc, head, wait, check, full, test, yield, retry, put, count, unlock, ended, System, advance,
  give_up, Action, run, lock_error, placed, step, schedule, initial, size,
}

-- 1 for a process that has passed the test against SIZE and has not counted since.
abbrev pub passed : Pc → ℕ
passed (test _) = 1
passed (yield _) = 1
passed (retry _) = 1
passed (put _) = 1
passed (count _) = 1
passed _ = 0

passed-le : (p : Pc) → passed p ≤ 1
passed-le (head k) = omega arith
passed-le p = omega arith

-- The processes between the test and the count.
unfoldable pending : (n : ℕ) → (ℕ → Pc) → ℕ
unfolding sum
pending n pc = sum (λ j. passed (pc j)) n

pending-update :
    (n : ℕ) (pc : ℕ → Pc) (i : ℕ) (p : Pc)
    → i < n
    → pending n (update pc i p) + passed (pc i) ≡ pending n pc + passed p
unfolding pending
pending-update n pc i p lt =
    let s =
      sum-differ (λ j. passed (update pc i p j)) (λ j. passed (pc j)) i (λ j ne. ground arith) n
        lt in
    rw (==_refl i) at s

pending-at_most : (n : ℕ) (pc : ℕ → Pc) → pending n pc ≤ n
unfolding pending
pending-at_most n pc = sum-at_most (λ j. passed (pc j)) (λ j. passed-le (pc j)) n

passed-le_pending : (n : ℕ) (pc : ℕ → Pc) (i : ℕ) → i < n → passed (pc i) ≤ pending n pc
unfolding pending
passed-le_pending n pc i lt = item-le_sum (λ j. passed (pc j)) i n lt

pending-initial : (rounds : ℕ → ℕ) (n : ℕ) → pending n (λ i. head (rounds i)) ≡ 0
unfolding pending sum
pending-initial rounds zero = refl
pending-initial rounds (suc n) = omega (arith, pending-initial rounds n)

abbrev Within : (n bound : ℕ) → System → Type 0
Within n bound s = s.mem.counter + pending n s.pc ≤ bound

module _ (n : ℕ) (char : ℕ → ℕ) (bound : ℕ) (enough : size + n ≤ bound + 2) (s : System)
    (within : Within n bound s) (i : ℕ) (lt : i < n) where
  moves : (p : Pc) → pending n (update s.pc i p) + passed (s.pc i) ≡ pending n s.pc + passed p
  moves p = pending-update n s.pc i p lt

  next-Within :
      (p : Pc) → s.pc i ≡ p → Within n bound (placed n char i s (advance i (char i) p s.mem))
  unfolding advance
  next-Within (head zero) e = ground (arith, moves ended)
  next-Within (head (suc k)) e = ground (arith, moves (wait (suc k)))
  next-Within (wait k) e = ground (arith, moves (check k), moves (wait k))
  next-Within (check k) e =
      ground (arith, moves full, moves (test k), pending-at_most n (update s.pc i (test k)))
  next-Within full e = ground (arith, moves ended)
  next-Within (test k) e = ground (arith, moves (yield k), moves (put k))
  next-Within (yield k) e = ground (arith, moves (retry k))
  next-Within (retry k) e = ground (arith, moves (test k), moves (retry k))
  next-Within (put k) e = ground (arith, moves (count k))
  next-Within (count k) e = ground (arith, moves (unlock k))
  next-Within (unlock k) e = ground (arith, pending-update n s.pc i (head (k - 1)) lt)
  next-Within ended e = ground (arith, moves ended)

  quit-Within : (p : Pc) → s.pc i ≡ p → Within n bound (placed n char i s (give_up p s.mem))
  unfolding give_up
  quit-Within (head k) e = ground (arith, moves (head k))
  quit-Within p e = ground (arith, moves ended, moves p)

module _ (n : ℕ) (char : ℕ → ℕ) (bound : ℕ) (enough : size + n ≤ bound + 2) where
  step-Within : (a : Action) (s : System) → Within n bound s → Within n bound (step n char a s)
  unfolding step
  step-Within (run i) s w = elim (Bool-cases (ltb i n)) [
    | inl on ↦ rw on (next-Within n char bound enough s w i (ground arith) (s.pc i) refl)
    | inr off ↦ rw off w
  ]
  step-Within (lock_error i) s w = elim (Bool-cases (ltb i n)) [
    | inl on ↦ rw on (quit-Within n char bound enough s w i (ground arith) (s.pc i) refl)
    | inr off ↦ rw off w
  ]

  schedule-Within :
      (l : List Action) (s : System) → Within n bound s → Within n bound (schedule n char l s)
  unfolding schedule
  schedule-Within [] s w = w
  schedule-Within (a ∷ l) s w = schedule-Within l (step n char a s) (step-Within a s w)

module _ (n : ℕ) (char : ℕ → ℕ) (first : ℕ) (table rounds : ℕ → ℕ) (l : List Action) where
  abbrev reached : System
  reached = schedule n char l (initial first table rounds)

  -- A process that is about to write to the table has an index below SIZE - 2 + n, if the run began
  -- no higher. So with two processes every write falls into the SIZE bytes of the table.
  pub put_in_range :
      first + 2 ≤ size + n
      → (i k : ℕ) → i < n
      → reached.pc i ≡ put k
      → reached.mem.counter + 2 < size + n
  put_in_range start i k lt e =
      let w =
        schedule-Within n char (size + n - 2) (omega arith) l (initial first table rounds)
          (omega (arith, pending-initial rounds n)) in
      let one = passed-le_pending n reached.pc i lt in ground (arith, w, one)
