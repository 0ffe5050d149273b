-- ===== src/Exercise4/Turns/Order.antt =====
-- The lock is held by one process at a time, and no character follows itself in the table.
use course_code.Base.{
  ℕ, zero, suc, ◌+◌, ◌-◌, ◌≤◌, ◌<◌, ◌≡◌, refl, ◌≢◌, ◌⊎◌, inl, inr, Bool, true, false, some, List,
  [], ◌∷◌, arith, Bool-cases, ltb,
}
use course_code.Exercise4.Turns.{
  Shared, Pc, head, wait, retry, put, count, ended, System, advance, give_up, Action, run,
  lock_error, placed, step, schedule, initial,
}

-- Between the return of `my_lock_wait` and the release.
abbrev pub holds : Pc → Bool
holds (head _) = false
holds (wait _) = false
holds (retry _) = false
holds ended = false
holds _ = true

-- What a process knows about the table while it holds the lock.
abbrev pub Knows : ℕ → Pc → Shared → Type 0
Knows c (put k) m = (m.counter ≡ 0) ⊎ (m.table (m.counter - 1) ≢ c)
Knows c (count k) m = (m.table m.counter ≡ c) × ((m.counter ≡ 0) ⊎ (m.table (m.counter - 1) ≢ c))
Knows c _ m = Unit

pub record Inv (n : ℕ) (char : ℕ → ℕ) (first : ℕ) (s : System) : Type 0 where
  pub holder : (i : ℕ) → i < n → holds (s.pc i) ≡ true → s.mem.owner ≡ some i
  pub knows : (i : ℕ) → i < n → Knows (char i) (s.pc i) s.mem
  pub grown : first ≤ s.mem.counter
  pub differ : (j : ℕ) → first ≤ j + 1 → j + 1 < s.mem.counter → s.mem.table j ≢ s.mem.table (j + 1)

module _ {n : ℕ} {char : ℕ → ℕ} {first : ℕ} {s : System} (inv : Inv n char first s) (i : ℕ)
    (lt : i < n) where
  open inv use {holder, knows, grown, differ}

  abbrev next : Pc → System
  next p = placed n char i s (advance i (char i) p s.mem)

  next-holder :
      (p : Pc)
      → s.pc i ≡ p
      → (j : ℕ) → j < n
      → holds ((next p).pc j) ≡ true
      → (next p).mem.owner ≡ some j
  unfolding advance
  next-holder (head zero) e j lj h = ground (arith, holder j, holder i)
  next-holder (head (suc k)) e j lj h = ground (arith, holder j, holder i)
  next-holder p e j lj h = ground (arith, holder j, holder i)

  next-Knows : (p : Pc) → s.pc i ≡ p → (j : ℕ) → j < n → Knows (char j) ((next p).pc j) (next p).mem
  unfolding advance
  next-Knows (head zero) e j lj = ground (arith, holder j, holder i, knows j, knows i)
  next-Knows (head (suc k)) e j lj = ground (arith, holder j, holder i, knows j, knows i)
  next-Knows p e j lj = ground (arith, holder j, holder i, knows j, knows i)

  next-differ :
      (p : Pc)
      → s.pc i ≡ p
      → (j : ℕ) → first ≤ j + 1
      → j + 1 < (next p).mem.counter
      → (next p).mem.table j ≢ (next p).mem.table (j + 1)
  unfolding advance
  next-differ (head zero) e j lo hi = ground (arith, differ j, knows i)
  next-differ (head (suc k)) e j lo hi = ground (arith, differ j, knows i)
  next-differ p e j lo hi = ground (arith, differ j, knows i)

  next-grown : (p : Pc) → first ≤ (next p).mem.counter
  unfolding advance
  next-grown (head zero) = ground arith
  next-grown (head (suc k)) = ground arith
  next-grown p = ground arith

  next-Inv : Inv n char first (next (s.pc i))
  next-Inv = record {
    holder = next-holder (s.pc i) refl;
    knows = next-Knows (s.pc i) refl;
    grown = next-grown (s.pc i);
    differ = next-differ (s.pc i) refl;
  }

  abbrev quit : Pc → System
  quit p = placed n char i s (give_up p s.mem)

  quit-holder :
      (p : Pc)
      → s.pc i ≡ p
      → (j : ℕ) → j < n
      → holds ((quit p).pc j) ≡ true
      → (quit p).mem.owner ≡ some j
  unfolding give_up
  quit-holder (head k) e j lj h = ground (arith, holder j, holder i)
  quit-holder p e j lj h = ground (arith, holder j, holder i)

  quit-Knows : (p : Pc) → s.pc i ≡ p → (j : ℕ) → j < n → Knows (char j) ((quit p).pc j) (quit p).mem
  unfolding give_up
  quit-Knows (head k) e j lj = ground (arith, holder j, holder i, knows j, knows i)
  quit-Knows p e j lj = ground (arith, holder j, holder i, knows j, knows i)

  quit-grown : (p : Pc) → first ≤ (quit p).mem.counter
  unfolding give_up
  quit-grown (head k) = ground arith
  quit-grown p = ground arith

  quit-differ :
      (p : Pc)
      → (j : ℕ) → first ≤ j + 1
      → j + 1 < (quit p).mem.counter
      → (quit p).mem.table j ≢ (quit p).mem.table (j + 1)
  unfolding give_up
  quit-differ (head k) j lo hi = ground (arith, differ j)
  quit-differ p j lo hi = ground (arith, differ j)

  quit-Inv : Inv n char first (quit (s.pc i))
  quit-Inv = record {
    holder = quit-holder (s.pc i) refl;
    knows = quit-Knows (s.pc i) refl;
    grown = quit-grown (s.pc i);
    differ = quit-differ (s.pc i);
  }

module _ {n : ℕ} {char : ℕ → ℕ} {first : ℕ} where
  pub step-Inv : (a : Action) (s : System) → Inv n char first s → Inv n char first (step n char a s)
  unfolding step
  step-Inv (run i) s inv = elim (Bool-cases (ltb i n)) [
    | inl on ↦ rw on (next-Inv inv i (ground arith))
    | inr off ↦ rw off inv
  ]
  step-Inv (lock_error i) s inv = elim (Bool-cases (ltb i n)) [
    | inl on ↦ rw on (quit-Inv inv i (ground arith))
    | inr off ↦ rw off inv
  ]

  schedule-Inv :
      (l : List Action) (s : System) → Inv n char first s → Inv n char first (schedule n char l s)
  unfolding schedule
  schedule-Inv [] s inv = inv
  schedule-Inv (a ∷ l) s inv = schedule-Inv l (step n char a s) (step-Inv a s inv)

  pub initial-Inv : (table rounds : ℕ → ℕ) → Inv n char first (initial first table rounds)
  initial-Inv table rounds = record {
    holder = λ i lt h. cc;
    knows = λ i lt. tt;
    grown = omega arith;
    differ = λ j lo hi. absurd (omega arith);
  }

module _ (n : ℕ) (char : ℕ → ℕ) (first : ℕ) (table rounds : ℕ → ℕ) (l : List Action) where
  abbrev reached : System
  reached = schedule n char l (initial first table rounds)

  reached-Inv : Inv n char first reached
  reached-Inv = schedule-Inv l (initial first table rounds) (initial-Inv table rounds)

  -- However the `n` processes are scheduled, and whichever calls of `fcntl` fail: two processes
  -- that stand between `my_lock_wait` and the release are the same.
  pub mutual_exclusion :
      (i j : ℕ) → i < n → j < n → holds (reached.pc i) ≡ true → holds (reached.pc j) ≡ true → i ≡ j
  mutual_exclusion i j li lj hi hj =
      let a = reached-Inv.holder i li hi in let b = reached-Inv.holder j lj hj in cc

  -- However the processes are scheduled: from the place on where the run began to write, no two
  -- neighbours in the table up to the counter are the same character.
  pub no_repetition :
      (j : ℕ)
      → first ≤ j + 1
      → j + 1 < reached.mem.counter
      → reached.mem.table j ≢ reached.mem.table (j + 1)
  no_repetition = reached-Inv.differ
