-- ===== src/Exercise4/Turns/Authors.antt =====
-- Whose characters stand in the table.
use course_code.Base.{
  ℕ, zero, suc, ◌+◌, ◌≤◌, ◌<◌, ◌≡◌, inl, inr, Bool-cases, Option-cases, false, List, [], ◌∷◌, arith,
  ltb, ◌==◌,
}
use course_code.Exercise4.Turns.{
  Shared, Pc, head, wait, check, full, test, yield, retry, put, count, unlock, ended, System,
  advance, my_lock_wait, my_lock_release, give_up, Action, run, lock_error, step, schedule, initial,
}
use course_code.Exercise4.Turns.Order.{Inv, Knows, step-Inv, initial-Inv, no_repetition}

-- Each place from `first` to the counter holds the character of one of the processes.
abbrev pub Signed : (n : ℕ) → (char : ℕ → ℕ) → (first : ℕ) → Shared → Type 0
Signed n char first m =
    (j : ℕ) → first ≤ j → j < m.counter → (i : ℕ) × (i < n) × (m.table j ≡ char i)

module _ (n : ℕ) (char : ℕ → ℕ) (first : ℕ) where
  lock-Signed :
      (i : ℕ) (here next : Pc) (m : Shared)
      → Signed n char first m
      → Signed n char first (my_lock_wait i here next m).0
  unfolding my_lock_wait
  lock-Signed i here next m h = elim (Option-cases m.owner) [
    | inl free ↦ rw free h
    | inr (_, taken) ↦ rw taken h
  ]

  advance-Signed :
      (i : ℕ)
      → i < n
      → (p : Pc) (m : Shared) → Knows (char i) p m
      → Signed n char first m
      → Signed n char first (advance i (char i) p m).0
  unfolding advance my_lock_release
  advance-Signed i lt (head zero) m k h = h
  advance-Signed i lt (head (suc r)) m k h = h
  advance-Signed i lt (wait r) m k h = lock-Signed i (wait r) (check r) m h
  advance-Signed i lt (check r) m k h = h
  advance-Signed i lt full m k h = h
  advance-Signed i lt (test r) m k h = h
  advance-Signed i lt (yield r) m k h = h
  advance-Signed i lt (retry r) m k h = lock-Signed i (retry r) (test r) m h
  advance-Signed i lt (put r) m k h =
      λ j lo hi. let elsewhere : (m.counter == j) ≡ false = ground arith in rw elsewhere (h j lo hi)
  advance-Signed i lt (count r) m (written, k) h = λ j lo hi. elim (Bool-cases (j == m.counter)) [
    | inl last ↦ (i, lt, ground (arith, written))
    | inr below ↦ h j lo (ground arith)
  ]
  advance-Signed i lt (unlock r) m k h = h
  advance-Signed i lt ended m k h = h

  give_up-Signed :
      (p : Pc) (m : Shared) → Signed n char first m → Signed n char first (give_up p m).0
  unfolding give_up
  give_up-Signed (head r) m h = h
  give_up-Signed p m h = h

  step-Signed :
      (a : Action) (s : System)
      → Inv n char first s
      → Signed n char first s.mem
      → Signed n char first (step n char a s).mem
  unfolding step
  step-Signed (run i) s inv h = elim (Bool-cases (ltb i n)) [
    | inl on ↦ rw on (advance-Signed i (ground arith) (s.pc i) s.mem (inv.knows i (ground arith)) h)
    | inr off ↦ rw off h
  ]
  step-Signed (lock_error i) s inv h = elim (Bool-cases (ltb i n)) [
    | inl on ↦ rw on (give_up-Signed (s.pc i) s.mem h)
    | inr off ↦ rw off h
  ]

  schedule-Signed :
      (l : List Action) (s : System)
      → Inv n char first s
      → Signed n char first s.mem
      → Signed n char first (schedule n char l s).mem
  unfolding schedule
  schedule-Signed [] s inv h = h
  schedule-Signed (a ∷ l) s inv h =
      schedule-Signed l (step n char a s) (step-Inv a s inv) (step-Signed a s inv h)

  -- However the processes are scheduled: each place that the run wrote, up to the counter, holds the
  -- character of one of the processes.
  pub schedule-authors :
      (table rounds : ℕ → ℕ) (l : List Action) (j : ℕ)
      → let m = (schedule n char l (initial first table rounds)).mem in
        first ≤ j → j < m.counter → (i : ℕ) × (i < n) × (m.table j ≡ char i)
  schedule-authors table rounds l =
      schedule-Signed l (initial first table rounds) (initial-Inv table rounds)
        (λ j lo hi. absurd (omega arith))

-- A process alone counts once at most, however often it runs: it waits for the character of another.
pub alone_once :
    (char : ℕ → ℕ) (first : ℕ) (table rounds : ℕ → ℕ) (l : List Action)
    → (schedule 1 char l (initial first table rounds)).mem.counter ≤ first + 1
alone_once char first table rounds l =
    let m = (schedule 1 char l (initial first table rounds)).mem in
    elim (Bool-cases (ltb (first + 1) m.counter)) [
      | inl more ↦
          let (i, li, p) =
            schedule-authors 1 char first table rounds l first (omega arith) (ground arith) in
          let (j, lj, q) =
            schedule-authors 1 char first table rounds l (first + 1) (omega arith) (ground arith) in
          let differ =
            no_repetition 1 char first table rounds l first (omega arith) (ground arith) in
          ground (arith, p, q, differ)
      | inr few ↦ ground arith
    ]
