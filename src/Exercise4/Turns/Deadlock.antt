-- ===== src/Exercise4/Turns/Deadlock.antt =====
-- Somebody can always go on.
use course_code.Base.{
  ℕ, zero, suc, ◌-◌, ◌<◌, ◌≡◌, refl, ◌≢◌, ◌⊎◌, inl, inr, true, none, some, List, [], ◌∷◌, arith,
  Bool-cases, Option-cases, ltb, leb, ◌==◌, ◌&&◌, not,
}
use course_code.Posix.Io.{==_refl}
use course_code.Exercise4.Turns.{
  Shared, Pc, head, wait, check, full, test, yield, retry, put, count, unlock, ended, System,
  my_lock_wait, advance, give_up, Action, run, lock_error, placed, step, schedule, initial, size,
}
use course_code.Exercise4.Turns.Order.{Inv, holds, step-Inv, initial-Inv}

-- The owner of the lock is a process behind its `my_lock_wait`.
abbrev Owned : (n : ℕ) → System → Type 0
Owned n s = (i : ℕ) → s.mem.owner ≡ some i → (i < n) × (holds (s.pc i) ≡ true)

module _ (n : ℕ) (char : ℕ → ℕ) (s : System) (owned : Owned n s) (i : ℕ) (lt : i < n)
    (holder : holds (s.pc i) ≡ true → s.mem.owner ≡ some i) where
  next-Owned : (p : Pc) → s.pc i ≡ p → Owned n (placed n char i s (advance i (char i) p s.mem))
  unfolding advance
  next-Owned (head zero) e j h = ground (arith, owned j, holder)
  next-Owned (head (suc k)) e j h = ground (arith, owned j, holder)
  next-Owned p e j h = ground (arith, owned j, holder)

  quit-Owned : (p : Pc) → s.pc i ≡ p → Owned n (placed n char i s (give_up p s.mem))
  unfolding give_up
  quit-Owned (head k) e j h = ground (arith, owned j, holder)
  quit-Owned p e j h = ground (arith, owned j, holder)

-- What the runs keep.
record Kept (n : ℕ) (char : ℕ → ℕ) (first : ℕ) (s : System) : Type 0 where
  inv : Inv n char first s
  owned : Owned n s

module _ {n : ℕ} {char : ℕ → ℕ} {first : ℕ} where
  step-Kept : (a : Action) (s : System) → Kept n char first s → Kept n char first (step n char a s)
  unfolding step
  step-Kept (run i) s k = elim (Bool-cases (ltb i n)) [
    | inl on ↦ record {
      inv = step-Inv (run i) s k.inv;
      owned = rw on (
          next-Owned n char s k.owned i (ground arith) (k.inv.holder i (ground arith)) (s.pc i)
            refl);
    }
    | inr off ↦ rw off k
  ]
  step-Kept (lock_error i) s k = elim (Bool-cases (ltb i n)) [
    | inl on ↦ record {
      inv = step-Inv (lock_error i) s k.inv;
      owned = rw on (
          quit-Owned n char s k.owned i (ground arith) (k.inv.holder i (ground arith)) (s.pc i)
            refl);
    }
    | inr off ↦ rw off k
  ]

  schedule-Kept :
      (l : List Action) (s : System) → Kept n char first s → Kept n char first (schedule n char l s)
  unfolding schedule
  schedule-Kept [] s k = k
  schedule-Kept (a ∷ l) s k = schedule-Kept l (step n char a s) (step-Kept a s k)

  initial-Kept : (table rounds : ℕ → ℕ) → Kept n char first (initial first table rounds)
  initial-Kept table rounds = record { inv = initial-Inv table rounds; owned = λ i h. absurd (cc) }

-- A process that is not at its end, and that has the lock or finds it free, goes on.
advance-moves :
    (i c : ℕ) (p : Pc) (m : Shared)
    → p ≢ ended
    → (m.owner ≡ none) ⊎ (holds p ≡ true)
    → (advance i c p m).1 ≢ p
unfolding advance my_lock_wait
advance-moves i c (head zero) m ne able = λ e. absurd (cc)
advance-moves i c (head (suc k)) m ne able = λ e. absurd (cc)
advance-moves i c (wait k) m ne (inl free) = rw free (λ e. absurd (cc))
advance-moves i c (wait k) m ne (inr inside) = absurd (cc)
advance-moves i c (check k) m ne able = elim (Bool-cases (leb (size - 1) m.counter)) [
  | inl e ↦ rw e (λ e'. absurd (cc))
  | inr e ↦ rw e (λ e'. absurd (cc))
]
advance-moves i c full m ne able = λ e. absurd (cc)
advance-moves i c (test k) m ne able =
    elim (Bool-cases ((m.table (m.counter - 1) == c) && not (m.counter == 0))) [
      | inl e ↦ rw e (λ e'. absurd (cc))
      | inr e ↦ rw e (λ e'. absurd (cc))
    ]
advance-moves i c (yield k) m ne able = λ e. absurd (cc)
advance-moves i c (retry k) m ne (inl free) = rw free (λ e. absurd (cc))
advance-moves i c (retry k) m ne (inr inside) = absurd (cc)
advance-moves i c (put k) m ne able = λ e. absurd (cc)
advance-moves i c (count k) m ne able = λ e. absurd (cc)
advance-moves i c (unlock k) m ne able = λ e. absurd (cc)
advance-moves i c ended m ne able = absurd (ne refl)

-- All are at their ends, or one is not.
abbrev pub AllEnded : ℕ → (ℕ → Pc) → Type 0
AllEnded zero pc = Unit
AllEnded (suc n) pc = (pc n ≡ ended) × AllEnded n pc

ended-cases : (p : Pc) → (p ≡ ended) ⊎ (p ≢ ended)
ended-cases ended = inl refl
ended-cases (head k) = inr (λ e. absurd (cc))
ended-cases p = inr (λ e. absurd (cc))

AllEnded-cases : (n : ℕ) (pc : ℕ → Pc) → AllEnded n pc ⊎ ((i : ℕ) × (i < n) × (pc i ≢ ended))
AllEnded-cases zero pc = inl tt
AllEnded-cases (suc n) pc = elim (ended-cases (pc n)) [
  | inl e ↦ elim (AllEnded-cases n pc) [
    | inl all ↦ inl (e, all)
    | inr (i, lt, ne) ↦ inr (i, omega arith, ne)
  ]
  | inr ne ↦ inr (n, omega arith, ne)
]

holds-ended : (p : Pc) → holds p ≡ true → p ≢ ended
holds-ended p h e = let at : holds ended ≡ true = rw e at h in absurd (cc)

module _ (n : ℕ) (char : ℕ → ℕ) where
  step-moves :
      (s : System) (i : ℕ)
      → i < n
      → s.pc i ≢ ended
      → (s.mem.owner ≡ none) ⊎ (holds (s.pc i) ≡ true)
      → (step n char (run i) s).pc i ≢ s.pc i
  unfolding step
  step-moves s i lt ne able =
      let on : ltb i n ≡ true = ground arith in
      rw (on, ==_refl i) (advance-moves i (char i) (s.pc i) s.mem ne able)

  -- Under every schedule of `n` processes and every failure of `fcntl`: as long as one of the
  -- processes has not come to its end, there is one whose next step takes it to another place of its
  -- program. So they never wait for each other all at once.
  pub no_deadlock :
      (first : ℕ) (table rounds : ℕ → ℕ) (l : List Action)
      → let s = schedule n char l (initial first table rounds) in
        AllEnded n s.pc ⊎ ((i : ℕ) × (i < n) × ((step n char (run i) s).pc i ≢ s.pc i))
  no_deadlock first table rounds l =
      let s = schedule n char l (initial first table rounds) in
      let k =
        schedule-Kept {n = n} {char = char} {first = first} l (initial first table rounds)
          (initial-Kept table rounds) in
      elim (AllEnded-cases n s.pc) [
        | inl all ↦ inl all
        | inr (i, lt, ne) ↦ elim (Option-cases s.mem.owner) [
          | inl free ↦ inr (i, lt, step-moves s i lt ne (inl free))
          | inr (j, e) ↦
              let (lj, ins) = k.owned j e in
              inr (j, lj, step-moves s j lj (holds-ended (s.pc j) ins) (inr ins))
        ]
      ]
