-- ===== src/Exercise3/Counter/Sequence.antt =====
-- No number is lost and none is printed twice.
use course_code.Base.{
  ℕ, ◌+◌, ◌<◌, ◌≡◌, refl, inl, inr, Bool, true, false, none, some, List, [], ◌∷◌, length, arith,
  Bool-cases, ltb,
}
use course_code.Exercise3.Counter.{
  int_bits, Memory, Stage, asking, sleeping, loaded, stored, leaving, over, Machine, proceed,
  fail_lock, Move, go, lock_fails, put_back, move, moves, beginning,
}

abbrev pub inside : Stage → Bool
inside asking = false
inside over = false
inside _ = true

-- The same in the bits of an `int`.
abbrev pub InBits : (first : ℕ) → List ℕ → Type 0
InBits first [] = Unit
InBits first (v ∷ l) = (v ≡ int_bits (first + length l)) × InBits first l

-- The printed numbers, the last one first, are first, first + 1, and so on.
abbrev pub InSequence : (first : ℕ) → List ℕ → Type 0
InSequence first [] = Unit
InSequence first (v ∷ l) = (v ≡ first + length l) × InSequence first l

-- What the process with the lock knows of the counter.
abbrev pub Sees : ℕ → Stage → Memory → Type 0
Sees first asking m = Unit
Sees first over m = Unit
Sees first sleeping m = m.value ≡ int_bits (first + length m.printed)
Sees first leaving m = m.value ≡ int_bits (first + length m.printed)
Sees first (loaded v) m = (v ≡ m.value) × (m.value ≡ int_bits (first + length m.printed))
Sees first (stored v) m = (v ≡ int_bits (first + length m.printed)) × (m.value ≡ int_bits (v + 1))

pub record Sound (n first : ℕ) (s : Machine) : Type 0 where
  pub holder : (i : ℕ) → i < n → inside (s.stage i) ≡ true → s.memory.owner ≡ some i
  pub sees : (i : ℕ) → i < n → Sees first (s.stage i) s.memory
  pub free : s.memory.owner ≡ none → s.memory.value ≡ int_bits (first + length s.memory.printed)
  pub sequence : InBits first s.memory.printed

module _ {n first : ℕ} {s : Machine} (sound : Sound n first s) (i : ℕ) (lt : i < n) where
  open sound use {holder, sees, free, sequence}

  abbrev next : Stage → Machine
  next p = put_back n i s (proceed i p s.memory)

  next-holder :
      (p : Stage)
      → s.stage i ≡ p
      → (j : ℕ) → j < n
      → inside ((next p).stage j) ≡ true
      → (next p).memory.owner ≡ some j
  unfolding proceed
  next-holder asking e j lj h = ground (arith, holder j, holder i)
  next-holder p e j lj h = ground (arith, holder j, holder i)

  next-Sees :
      (p : Stage) → s.stage i ≡ p → (j : ℕ) → j < n → Sees first ((next p).stage j) (next p).memory
  unfolding proceed
  next-Sees asking e j lj = ground (arith, holder j, holder i, sees j, sees i, free)
  next-Sees p e j lj = ground (arith, holder j, holder i, sees j, sees i, free)

  next-free :
      (p : Stage)
      → s.stage i ≡ p
      → (next p).memory.owner ≡ none
      → (next p).memory.value ≡ int_bits (first + length (next p).memory.printed)
  unfolding proceed
  next-free asking e h = ground (arith, holder i, sees i, free)
  next-free p e h = ground (arith, holder i, sees i, free)

  next-InBits : (p : Stage) → s.stage i ≡ p → InBits first (next p).memory.printed
  unfolding proceed
  next-InBits asking e = ground (arith, sees i, sequence)
  next-InBits p e = ground (arith, sees i, sequence)

  next-Sound : Sound n first (next (s.stage i))
  next-Sound = record {
    holder = next-holder (s.stage i) refl;
    sees = next-Sees (s.stage i) refl;
    free = next-free (s.stage i) refl;
    sequence = next-InBits (s.stage i) refl;
  }

  abbrev quit : Stage → Machine
  quit p = put_back n i s (fail_lock p s.memory)

  quit-holder :
      (p : Stage)
      → s.stage i ≡ p
      → (j : ℕ) → j < n
      → inside ((quit p).stage j) ≡ true
      → (quit p).memory.owner ≡ some j
  unfolding fail_lock
  quit-holder asking e j lj h = ground (arith, holder j, holder i)
  quit-holder p e j lj h = ground (arith, holder j, holder i)

  quit-Sees :
      (p : Stage) → s.stage i ≡ p → (j : ℕ) → j < n → Sees first ((quit p).stage j) (quit p).memory
  unfolding fail_lock
  quit-Sees asking e j lj = ground (arith, holder j, holder i, sees j, sees i, free)
  quit-Sees p e j lj = ground (arith, holder j, holder i, sees j, sees i, free)

  quit-free :
      (p : Stage)
      → s.stage i ≡ p
      → (quit p).memory.owner ≡ none
      → (quit p).memory.value ≡ int_bits (first + length (quit p).memory.printed)
  unfolding fail_lock
  quit-free asking e h = ground (arith, holder i, sees i, free)
  quit-free p e h = ground (arith, holder i, sees i, free)

  quit-InBits : (p : Stage) → InBits first (quit p).memory.printed
  unfolding fail_lock
  quit-InBits asking = sequence
  quit-InBits p = ground (arith, sequence)

  quit-Sound : Sound n first (quit (s.stage i))
  quit-Sound = record {
    holder = quit-holder (s.stage i) refl;
    sees = quit-Sees (s.stage i) refl;
    free = quit-free (s.stage i) refl;
    sequence = quit-InBits (s.stage i);
  }

module _ {n first : ℕ} where
  pub move-Sound : (a : Move) (s : Machine) → Sound n first s → Sound n first (move n a s)
  unfolding move
  move-Sound (go i) s sound = elim (Bool-cases (ltb i n)) [
    | inl on ↦ rw on (next-Sound sound i (ground arith))
    | inr off ↦ rw off sound
  ]
  move-Sound (lock_fails i) s sound = elim (Bool-cases (ltb i n)) [
    | inl on ↦ rw on (quit-Sound sound i (ground arith))
    | inr off ↦ rw off sound
  ]

  pub moves-Sound : (l : List Move) (s : Machine) → Sound n first s → Sound n first (moves n l s)
  unfolding moves
  moves-Sound [] s sound = sound
  moves-Sound (a ∷ l) s sound = moves-Sound l (move n a s) (move-Sound a s sound)

  pub beginning-Sound : Sound n first (beginning first)
  beginning-Sound = record {
    holder = λ i lt h. cc;
    sees = λ i lt. tt;
    free = λ e. omega arith;
    sequence = tt;
  }
