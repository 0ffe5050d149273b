-- ===== src/Exercise3/Counter/Numbers.antt =====
-- The numbers that the processes of question-4.c print, as long as an `int` holds them.
use course_code.Base.{
  ℕ, zero, suc, ◌+◌, ◌≤◌, ◌<◌, ◌≡◌, refl, inl, inr, none, List, [], ◌∷◌, length, arith, Bool-cases,
  Option-cases, ltb,
}
use course_code.Base.Family.{sum}
use course_code.Exercise3.Counter.{
  Stage, asking, sleeping, loaded, stored, leaving, over, Machine, proceed, my_lock_wait,
  my_lock_release, fail_lock, Move, go, lock_fails, put_back, move, moves, beginning,
}
use course_code.Exercise3.Counter.Sequence.{InBits, InSequence, moves-Sound, beginning-Sound}
use course_code.Exercise3.Counter.StepsLeft.{tally, tally-update, unprinted}

pub go-printed :
    (n : ℕ) (s : Machine) (i : ℕ)
    → i < n
    → (p : Stage) → s.stage i ≡ p
    → let s' = put_back n i s (proceed i p s.memory) in
      length s'.memory.printed + tally unprinted n s'.stage
      ≡ length s.memory.printed + tally unprinted n s.stage
unfolding proceed my_lock_wait my_lock_release
go-printed n s i lt asking e = elim (Option-cases s.memory.owner) [
  | inl free ↦ rw free (ground (arith, tally-update unprinted n s.stage i sleeping lt))
  | inr (_, taken) ↦ rw taken (ground (arith, tally-update unprinted n s.stage i asking lt))
]
go-printed n s i lt sleeping e =
    ground (arith, tally-update unprinted n s.stage i (loaded s.memory.value) lt)
go-printed n s i lt (loaded v) e = ground (arith, tally-update unprinted n s.stage i (stored v) lt)
go-printed n s i lt (stored v) e = ground (arith, tally-update unprinted n s.stage i leaving lt)
go-printed n s i lt leaving e = ground (arith, tally-update unprinted n s.stage i over lt)
go-printed n s i lt over e = ground (arith, tally-update unprinted n s.stage i over lt)

-- A failure prints nothing, and brings nobody back.
fail-printed :
    (n : ℕ) (s : Machine) (i : ℕ)
    → i < n
    → (p : Stage) → s.stage i ≡ p
    → let s' = put_back n i s (fail_lock p s.memory) in
      length s'.memory.printed + tally unprinted n s'.stage
      ≤ length s.memory.printed + tally unprinted n s.stage
unfolding fail_lock
fail-printed n s i lt asking e = ground (arith, tally-update unprinted n s.stage i over lt)
fail-printed n s i lt leaving e = ground (arith, tally-update unprinted n s.stage i over lt)
fail-printed n s i lt p e = ground (arith, tally-update unprinted n s.stage i p lt)

move-printed_le :
    (n : ℕ) (a : Move) (s : Machine)
    → length (move n a s).memory.printed + tally unprinted n (move n a s).stage
      ≤ length s.memory.printed + tally unprinted n s.stage
unfolding move
move-printed_le n (go i) s = elim (Bool-cases (ltb i n)) [
  | inl on ↦ rw on (omega (arith, go-printed n s i (ground arith) (s.stage i) refl))
  | inr off ↦ rw off (omega arith)
]
move-printed_le n (lock_fails i) s = elim (Bool-cases (ltb i n)) [
  | inl on ↦ rw on (fail-printed n s i (ground arith) (s.stage i) refl)
  | inr off ↦ rw off (omega arith)
]

moves-printed_le :
    (n : ℕ) (l : List Move) (s : Machine)
    → length (moves n l s).memory.printed + tally unprinted n (moves n l s).stage
      ≤ length s.memory.printed + tally unprinted n s.stage
unfolding moves
moves-printed_le n [] s = omega arith
moves-printed_le n (a ∷ l) s =
    omega (arith, moves-printed_le n l (move n a s), move-printed_le n a s)

pub asking-unprinted : (n : ℕ) → tally unprinted n (λ i. asking) ≡ n
unfolding tally sum
asking-unprinted zero = refl
asking-unprinted (suc n) = omega (arith, asking-unprinted n)

-- Each process prints at most one number.
printed-le : (n first : ℕ) (l : List Move) → length (moves n l (beginning first)).memory.printed ≤ n
printed-le n first l = omega (arith, moves-printed_le n l (beginning first), asking-unprinted n)

InSequence-of_bits :
    (first : ℕ) (l : List ℕ) → first + length l < 4294967296 → InBits first l → InSequence first l
InSequence-of_bits first [] lt h = tt
InSequence-of_bits first (v ∷ l) lt (e, h) =
    (omega (arith, e), InSequence-of_bits first l (omega arith) h)

module _ (n first : ℕ) (l : List Move) (holds : first + n < 2147483648) where
  -- Where the first value of the counter and `n` together fit an `int`: however `n` processes that
  -- have opened the same file and are about to ask for the lock are scheduled, and whichever calls of
  -- `fcntl` fail, the numbers that they print are the first value of the counter and those behind it,
  -- in order and each once.
  pub moves-InSequence : InSequence first (moves n l (beginning first)).memory.printed
  moves-InSequence =
      InSequence-of_bits first (moves n l (beginning first)).memory.printed
        (omega (arith, printed-le n first l))
        (moves-Sound l (beginning first) beginning-Sound).sequence

  -- Whenever the lock is free, the counter is its first value and the number of the lines that were
  -- printed: no increment is lost.
  pub no_lost_update :
      (moves n l (beginning first)).memory.owner ≡ none
      → (moves n l (beginning first)).memory.value
        ≡ first + length (moves n l (beginning first)).memory.printed
  no_lost_update free =
      omega
        (arith, (moves-Sound l (beginning first) beginning-Sound).free free, printed-le n first l)
