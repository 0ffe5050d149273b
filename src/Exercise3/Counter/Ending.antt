-- ===== src/Exercise3/Counter/Ending.antt =====
-- What the memory holds when all processes of question-4.c have come to their end.
use course_code.Base.{
  ℕ, zero, suc, ◌+◌, ◌<◌, ◌≡◌, refl, ◌∙◌, inl, inr, Option, none, List, [], ◌∷◌, length, arith,
  Bool-cases, Option-cases, ltb, ◌==◌,
}
use course_code.Base.Family.{sum}
use course_code.Exercise3.Counter.{
  Memory, Stage, over, Machine, Move, go, lock_fails, move, moves, beginning,
}
use course_code.Exercise3.Counter.StepsLeft.{tally, unprinted, moves-Kept, beginning-Kept, AllOver}
use course_code.Exercise3.Counter.Sequence.{InSequence}
use course_code.Exercise3.Counter.Numbers.{
  go-printed, asking-unprinted, moves-InSequence, no_lost_update,
}

-- Every call of `fcntl` succeeds.
abbrev pub NoFailures : List Move → Type 0
NoFailures [] = Unit
NoFailures (go _ ∷ l) = NoFailures l
NoFailures (lock_fails _ ∷ l) = ⊥

move-printed :
    (n : ℕ) (i : ℕ) (s : Machine)
    → length (move n (go i) s).memory.printed + tally unprinted n (move n (go i) s).stage
      ≡ length s.memory.printed + tally unprinted n s.stage
unfolding move
move-printed n i s = elim (Bool-cases (ltb i n)) [
  | inl on ↦ rw on (go-printed n s i (ground arith) (s.stage i) refl)
  | inr off ↦ rw off refl
]

moves-printed :
    (n : ℕ) (l : List Move) (s : Machine)
    → NoFailures l
    → length (moves n l s).memory.printed + tally unprinted n (moves n l s).stage
      ≡ length s.memory.printed + tally unprinted n s.stage
unfolding moves
moves-printed n [] s h = refl
moves-printed n (lock_fails i ∷ l) s h = absurd h
moves-printed n (go i ∷ l) s h = moves-printed n l (move n (go i) s) h ∙ move-printed n i s

AllOver-unprinted : (n : ℕ) (stage : ℕ → Stage) → AllOver n stage → tally unprinted n stage ≡ 0
unfolding tally sum
AllOver-unprinted zero stage h = refl
AllOver-unprinted (suc n) stage (e, h) = rw e (omega (arith, AllOver-unprinted n stage h))

AllOver-at : (n : ℕ) (stage : ℕ → Stage) (i : ℕ) → AllOver n stage → i < n → stage i ≡ over
AllOver-at zero stage i h lt = absurd (omega arith)
AllOver-at (suc n) stage i (e, h) lt = elim (Bool-cases (i == n)) [
  | inl last ↦ let at : i ≡ n = ground arith in rw at e
  | inr below ↦ AllOver-at n stage i h (ground arith)
]

-- The numbers of `n` processes that ran one after another, the last one first.
abbrev pub one_by_one : (n first : ℕ) → List ℕ
one_by_one zero first = []
one_by_one (suc n) first = (first + n) ∷ one_by_one n first

InSequence-determined :
    (first : ℕ) (l : List ℕ) → InSequence first l → l ≡ one_by_one (length l) first
InSequence-determined first [] h = refl
InSequence-determined first (v ∷ l) (e, h) = rw (e, ← InSequence-determined first l h)

memory_of :
    (m : Memory) (owner : Option ℕ) (value : ℕ) (printed : List ℕ)
    → m.owner ≡ owner
    → m.value ≡ value
    → m.printed ≡ printed
    → m ≡ record { owner = owner; value = value; printed = printed }
memory_of m owner value printed p q r = rw (← p, ← q, ← r)

module _ (n first : ℕ) (l : List Move) (holds : first + n < 2147483648) (none_fails : NoFailures l)
    (done : AllOver n (moves n l (beginning first)).stage) where
  abbrev end : Machine
  end = moves n l (beginning first)

  lines_printed : length end.memory.printed ≡ n
  lines_printed = omega (
    arith,
    moves-printed n l (beginning first) none_fails,
    asking-unprinted n,
    AllOver-unprinted n end.stage done,
  )

  owner_gone : end.memory.owner ≡ none
  owner_gone = elim (Option-cases end.memory.owner) [
    | inl free ↦ free
    | inr (i, taken) ↦
        let (lt, ins) = (moves-Kept l (beginning first) beginning-Kept).owned i taken in
        let gone = AllOver-at n end.stage i done lt in absurd (cc)
  ]

  -- Where the first value and `n` together fit an `int`, no call of `fcntl` fails and all of the `n`
  -- processes, which have opened the same file, have come to their end: whatever the schedule was, the memory is what `n` processes one after another leave. The lock is free,
  -- the counter is its first value and `n`, and the printed numbers are the first value and those
  -- behind it, one for each process, in order.
  pub final_memory :
      end.memory ≡ record { owner = none; value = first + n; printed = one_by_one n first }
  final_memory =
      let determined : end.memory.printed ≡ one_by_one n first =
        rw lines_printed at
          (InSequence-determined first end.memory.printed (moves-InSequence n first l holds)) in
      memory_of end.memory none (first + n) (one_by_one n first) owner_gone
        (omega (arith, lines_printed, no_lost_update n first l holds owner_gone)) determined
