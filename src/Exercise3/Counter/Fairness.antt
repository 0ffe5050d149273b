-- ===== src/Exercise3/Counter/Fairness.antt =====
-- Every fair schedule brings all processes to their end.
use course_code.Base.{
  ℕ, ◌+◌, ◌-◌, ◌*◌, ◌≤◌, ◌<◌, ◌≡◌, refl, sym, ◌∙◌, ap, fun_ext, ◌⊎◌, inl, inr, Option, none, some,
  List, [], ◌∷◌, ◌++◌, length, All, arith, Bool-cases, Option-cases, ltb, ◌==◌,
}
use course_code.Base.Family.{update}
use course_code.Base.Members.{In}
use course_code.Exercise3.Counter.{
  Memory, Stage, asking, sleeping, loaded, stored, leaving, over, Machine, proceed, my_lock_wait,
  fail_lock, Move, go, lock_fails, put_back, move, moves, beginning,
}
use course_code.Exercise3.Counter.StepsLeft.{
  steps_left, tally-update, left, go-left, Kept, moves-Kept, beginning-Kept, progress, AllOver,
  left-AllOver, left-le, moves-append,
}

update-same : (stage : ℕ → Stage) (i : ℕ) (p : Stage) → stage i ≡ p → update stage i p ≡ stage
update-same stage i p e = fun_ext (λ j. elim (Bool-cases (i == j)) [
  | inl same ↦ let at : i ≡ j = ground arith in rw same (sym e ∙ ap stage at)
  | inr other ↦ rw other refl
])

-- The steps of the passes, one after another.
abbrev pub in_a_row : List (List Move) → List Move
in_a_row [] = []
in_a_row (l ∷ ls) = l ++ in_a_row ls

granted :
    (i x : ℕ) (owner : Option ℕ) (m : Memory)
    → owner ≡ some x
    → elim owner as (λ _. Memory × Stage) [
      | none ↦ (record m { owner = some i }, sleeping)
      | some _ ↦ (m, asking)
    ]
      ≡ (m, asking)
granted i x none m e = absurd (cc)
granted i x (some _) m e = refl

wait_taken : (i x : ℕ) (m : Memory) → m.owner ≡ some x → my_lock_wait i m ≡ (m, asking)
unfolding my_lock_wait
wait_taken i x m taken = granted i x m.owner m taken

module _ (n : ℕ) where
  -- A step brings its process on, or changes nothing.
  abbrev Progress : (s s' : Machine) → Type 0
  Progress s s' = (left n s'.stage + 1 ≤ left n s.stage) ⊎ (s' ≡ s)

  unmoved : (s : Machine) (i : ℕ) (p : Stage) → s.stage i ≡ p → put_back n i s (s.memory, p) ≡ s
  unmoved s i p e =
      ap {B = Machine} (λ f. record { memory = s.memory; stage = f }) (update-same s.stage i p e)

  go-Progress :
      (s : Machine) (i : ℕ)
      → i < n
      → (p : Stage) → s.stage i ≡ p
      → Progress s (put_back n i s (proceed i p s.memory))
  unfolding proceed my_lock_wait
  go-Progress s i lt asking e = elim (Option-cases s.memory.owner) [
    | inl free ↦ inl (omega (arith, go-left n s i lt asking e (omega arith) (inl free)))
    | inr (x, taken) ↦
        inr (ap (put_back n i s) (wait_taken i x s.memory taken) ∙ unmoved s i asking e)
  ]
  go-Progress s i lt over e = inr (unmoved s i over e)
  go-Progress s i lt sleeping e =
      inl (omega (arith, go-left n s i lt sleeping e (omega arith) (inr refl)))
  go-Progress s i lt (loaded v) e =
      inl (omega (arith, go-left n s i lt (loaded v) e (omega arith) (inr refl)))
  go-Progress s i lt (stored v) e =
      inl (omega (arith, go-left n s i lt (stored v) e (omega arith) (inr refl)))
  go-Progress s i lt leaving e =
      inl (omega (arith, go-left n s i lt leaving e (omega arith) (inr refl)))

  fail-Progress :
      (s : Machine) (i : ℕ)
      → i < n
      → (p : Stage) → s.stage i ≡ p
      → Progress s (put_back n i s (fail_lock p s.memory))
  unfolding fail_lock
  fail-Progress s i lt asking e = inl (ground (arith, tally-update steps_left n s.stage i over lt))
  fail-Progress s i lt leaving e = inl (ground (arith, tally-update steps_left n s.stage i over lt))
  fail-Progress s i lt sleeping e = inr (unmoved s i sleeping e)
  fail-Progress s i lt (loaded v) e = inr (unmoved s i (loaded v) e)
  fail-Progress s i lt (stored v) e = inr (unmoved s i (stored v) e)
  fail-Progress s i lt over e = inr (unmoved s i over e)

  move-Progress : (a : Move) (s : Machine) → Progress s (move n a s)
  unfolding move
  move-Progress (go i) s = elim (Bool-cases (ltb i n)) [
    | inl on ↦ rw on (go-Progress s i (ground arith) (s.stage i) refl)
    | inr off ↦ rw off (inr refl)
  ]
  move-Progress (lock_fails i) s = elim (Bool-cases (ltb i n)) [
    | inl on ↦ rw on (fail-Progress s i (ground arith) (s.stage i) refl)
    | inr off ↦ rw off (inr refl)
  ]

  moves-le : (l : List Move) (s : Machine) → left n (moves n l s).stage ≤ left n s.stage
  unfolding moves
  moves-le [] s = omega arith
  moves-le (a ∷ l) s = elim (move-Progress a s) [
    | inl less ↦ omega (arith, less, moves-le l (move n a s))
    | inr same ↦ let e = ap (λ t. left n t.stage) same in omega (arith, e, moves-le l (move n a s))
  ]

  -- A list of steps in which one brings its process on, or none changes anything.
  moves-Progress :
      (l : List Move) (s : Machine)
      → (left n (moves n l s).stage + 1 ≤ left n s.stage) ⊎ All (λ a. move n a s ≡ s) l
  unfolding moves
  moves-Progress [] s = inr tt
  moves-Progress (a ∷ l) s = elim (move-Progress a s) [
    | inl less ↦ inl (omega (arith, less, moves-le l (move n a s)))
    | inr same ↦ elim (moves-Progress l s) [
      | inl less ↦ let e = ap (λ t. left n (moves n l t).stage) same in inl (omega (arith, e, less))
      | inr all ↦ inr (same, all)
    ]
  ]

  In-All : (P : Move → Type 0) (a : Move) (l : List Move) → In a l → All P l → P a
  In-All P a [] h all = absurd h
  In-All P a (b ∷ l) (inl e) (p, all) = rw (← e) p
  In-All P a (b ∷ l) (inr h) (p, all) = In-All P a l h all

  -- Every process is given a step.
  abbrev pub Covers : List Move → Type 0
  Covers l = (i : ℕ) → i < n → In (go i) l

  pass-less :
      {first : ℕ} (l : List Move) (s : Machine)
      → Kept n first s
      → Covers l
      → (left n s.stage ≡ 0) ⊎ (left n (moves n l s).stage + 1 ≤ left n s.stage)
  pass-less l s kept covers = elim (progress s kept) [
    | inl done ↦ inl done
    | inr (i, lt, less) ↦ elim (moves-Progress l s) [
      | inl yes_less ↦ inr yes_less
      | inr all ↦
          let same = In-All (λ a. move n a s ≡ s) (go i) l (covers i lt) all in
          let e = ap (λ t. left n t.stage) same in absurd (omega (arith, e, less))
    ]
  ]

  passes-left :
      {first : ℕ} (k : ℕ) (ls : List (List Move)) (s : Machine)
      → Kept n first s
      → All Covers ls
      → left n s.stage ≤ k
      → k ≤ length ls
      → left n (moves n (in_a_row ls) s).stage ≡ 0
  unfolding moves
  passes-left k [] s kept all small enough = omega arith
  passes-left k (l ∷ ls) s kept (covers, all) small enough =
      let later = passes-left (k - 1) ls (moves n l s) (moves-Kept l s kept) all in
      let le = moves-le l s in
      rw (moves-append n l (in_a_row ls) s) (elim (pass-less l s kept covers) [
        | inl done ↦ later (omega (arith, done, le)) (omega arith)
        | inr less ↦ later (omega (arith, less)) (omega arith)
      ])

  -- A schedule in passes, in each of which every process is given a step, in any order and as often
  -- as one likes, and calls of `fcntl` may fail: behind 5 * n passes all of the `n` processes have
  -- come to their end, whatever the counter held.
  pub fair_runs_end :
      (first : ℕ) (passes : List (List Move))
      → All Covers passes
      → 5 * n ≤ length passes
      → AllOver n (moves n (in_a_row passes) (beginning first)).stage
  fair_runs_end first passes fair enough =
      left-AllOver n (moves n (in_a_row passes) (beginning first)).stage (
        passes-left (5 * n) passes (beginning first) beginning-Kept fair
          (left-le n (beginning first).stage) enough)
