-- ===== src/Exercise4/Turns/Completion.antt =====
-- Two processes of incr.c that take turns reach the ends of their loops.
use course_code.Base.{
  ℕ, zero, suc, ◌+◌, ◌-◌, ◌<◌, ◌≡◌, refl, sym, ◌∙◌, ap, ◌⊎◌, inl, inr, ◌≢◌, none, List, [], ◌∷◌,
  ◌++◌, replicate, arith,
}
use course_code.Base.Family.{update}
use course_code.Posix.Io.{==_refl}
use course_code.Exercise4.Turns.{
  size, head, ended, System, Action, advance, run, step, schedule, initial,
}
use course_code.Exercise4.Turns.Round.{undisturbed_round, schedule-other}

-- A round of process 0 and then one of process 1, `k` times; then both read the end of their `for`.
abbrev pub in_turns : (k : ℕ) → List Action
in_turns zero = run 0 ∷ run 1 ∷ []
in_turns (suc k) = replicate 7 (run 0) ++ replicate 7 (run 1) ++ in_turns k

module _ (char : ℕ → ℕ) (differ : char 0 ≢ char 1) where
  schedule-++ :
      (l l' : List Action) (s : System)
      → schedule 2 char (l ++ l') s ≡ schedule 2 char l' (schedule 2 char l s)
  unfolding schedule
  schedule-++ [] l' s = refl
  schedule-++ (a ∷ l) l' s = schedule-++ l l' (step 2 char a s)

  -- After a round of process `i`, the lock is free and its character is the last one.
  one_round :
      (i k c : ℕ) (s : System)
      → i < 2
      → c + 1 < size
      → s.mem.owner ≡ none
      → s.mem.counter ≡ c
      → s.pc i ≡ head (suc k)
      → (c ≡ 0) ⊎ (s.mem.table (c - 1) ≢ char i)
      → let s' = schedule 2 char (replicate 7 (run i)) s in
        (s'.mem.owner ≡ none)
        × (s'.mem.counter ≡ c + 1)
        × (s'.pc i ≡ head k)
        × (s'.mem.table c ≡ char i)
  one_round i k c s lt room free at place turn =
      let turn' : (s.mem.counter ≡ 0) ⊎ (s.mem.table (s.mem.counter - 1) ≢ char i) = rw (at) turn in
      let (pc, mem) = undisturbed_round 2 char i k s lt place free (omega arith) turn' in
      let written : update s.mem.table s.mem.counter (char i) c ≡ char i =
        rw (at, ==_refl c) refl in
      (
        ap (λ m. m.owner) mem,
        ap (λ m. m.counter) mem ∙ ap (λ m. m + 1) at,
        pc,
        ap (λ m. m.table c) mem ∙ written,
      )

  -- Both at the heads of their loops, with `k` rounds left; the lock is free, `c` characters are
  -- written, and process 0 did not write the last one.
  Ready : (k c : ℕ) → System → Type 0
  Ready k c s =
      (s.mem.owner ≡ none)
      × (s.mem.counter ≡ c)
      × (s.pc 0 ≡ head k)
      × (s.pc 1 ≡ head k)
      × ((c ≡ 0) ⊎ (s.mem.table (c - 1) ≢ char 0))

  both_rounds :
      (k c : ℕ) (s : System)
      → c + 2 < size
      → Ready (suc k) c s
      → Ready k
          (c + 2)
          (schedule 2 char (replicate 7 (run 1)) (schedule 2 char (replicate 7 (run 0)) s))
  unfolding Ready
  both_rounds k c s room (free, at, zeroth, first, turn) =
      let s1 = schedule 2 char (replicate 7 (run 0)) s in
      let (free1, at1, zeroth1, last1) =
        one_round 0 k c s (omega arith) (omega arith) free at zeroth turn in
      let first1 = schedule-other 2 char 0 (omega arith) 7 s 1 (omega arith) ∙ first in
      let back1 : c + 1 - 1 ≡ c = omega arith in
      let turn1 : s1.mem.table (c + 1 - 1) ≢ char 1 = rw (back1, last1) differ in
      let (free2, at2, first2, last2) =
        one_round 1 k (c + 1) s1 (omega arith) (omega arith) free1 at1 first1 (inr turn1) in
      let zeroth2 = schedule-other 2 char 1 (omega arith) 7 s1 0 (omega arith) ∙ zeroth1 in
      let back2 : c + 2 - 1 ≡ c + 1 = omega arith in
      let sum : c + 1 + 1 ≡ c + 2 = omega arith in
      let s2 = schedule 2 char (replicate 7 (run 1)) s1 in
      let turn2 : s2.mem.table (c + 2 - 1) ≢ char 0 = rw (back2, last2) (λ e. differ (sym e)) in
      (free2, at2 ∙ sum, zeroth2, first2, inr turn2)

  last_tests :
      (c : ℕ) (s : System)
      → Ready 0 c s
      → let s' = schedule 2 char (in_turns 0) s in
        (s'.pc 0 ≡ ended) × (s'.pc 1 ≡ ended) × (s'.mem.counter ≡ c)
  unfolding schedule step advance Ready
  last_tests c s (free, at, zeroth, first, turn) = rw (zeroth, first) (refl, refl, at)

  turns_end :
      (k c : ℕ) (s : System)
      → c + k + k < size
      → Ready k c s
      → let s' = schedule 2 char (in_turns k) s in
        (s'.pc 0 ≡ ended) × (s'.pc 1 ≡ ended) × (s'.mem.counter ≡ c + k + k)
  turns_end zero c s room ready =
      let sum : c + 0 + 0 ≡ c = omega arith in rw (sum) (last_tests c s ready)
  turns_end (suc k) c s room ready =
      let s1 = schedule 2 char (replicate 7 (run 0)) s in
      let s2 = schedule 2 char (replicate 7 (run 1)) s1 in
      let sum : c + suc k + suc k ≡ c + 2 + k + k = omega arith in
      let one = schedule-++ (replicate 7 (run 0)) (replicate 7 (run 1) ++ in_turns k) s in
      let two = schedule-++ (replicate 7 (run 1)) (in_turns k) s1 in
      rw (sum, one, two)
        (turns_end k (c + 2) s2 (omega arith) (both_rounds k c s (omega arith) ready))

-- Two processes with different characters and `k` rounds each, that find an empty table with room for
-- all of their characters: under the schedule that lets them make their rounds in turns, both reach
-- the end of their loop, and the counter has grown by two for each round.
pub in_turns_both_end :
    (char table : ℕ → ℕ) (k : ℕ)
    → char 0 ≢ char 1
    → k + k < size
    → let s = schedule 2 char (in_turns k) (initial 0 table (λ i. k)) in
      (s.pc 0 ≡ ended) × (s.pc 1 ≡ ended) × (s.mem.counter ≡ k + k)
unfolding Ready
in_turns_both_end char table k differ room =
    let (zeroth, first, at) =
      turns_end char differ k 0 (initial 0 table (λ i. k)) (omega arith)
        (refl, refl, refl, refl, inl refl) in
    (zeroth, first, at ∙ omega arith)
