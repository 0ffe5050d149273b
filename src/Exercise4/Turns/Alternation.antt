-- ===== src/Exercise4/Turns/Alternation.antt =====
-- ABABAB...: the table of two processes.
use course_code.Base.{
  ℕ, zero, suc, ◌+◌, ◌%◌, ◌<◌, ◌≡◌, ◌≢◌, sym, ◌∙◌, ap, inl, inr, Bool-cases, List, arith, ◌==◌,
}
use course_code.Exercise4.Turns.{Action, schedule, initial}
use course_code.Exercise4.Turns.Order.{no_repetition}
use course_code.Exercise4.Turns.Authors.{schedule-authors}

-- Of two numbers below 2, the other one.
other_of_two : (a m : ℕ) → a < 2 → a ≢ m % 2 → a ≡ (m + 1) % 2
other_of_two a m lt ne = ground arith

-- Two processes, under every schedule and with any failures of `fcntl`: if process `i` wrote the first
-- character of the run, the characters of the two stand in the table in turns, from that place up to
-- the counter.
pub two_take_turns :
    (char : ℕ → ℕ) (first : ℕ) (table rounds : ℕ → ℕ) (l : List Action) (i k : ℕ)
    → let m = (schedule 2 char l (initial first table rounds)).mem in
      i < 2
      → m.table first ≡ char i
      → first + k < m.counter
      → m.table (first + k) ≡ char ((i + k) % 2)
two_take_turns char first table rounds l i zero lt e inside =
    let m = (schedule 2 char l (initial first table rounds)).mem in
    let here : first + 0 ≡ first = omega arith in
    let same : (i + 0) % 2 ≡ i = ground arith in rw (here, same) e
two_take_turns char first table rounds l i (suc k) lt e inside =
    let m = (schedule 2 char l (initial first table rounds)).mem in
    let before = two_take_turns char first table rounds l i k lt e (omega arith) in
    let (a, la, p) =
      schedule-authors 2 char first table rounds l (first + k + 1) (omega arith) (omega arith) in
    let differ =
      no_repetition 2 char first table rounds l (first + k) (omega arith) (omega arith) in
    let here : first + suc k ≡ first + k + 1 = omega arith in
    let turn : i + suc k ≡ i + k + 1 = omega arith in
    elim (Bool-cases (a == (i + k) % 2)) [
      | inl same ↦
          let at : a ≡ (i + k) % 2 = ground arith in
          absurd (differ (before ∙ ap char (sym at) ∙ sym p))
      | inr other ↦
          let at : a ≡ (i + k + 1) % 2 = other_of_two a (i + k) la (ground arith) in
          rw (here, turn) (p ∙ ap char at)
    ]
