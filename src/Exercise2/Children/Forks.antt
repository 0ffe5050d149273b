-- ===== src/Exercise2/Children/Forks.antt =====
-- How many children question-2.c has, what each hands to `printf`, and how they end.
use course_code.Base.{
  ℕ, zero, suc, ◌+◌, ◌≤◌, ◌<◌, ◌≡◌, refl, ◌⊎◌, inl, inr, List, [], ◌∷◌, ◌++◌, length, arith, ap,
  All, append-nil,
}
use course_code.Posix.Call.{Reply, done, fail, Call, Event, Arg, Trace}
use course_code.Posix.Run.{ok, exited, blocked, fault, spins, Outcome, emit, exit, continue, ◌>>◌}
use course_code.Posix.Io.{gather, gather-append}
use course_code.Posix.Relay.{Fits, Fits-append, IsPrefix}
use course_code.Exercise2.Children.{count_lines, fork_children}

-- The pids that `fork` gave, the numbers that were handed to `printf`, and the calls of `_exit`.
abbrev pub forks_by : Event → List ℕ
forks_by e = elim e.call [
  | Call.fork ↦ elim e.reply [ done pid _ ↦ pid ∷ [] | fail _ ↦ [] ]
  | _ ↦ []
]

abbrev numbers : List Arg → List ℕ
numbers [] = []
numbers (Arg.int i ∷ []) = i ∷ []
numbers (_ ∷ l) = numbers l

abbrev pub counted_by : Event → List ℕ
counted_by e = elim e.call [ Call.printf _ l ↦ numbers l | _ ↦ [] ]

abbrev pub left_by : Event → List ℕ
left_by e = elim e.call [ Call.exit_at_once n ↦ n ∷ [] | _ ↦ [] ]

abbrev pub from_to : (rounds first : ℕ) → List ℕ
from_to zero first = []
from_to (suc rounds) first = first ∷ from_to rounds (first + 1)

-- The numbers of a child: all of them, or a front part while it waits.
count_lines-Fits :
    (rounds first : ℕ) (rs : List Reply)
    → let r = count_lines rounds first rs in
      Fits r.outcome (gather counted_by r.trace) (from_to rounds first)
      × (gather forks_by r.trace ≡ [])
      × (gather left_by r.trace ≡ [])
unfolding count_lines
count_lines-Fits zero first rs = (refl, refl, refl)
count_lines-Fits (suc rounds) first [] = ((first ∷ from_to rounds (first + 1), refl), refl, refl)
count_lines-Fits (suc rounds) first (r ∷ rs) =
    let (fits, none, stays) = count_lines-Fits rounds (first + 1) rs in
    (
      Fits-append (count_lines rounds (first + 1) rs).outcome {first = first ∷ []}
          {front = first ∷ []} (gather counted_by (count_lines rounds (first + 1) rs).trace)
          (from_to rounds (first + 1)) refl fits,
      none,
      stays,
    )

-- By the pids that `fork` gave: the parent exits with status 0 behind `pnum` children and counts
-- nothing. The child is the process that got 0, and it ends by `_exit` with status 0 behind all of its
-- numbers. Status 1 is a `fork` that failed before that.
abbrev pub Family : (loop_num pnum : ℕ) → Outcome (Unit {0}) → (pids counted left : List ℕ) → Type 0
Family loop_num pnum (exited zero) pids counted left =
    (All (λ pid. 0 < pid) pids × (length pids ≡ pnum) × (counted ≡ []) × (left ≡ []))
    ⊎ ((front : List ℕ) × (pids ≡ front ++ (0 ∷ []))
        × All (λ pid. 0 < pid) front
        × (length front < pnum)
        × (counted ≡ from_to loop_num 0)
        × (left ≡ 0 ∷ []))
Family loop_num pnum (exited (suc n)) pids counted left =
    (n ≡ 0) × (length pids < pnum) × (counted ≡ []) × (left ≡ [])
Family loop_num pnum blocked pids counted left =
    (length pids ≤ pnum) × IsPrefix counted (from_to loop_num 0) × (left ≡ [])
Family loop_num pnum (ok _) pids counted left = ⊥
Family loop_num pnum fault pids counted left = ⊥
Family loop_num pnum spins pids counted left = ⊥

Family-more :
    (loop_num pnum pid : ℕ) (o : Outcome (Unit {0})) (pids counted left : List ℕ)
    → Family loop_num pnum o pids counted left
    → Family loop_num (suc pnum) o (suc pid ∷ pids) counted left
Family-more loop_num pnum pid (exited zero) pids counted left (inl (all, size, none, stays)) =
    inl ((omega arith, all), omega arith, none, stays)
Family-more loop_num pnum pid (exited zero) pids counted left
      (inr (front, p, all, size, q, left_it)) =
    inr (suc pid ∷ front, ap (λ l. suc pid ∷ l) p, (omega arith, all), omega arith, q, left_it)
Family-more loop_num pnum pid (exited (suc n)) pids counted left (one, size, none, stays) =
    (one, omega arith, none, stays)
Family-more loop_num pnum pid blocked pids counted left (size, front, stays) =
    (omega arith, front, stays)
Family-more loop_num pnum pid (ok _) pids counted left h = h
Family-more loop_num pnum pid fault pids counted left h = h
Family-more loop_num pnum pid spins pids counted left h = h

abbrev last_call : Event
last_call = record { call = Call.exit_at_once 0; reply = done 0 [] }

child_case :
    (loop_num pnum : ℕ) (o : Outcome (Unit {0})) (t : Trace) (rest : List Reply)
    → Fits o (gather counted_by t) (from_to loop_num 0)
    → gather forks_by t ≡ []
    → gather left_by t ≡ []
    → ((n : ℕ) → o ≡ exited n → ⊥)
    → let r =
        continue o t rest (λ (_ : Unit {0}). emit (Call.exit_at_once 0) >> exit {A = Unit {0}} 0) in
      Family loop_num
        (suc pnum)
        r.outcome
        (0 ∷ gather forks_by r.trace)
        (gather counted_by r.trace)
        (gather left_by r.trace)
child_case loop_num pnum (ok _) t rest fits none stays no_exit = inr (
  [],
  rw (gather-append forks_by t (last_call ∷ []), none),
  tt,
  omega arith,
  rw (gather-append counted_by t (last_call ∷ []), append-nil (gather counted_by t)) fits,
  rw (gather-append left_by t (last_call ∷ []), stays),
)
child_case loop_num pnum (exited n) t rest fits none stays no_exit = absurd (no_exit n refl)
child_case loop_num pnum blocked t rest fits none stays no_exit =
    (rw none (omega arith), fits, stays)
child_case loop_num pnum fault t rest fits none stays no_exit = absurd fits
child_case loop_num pnum spins t rest fits none stays no_exit = absurd fits

count_lines-no_exit :
    (rounds first n : ℕ) (rs : List Reply) → (count_lines rounds first rs).outcome ≡ exited n → ⊥
unfolding count_lines
count_lines-no_exit zero first n rs e = cc
count_lines-no_exit (suc rounds) first n [] e = cc
count_lines-no_exit (suc rounds) first n (r ∷ rs) e = count_lines-no_exit rounds (first + 1) n rs e

-- On every list of answers: the parent forks `pnum` times and exits with status 0, or exits with
-- status 1 at the first `fork` that fails; a child hands the numbers from 0 up to `loop_num` to
-- `printf`, then calls `_exit` with status 0, and forks no more; and a process that waits has forked at
-- most `pnum` times. No other process calls `_exit`, and none but the child hands on numbers.
pub fork_children-Family :
    (loop_num pnum : ℕ) (rs : List Reply)
    → let r = fork_children loop_num pnum rs in
      Family loop_num pnum r.outcome
        (gather forks_by r.trace)
        (gather counted_by r.trace)
        (gather left_by r.trace)
unfolding fork_children
fork_children-Family loop_num zero rs = inl (tt, refl, refl, refl)
fork_children-Family loop_num (suc pnum) [] = (omega arith, (from_to loop_num 0, refl), refl)
fork_children-Family loop_num (suc pnum) (fail e ∷ []) =
    (omega arith, (from_to loop_num 0, refl), refl)
fork_children-Family loop_num (suc pnum) (fail e ∷ r ∷ rs) = (refl, omega arith, refl, refl)
fork_children-Family loop_num (suc pnum) (done zero l ∷ rs) =
    let (fits, none, stays) = count_lines-Fits loop_num 0 rs in
    child_case loop_num pnum _ _ (count_lines loop_num 0 rs).rest fits none stays
      (λ n. count_lines-no_exit loop_num 0 n rs)
fork_children-Family loop_num (suc pnum) (done (suc pid) l ∷ []) =
    (omega arith, (from_to loop_num 0, refl), refl)
fork_children-Family loop_num (suc pnum) (done (suc pid) l ∷ r ∷ rs) =
    Family-more loop_num pnum pid _ _ _ _ (fork_children-Family loop_num pnum rs)
