-- ===== src/Examples/Sharing.antt =====
-- Shared counters and tables, and programs side by side.
use course_code.Base.{
  ◌⊎◌, ◌<◌, ℕ, zero, suc, ◌+◌, ◌≡◌, refl, ◌≢◌, inl, inr, List, [], ◌∷◌, All, replicate, arith, none,
}
use course_code.Base.Int.{pos}
use course_code.Posix.Call.{Reply, done, fail, Errno}
use course_code.Posix.Libc.{codes, atoi}
use course_code.Posix.Checked.{Checks}
use course_code.Posix.Stuck.{Stuck}
use course_code.Exercise3.Counter.{
  Move, go, move, moves, proceed, beginning, my_lock_wait, my_lock_release,
}
use course_code.Exercise3.Counter.StepsLeft.{AllOver}
use course_code.Exercise3.Counter.Ending.{one_by_one, final_memory}
use course_code.Exercise3.Counter.Fairness.{Covers, in_a_row, fair_runs_end}
use course_code.Exercise3.Counter.Program.{count_once}
use course_code.Exercise3.Counter.Failures.{passed_over, count_once-Checks}
use course_code.Exercise3.Fifo.{parent}
use course_code.Exercise3.Fifo.Failures.{is_read}
use course_code.Failures.{never, at_leisure, programs-Checks}
use course_code.Exercise1.FileStat as FileStat
use course_code.Exercise3.Filters as Filters
use course_code.Exercise5.Backlog as Backlog
use course_code.Exercise6.SocketOptions as SocketOptions
use course_code.Exercise3.Overlap as Overlap
use course_code.Exercise3.Overlap.FirstRound.{fresh, main-Stuck}
use course_code.Exercise4.Turns as Turns
use course_code.Exercise4.Turns.{run, step, schedule, initial}
use course_code.Exercise4.Turns.Deadlock.{AllEnded, no_deadlock}

-- Two processes in turns, the second of them first.
abbrev both : List Move
both = go 1 ∷ go 0 ∷ []

both-Covers : Covers 2 both
both-Covers zero lt = inr (inl refl)
both-Covers (suc zero) lt = inl refl
both-Covers (suc (suc i)) lt = absurd (omega arith)

passes_fair : (k : ℕ) → All (Covers 2) (replicate k both)
passes_fair zero = tt
passes_fair (suc k) = (both-Covers, passes_fair k)

fair_runs_end_example : AllOver 2 (moves 2 (in_a_row (replicate 10 both)) (beginning 5)).stage
fair_runs_end_example = fair_runs_end 2 5 (replicate 10 both) (passes_fair 10) (omega arith)

-- One process, from its start to its end.
abbrev alone : List Move
alone = replicate 5 (go 0)

alone-AllOver : AllOver 1 (moves 1 alone (beginning 5)).stage
unfolding moves move proceed my_lock_wait my_lock_release
alone-AllOver = (refl, tt)

final_memory_example :
    (moves 1 alone (beginning 5)).memory
    ≡ record { owner = none; value = 5 + 1; printed = one_by_one 1 5 }
final_memory_example = final_memory 1 5 alone (omega arith) tt alone-AllOver

abbrev interrupted_run : List Reply
interrupted_run =
    fail Errno.enoent
    ∷ done 3 []
    ∷ done 4 []
    ∷ done 0 []
    ∷ fail Errno.eintr
    ∷ done 0 []
    ∷ done 90 []
    ∷ done 0 []
    ∷ done 90 []
    ∷ done 0 []
    ∷ done 0 []
    ∷ done 0 []
    ∷ []

count_once-Checks_example : Checks passed_over (count_once 0 (codes "f") interrupted_run)
count_once-Checks_example = count_once-Checks 0 (codes "f") interrupted_run

-- The child is gone, and the last `close` fails.
abbrev failing_close : List Reply
failing_close =
    done 3 []
    ∷ done 4 []
    ∷ done 2 (65 ∷ 10 ∷ [])
    ∷ done 2 []
    ∷ done 90 []
    ∷ done 2 (97 ∷ 10 ∷ [])
    ∷ done 2 []
    ∷ done 0 []
    ∷ fail (Errno.other 5)
    ∷ []

programs-Checks_example :
    Checks never (FileStat.main (codes "a") (codes "f" ∷ []) failing_close)
    × Checks is_read (Filters.reader failing_close)
    × Checks is_read (parent 90 failing_close)
    × Checks at_leisure (Backlog.client_main (codes "::1" ∷ codes "2" ∷ []) failing_close)
    × Checks at_leisure (Backlog.server_main failing_close)
    × Checks at_leisure (SocketOptions.buffer_main 0 (codes "::1" ∷ []) failing_close)
    × Checks at_leisure (SocketOptions.segment_main 0 (codes "::1" ∷ []) failing_close)
programs-Checks_example =
    programs-Checks (codes "a") (codes "f") (codes "::1") (codes "2") 90 0 0 failing_close

two_rounds : atoi (codes "2") ≡ pos 2
unfolding atoi
two_rounds = refl

abbrev first_start : List Reply
first_start = fail Errno.enoent ∷ done 3 [] ∷ done 4 [] ∷ done 0 [] ∷ done 0 [] ∷ done 90 [] ∷ []

abbrev page_behind : ℕ
page_behind = 4092

main-Stuck_example :
    Stuck
      (Overlap.main
        (fresh page_behind)
        (codes "f" ∷ codes "2" ∷ codes "a" ∷ [])
        first_start).outcome
main-Stuck_example =
    main-Stuck (codes "f") (codes "2") (codes "a") 1 97 page_behind first_start two_rounds refl
      (omega arith) (omega arith)

abbrev letters : ℕ → ℕ
letters i = i + 65

-- The first process has the lock, and the second waits for it.
abbrev waiting : Turns.System
waiting = schedule 2 letters (run 0 ∷ run 0 ∷ run 1 ∷ run 1 ∷ []) (initial 0 (λ j. 0) (λ i. 3))

no_deadlock_example :
    AllEnded 2 waiting.pc
    ⊎ ((i : ℕ) × (i < 2) × ((step 2 letters (run i) waiting).pc i ≢ waiting.pc i))
no_deadlock_example = no_deadlock 2 letters 0 (λ j. 0) (λ i. 3) (run 0 ∷ run 0 ∷ run 1 ∷ run 1 ∷ [])
