-- ===== src/Examples/Processes.antt =====
-- Processes and connections: short runs of the servers, of the table and of the families.
use course_code.Base.{
  ℕ, ◌≡◌, refl, ◌≢◌, true, List, [], ◌∷◌, ◌++◌, ◌+◌, ◌%◌, ◌<◌, arith, replicate, length,
}
use course_code.Posix.Call.{Reply, done, fail, Errno, SockAddr, Host}
use course_code.Posix.Io.{gather}
use course_code.Posix.Program.{accept_loop}
use course_code.Posix.Echo.{Endless}
use course_code.Posix.Protocol.{follows, before_fork, idle, accept_loop-follows}
use course_code.Exercise2.Children.{fork_children}
use course_code.Exercise2.Children.Forks.{
  Family, forks_by, counted_by, left_by, fork_children-Family,
}
use course_code.Exercise3.Server.{str_echo}
use course_code.Exercise4.Turns.{
  schedule, step, advance, my_lock_wait, my_lock_release, initial, run, size, Action, put,
}
use course_code.Exercise4.Turns.Order.{holds, mutual_exclusion, no_repetition}
use course_code.Exercise4.Turns.Limit.{put_in_range}
use course_code.Exercise4.Turns.Alternation.{two_take_turns}
use course_code.Exercise5.Echo.{sig_chld}
use course_code.Exercise5.Echo.Reaping.{Reaping, sig_chld-Quits}
use course_code.Exercise3.Counter.{Move, go, moves, beginning}
use course_code.Exercise3.Counter.Sequence.{InSequence}
use course_code.Exercise3.Counter.Numbers.{moves-InSequence}
use course_code.Exercise6.Datagram.{str_cli}
use course_code.Exercise6.Datagram.Sizes.{Shows, accepted_by, refused_by, shown_by, str_cli-Shows}
use course_code.Exercise6.Capacity.{fill}
use course_code.Exercise6.Capacity.Counting.{Reports, fill-Reports}

-- A connection that is shut down, for a child elsewhere, and one for this process as the child,
-- which reads two bytes.
abbrev early_connection : List Reply
early_connection =
    done 4 []
    ∷ done 0 []
    ∷ done 90 []
    ∷ done 0 []
    ∷ done 4 []
    ∷ done 0 []
    ∷ done 0 []
    ∷ done 0 []
    ∷ done 2 (7 ∷ 8 ∷ [])
    ∷ done 2 []
    ∷ []

accept_loop-follows_example :
    let r = accept_loop 3 (before_fork true) str_echo early_connection in
    (follows true 3 r.outcome idle r.trace ≡ true) × Endless r.outcome
accept_loop-follows_example = accept_loop-follows 3 str_echo true early_connection

-- Two forks of the parent with a pause behind each; the second fails.
abbrev forks : List Reply
forks = done 50 [] ∷ done 0 [] ∷ fail Errno.eintr ∷ done 7 [] ∷ []

fork_children-Family_example :
    let r = fork_children 3 5 forks in
    Family 3 5 r.outcome
      (gather forks_by r.trace)
      (gather counted_by r.trace)
      (gather left_by r.trace)
fork_children-Family_example = fork_children-Family 3 5 forks

-- Two bytes go into the pipe and the third would wait.
abbrev two_bytes : List Reply
two_bytes =
    done 0 []
    ∷ done 0 []
    ∷ done 1 []
    ∷ done 1 []
    ∷ done 1 []
    ∷ done 1 []
    ∷ done 1 []
    ∷ fail Errno.ewouldblock
    ∷ []

fill-Reports_example : Reports 4 0 (fill (0 ∷ []) 4 two_bytes)
fill-Reports_example = fill-Reports (0 ∷ []) 4 two_bytes

-- Two datagrams are accepted and the third is too large.
abbrev datagrams : List Reply
datagrams = done 50000 [] ∷ done 50001 [] ∷ fail Errno.emsgsize ∷ []

abbrev server : SockAddr
server = record { host = Host.any; port = 50011 }

str_cli-Shows_example :
    let r = str_cli (1 ∷ 2 ∷ []) 3 server datagrams in
    Shows
      (1 ∷ 2 ∷ [])
      3
      server
      (length (gather accepted_by r.trace))
      (gather refused_by r.trace)
      (gather shown_by r.trace)
str_cli-Shows_example = str_cli-Shows (1 ∷ 2 ∷ []) 3 server datagrams

-- Process 0 writes a's, process 1 writes b's.
abbrev letters : ℕ → ℕ
letters i = i + b'a'

abbrev blank : ℕ → ℕ
blank i = 0

abbrev three_rounds : ℕ → ℕ
three_rounds i = 3

-- A whole round of process 0 and one of process 1.
abbrev two_rounds : List Action
two_rounds = replicate 7 (run 0) ++ replicate 7 (run 1)

-- Process 0 is before its write.
abbrev before_put : List Action
before_put = replicate 4 (run 0)

two_rounds-counter : (schedule 2 letters two_rounds (initial 0 blank three_rounds)).mem.counter ≡ 2
unfolding schedule step advance my_lock_wait my_lock_release
two_rounds-counter = refl

before_put-pc : (schedule 2 letters before_put (initial 0 blank three_rounds)).pc 0 ≡ put 3
unfolding schedule step advance my_lock_wait my_lock_release
before_put-pc = refl

no_repetition_example :
    (schedule 2 letters two_rounds (initial 0 blank three_rounds)).mem.table 0
    ≢ (schedule 2 letters two_rounds (initial 0 blank three_rounds)).mem.table 1
no_repetition_example =
    no_repetition 2 letters 0 blank three_rounds two_rounds 0 (omega arith)
      (omega (arith, two_rounds-counter))

before_put-holds :
    holds ((schedule 2 letters before_put (initial 0 blank three_rounds)).pc 0) ≡ true
before_put-holds = rw before_put-pc

abbrev first_process : ℕ
first_process = 0

mutual_exclusion_example : first_process ≡ first_process
mutual_exclusion_example =
    mutual_exclusion 2 letters 0 blank three_rounds before_put first_process first_process
      (omega arith) (omega arith) before_put-holds before_put-holds

put_in_range_example :
    (schedule 2 letters before_put (initial 0 blank three_rounds)).mem.counter + 2 < size + 2
put_in_range_example =
    put_in_range 2 letters 0 blank three_rounds before_put (omega arith) 0 3 (omega arith)
      before_put-pc

two_rounds-first :
    (schedule 2 letters two_rounds (initial 0 blank three_rounds)).mem.table 0 ≡ letters 0
unfolding schedule step advance my_lock_wait my_lock_release
two_rounds-first = refl

two_take_turns_example :
    (schedule 2 letters two_rounds (initial 0 blank three_rounds)).mem.table (0 + 1)
    ≡ letters ((0 + 1) % 2)
two_take_turns_example =
    two_take_turns letters 0 blank three_rounds two_rounds 0 1 (omega arith) two_rounds-first
      (omega (arith, two_rounds-counter))

-- Two children ended, and no more.
abbrev endings : List Reply
endings = done 51 [] ∷ done 52 [] ∷ done 0 [] ∷ []

sig_chld-Quits_example : Reaping (sig_chld endings).outcome (sig_chld endings).trace
sig_chld-Quits_example = sig_chld-Quits endings

-- Process 0 adds one; process 1 waits for it, and adds one then.
abbrev two_increments : List Move
two_increments = go 0 ∷ go 1 ∷ (replicate 4 (go 0) ++ replicate 5 (go 1))

moves-InSequence_example : InSequence 7 (moves 2 two_increments (beginning 7)).memory.printed
moves-InSequence_example = moves-InSequence 2 7 two_increments (omega arith)
