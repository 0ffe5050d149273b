-- ===== src/Exercise3/ExitStatus.antt =====
-- network-programming-2013/exercise3/question-1.c and question-1-pipe.c: a child that executes `doubler`,
-- and the report on how it ended.
pub mod Decoding
pub mod Piping
pub mod Wiring
pub mod Chain
use course_code.Base.{ℕ, zero, suc, none, some, [], ◌∷◌, ◌==◌, if◌then◌else◌}
use course_code.Posix.Call.{Call, Arg, done, fail}
use course_code.Posix.Run.{stmt, M, sys, pure, exit, finish, Outcome, printf, ◌>>=◌, ◌>>◌}
use course_code.Posix.Libc.{
  codes, wifexited, wexitstatus, wifsignaled, wtermsig, wifstopped, wstopsig, wifcontinued,
}
use course_code.Posix.Io.{read, call, write}
use course_code.Posix.Loop.{while_read}
use course_code.Posix.Program.{handle_err, need, write_or_die}

-- `pr_exit`, the same in both programs.
unfoldable pub pr_exit : ℕ → M (Unit {0})
pr_exit status =
    if wifexited status
    then printf "normally exited, status=%d\n" (Arg.int (wexitstatus status) ∷ [])
    else if wifsignaled status
    then printf "killed by signal %d\n" (Arg.int (wtermsig status) ∷ [])
    else if wifstopped status
    then printf "stopped by signal %d\n" (Arg.int (wstopsig status) ∷ [])
    else if wifcontinued status
    then printf "continued\n" []
    else pure tt

-- `waitpid(pid, &status, 0)`: `status` keeps its old value if the call stores none.
unfoldable pub wait_status : (pid status : ℕ) → M ℕ
wait_status pid status = do
  r ← sys (Call.wait_child pid)
  elim r [
    | done _ l ↦ pure (elim l [ [] ↦ status | s ∷ _ ↦ s ])
    | fail _ ↦ handle_err "waitpid error"
  ]

-- `execve(PATH, argv, environ)` with an empty `argv`; it comes back only if it fails.
unfoldable pub exec_doubler : M (Unit {0})
exec_doubler = do
  r ← call (Call.execve (codes "doubler") [])
  elim r [ none ↦ handle_err "exec doubler error" | some _ ↦ exit 0 ]

-- question-1.c; `status` is what the variable holds at first.
unfoldable pub main : (status : ℕ) → M (Unit {0})
unfolding pr_exit wait_status exec_doubler need
main status = do
  pid ← need "fork error" Call.fork
  status' ← (if pid == 0 then (exec_doubler >> pure status) else wait_status pid status)
  pr_exit status'
  exit 0

-- The child of question-1-pipe.c: the read end becomes the standard input, as ExitStatus/Wiring.antt
-- reads off its calls.
unfoldable pub piped_child : (read_end write_end : ℕ) → M (Unit {0})
unfolding exec_doubler
piped_child read_end write_end = do
  call (Call.close write_end)
  if read_end == 0 then pure tt else (do
    r ← call (Call.dup2 read_end 0)
    stmt (elim r [
      | some zero ↦ pure tt
      | some (suc _) ↦ handle_err "dup2 error"
      | none ↦ handle_err "dup2 error"
    ])
    call (Call.close read_end)
    pure tt)
  exec_doubler

-- The parent of question-1-pipe.c: copies its input into the pipe and waits.
unfoldable pub piped_parent : (pid read_end write_end status : ℕ) → M (Unit {0})
unfolding pr_exit wait_status write_or_die
piped_parent pid read_end write_end status = do
  call (Call.close read_end)
  while_read (read 0 1024) (λ _ line. write_or_die "write error to pipe\n" write_end line) tt
  call (Call.close write_end)
  status' ← wait_status pid status
  pr_exit status'
  exit 0

-- question-1-pipe.c; `pipe` stores the two ends.
unfoldable pub piped_main : (status : ℕ) → M (Unit {0})
unfolding piped_child piped_parent need
piped_main status = do
  r ← sys Call.pipe
  elim r [
    | fail _ ↦ handle_err "pipe error"
    | done _ l ↦ elim l [
      | [] ↦ finish Outcome.fault
      | read_end ∷ r ↦ elim r [
        | [] ↦ finish Outcome.fault
        | write_end ∷ _ ↦ (do
          pid ← need "fork error" Call.fork
          if pid == 0
              then piped_child read_end write_end
              else piped_parent pid read_end write_end status)
      ]
    ]
  ]
