-- ===== src/Exercise2/Children.antt =====
-- network-programming-2013/exercise2/question-2.c and question-3.c: children that count and children
-- that execute a file.
pub mod Forks
use course_code.Base.{
  ℕ, zero, suc, ◌+◌, Option, none, some, List, [], ◌∷◌, if◌then◌else◌, get_or, get_elem?,
}
use course_code.Base.Int.{pos, negsuc}
use course_code.Posix.Call.{Bytes, Call, Arg, done, fail}
use course_code.Posix.Run.{
  M, sys, pure, exit, emit, finish, Outcome, printf, stmt, fprintf_stderr, ◌>>=◌, ◌>>◌,
}
use course_code.Posix.Libc.{atoi, s_isreg}
use course_code.Posix.Io.{call, answer}
use course_code.Posix.Loop.{times}

abbrev pub fork_num : ℕ
fork_num = 5

-- `printf("[pid %d] i = %d\n", getpid(), i)` for `i` from `first` on, `rounds` times.
unfoldable pub count_lines : (rounds first : ℕ) → M (Unit {0})
count_lines zero first = pure tt
count_lines (suc rounds) first = do
  pid ← sys Call.getpid
  printf "[pid %d] i = %d\n" (Arg.int (answer pid) ∷ Arg.int first ∷ [])
  count_lines rounds (first + 1)

-- The `while (pnum > 0)` of question-2.c. A child ends by `_exit`, which does not put out what
-- `printf` has buffered: its lines are lost where the standard output is no terminal.
unfoldable pub fork_children : (loop_num pnum : ℕ) → M (Unit {0})
unfolding count_lines
fork_children loop_num zero = exit 0
fork_children loop_num (suc pnum) = do
  pid ← call Call.fork
  elim pid [
    | none ↦ (do
      me ← sys Call.getpid
      fprintf_stderr "[pid %d] fork error\n" (Arg.int (answer me) ∷ [])
      exit 1)
    | some zero ↦ (do count_lines loop_num 0; emit (Call.exit_at_once 0); exit 0)
    | some (suc _) ↦ call (Call.sleep 1) >> fork_children loop_num pnum
  ]

-- question-2.c
unfoldable pub main : (args : List Bytes) → M (Unit {0})
unfolding fork_children
main [] = fork_children 10 fork_num
main (arg ∷ []) = elim (atoi arg) [
  | pos zero ↦ fprintf_stderr "wrong arg given: %s\n" (Arg.text arg ∷ []) >> exit 1
  | pos (suc n) ↦ fork_children (suc n) fork_num
  | negsuc _ ↦ fprintf_stderr "wrong arg given: %s\n" (Arg.text arg ∷ []) >> exit 1
]
main (_ ∷ _ ∷ _) = fork_children 10 fork_num

-- `do_child` of question-3.c: the second argument becomes argv[0] of the file. `printf` of a
-- missing one, the null pointer, is undefined.
unfoldable pub do_child : (path : Bytes) → (arg : Option Bytes) → M (Unit {0})
do_child path none = printf "%s\n" (Arg.text path ∷ []) >> finish Outcome.fault
do_child path (some arg) = do
  printf "%s\n" (Arg.text path ∷ [])
  printf "%s\n" (Arg.text arg ∷ [])
  r ← call (Call.execve path (arg ∷ []))
  elim r [
    | none ↦ (do
      me ← sys Call.getpid
      fprintf_stderr "[pid %d] execl error\n" (Arg.int (answer me) ∷ [])
      emit (Call.exit_at_once 1)
      exit 1)
    | some _ ↦ exit 0
  ]

-- The parent of question-3.c.
unfoldable pub await_child : (pid : ℕ) → M (Unit {0})
unfolding count_lines
await_child pid = do
  r ← call (Call.wait_child pid)
  elim r [
    | none ↦ (do
      me ← sys Call.getpid
      printf "[pid %d] wait error\n" (Arg.int (answer me) ∷ [])
      exit 1)
    | some _ ↦ (do count_lines 5 0; call (Call.sleep 1); pure tt)
  ]

-- question-3.c behind the checks of the file.
unfoldable pub launch : (path : Bytes) → (arg : Option Bytes) → M (Unit {0})
unfolding do_child await_child
launch path arg = do
  pid ← call Call.fork
  stmt (elim pid [
    | none ↦ (do
      me ← sys Call.getpid
      fprintf_stderr "[pid %d] fork error\n" (Arg.int (answer me) ∷ [])
      exit 1)
    | some zero ↦ (do do_child path arg; emit (Call.exit_at_once 0); exit 0)
    | some (suc n) ↦ await_child (suc n)
  ])
  exit 0

-- question-3.c
unfoldable pub main_exec : (args : List Bytes) → M (Unit {0})
unfolding launch
main_exec [] = fprintf_stderr "input args error\n" [] >> exit 1
main_exec (path ∷ args) = do
  r ← sys (Call.stat path)
  elim r [
    | fail _ ↦ fprintf_stderr "error path, fail to check the file\n" [] >> exit 1
    | done _ buf ↦
        if s_isreg (get_or buf 0 0)
        then launch path (get_elem? args 0)
        else (fprintf_stderr "error file type, should be regular file\n" [] >> exit 1)
  ]
