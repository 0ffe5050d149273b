-- ===== src/Exercise2/PipeDoubler.antt =====
-- network-programming-2013/exercise2/question-6.c: a reader and a doubler joined by a pipe.
pub mod Copies
pub mod Pipeline
use course_code.Base.{ℕ, zero, suc, none, some, String, [], ◌∷◌, get_or}
use course_code.Posix.Call.{Bytes, Call, Arg, done, fail}
use course_code.Posix.Run.{M, sys, pure, exit, stmt, fprintf_stderr, ◌>>=◌, ◌>>◌}
use course_code.Posix.Libc.{codes}
use course_code.Posix.Io.{read, call, write}
use course_code.Posix.Loop.{while_read, times}

abbrev pub max_line : ℕ
max_line = 1024

-- `err_quit` of this program prints the text itself.
abbrev pub err_quit : {A : Type 0} → String → M A
err_quit str = fprintf_stderr "%s\n" (Arg.text (codes str) ∷ []) >> exit 1

unfoldable pub write_or_quit : String → ℕ → Bytes → M (Unit {0})
write_or_quit str fd buf = do k ← write fd buf; elim k [ none ↦ err_quit str | some _ ↦ pure tt ]

unfoldable pub doubler : (fd : ℕ) → M (Unit {0})
unfolding write_or_quit
doubler fd = do
  while_read (read fd max_line) (λ _ buf. times 2 (write_or_quit "write error to stdout" 1 buf)) tt
  pure tt

unfoldable pub parent : (pid read_end write_end : ℕ) → M (Unit {0})
unfolding write_or_quit
parent pid read_end write_end = do
  call (Call.close read_end)
  while_read (read 0 max_line) (λ _ line. write_or_quit "write error to pipe\n" write_end line) tt
  call (Call.close write_end)
  r ← call (Call.wait_child pid)
  stmt (elim r [ none ↦ err_quit "waitpid error" | some _ ↦ pure tt ])
  exit 0

unfoldable pub child : (read_end write_end : ℕ) → M (Unit {0})
unfolding doubler
child read_end write_end = do call (Call.close write_end); doubler read_end; exit 0

-- `pipe` stores the two ends.
unfoldable pub main : M (Unit {0})
unfolding parent child
main = do
  r ← sys Call.pipe
  elim r [
    | fail _ ↦ err_quit "pipe error"
    | done _ ends ↦ (do
      pid ← call Call.fork
      elim pid [
        | none ↦ err_quit "fork error"
        | some zero ↦ child (get_or ends 0 0) (get_or ends 1 0)
        | some (suc n) ↦ parent (suc n) (get_or ends 0 0) (get_or ends 1 0)
      ])
  ]
