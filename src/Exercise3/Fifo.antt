-- ===== src/Exercise3/Fifo.antt =====
-- network-programming-2013/exercise3/question-2.c: a reader and a converter joined by two FIFOs.
pub mod Exchange
pub mod Redirected
pub mod Wiring
pub mod Conversion
pub mod Failures
use course_code.Base.{ℕ, none, some, String, [], ◌∷◌, ◌==◌, if◌then◌else◌}
use course_code.Posix.Call.{Bytes, Call}
use course_code.Posix.Run.{stmt, M, pure, exit, ◌>>=◌, ◌>>◌}
use course_code.Posix.Libc.{codes}
use course_code.Posix.Io.{chunk, eof, failed, read, call}
use course_code.Posix.Program.{handle_err, need, write_or_die}

abbrev pub fifo1 : Bytes
fifo1 = codes "/tmp/fifo1"

abbrev pub fifo2 : Bytes
fifo2 = codes "/tmp/fifo2"

abbrev pub max_line : ℕ
max_line = 1024

-- `err_quit` on a failure of either call; `||` makes the second only if the first succeeds.
unfoldable pub both_or_die : String → Call → Call → M (Unit {0})
unfolding need
both_or_die str c d = do need str c; need str d; pure tt

-- A read of one piece, which is handed on.
unfoldable pub forward_once : (from_fd to_fd : ℕ) → String → M (Unit {0})
unfolding write_or_die
forward_once from_fd to_fd str = do
  g ← read from_fd max_line
  elim g [ chunk b bs ↦ write_or_die str to_fd (b ∷ bs) | eof ↦ pure tt | failed ↦ pure tt ]

-- The parent behind its two `open`s.
unfoldable pub exchange : (pid wfd rfd : ℕ) → M (Unit {0})
unfolding need forward_once both_or_die
exchange pid wfd rfd = do
  forward_once 0 wfd "parent: write error to fifo\n"
  need "parent: waitpid error" (Call.wait_child pid)
  forward_once rfd 1 "parent: write error to stdout\n"
  both_or_die "parent: close fifo error" (Call.close rfd) (Call.close wfd)
  both_or_die "parent: unlink fifo error" (Call.unlink fifo1) (Call.unlink fifo2)

unfoldable pub parent : (pid : ℕ) → M (Unit {0})
unfolding need exchange
parent pid = do
  wfd ← need "parent: open fifo error" (Call.open_file fifo1 "O_WRONLY")
  rfd ← need "parent: open fifo error" (Call.open_file fifo2 "O_RDONLY")
  exchange pid wfd rfd

-- `dup2` to a descriptor of the standard streams, unless it is that one already. What it does to the
-- descriptors of the process is read off its calls, in Fifo/Wiring.antt.
unfoldable pub redirect : (fd target : ℕ) → M (Unit {0})
redirect fd target = if fd == target then pure tt else (do
  r ← call (Call.dup2 fd target)
  stmt (elim r [
    | none ↦ handle_err "child: dup2 error"
    | some n ↦ if n == target then pure tt else handle_err "child: dup2 error"
  ])
  call (Call.close fd)
  pure tt)

unfoldable pub child : M (Unit {0})
unfolding need redirect
child = do
  rfd ← need "child: open fifo error" (Call.open_file fifo1 "O_RDONLY")
  wfd ← need "child: open fifo error" (Call.open_file fifo2 "O_WRONLY")
  redirect rfd 0
  redirect wfd 1
  need "child: exec converter error" (Call.execve (codes "converter") [])
  exit 0

unfoldable pub main : M (Unit {0})
unfolding need parent child
main = do
  need "fifo error" (Call.mkfifo fifo1)
  r ← call (Call.mkfifo fifo2)
  stmt (elim r [ none ↦ (do call (Call.unlink fifo1); handle_err "fifo error") | some _ ↦ pure tt ])
  pid ← need "fork error" Call.fork
  if pid == 0 then child else parent pid
  exit 0
