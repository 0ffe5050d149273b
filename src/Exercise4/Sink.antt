-- ===== src/Exercise4/Sink.antt =====
-- network-programming-2013/exercise4/server.c: a concurrent server that reads and takes the time.
pub mod Watch
pub mod Timing
use course_code.Base.{ℕ, zero, suc, true, Option, none, some, List, [], ◌∷◌}
use course_code.Base.Int.{ℤ, pos, negsuc}
use course_code.Posix.Call.{Bytes, Call, Signal, Handler}
use course_code.Posix.Run.{M, sys, pure, exit, finish, Outcome, printf, ◌>>=◌, ◌>>◌}
use course_code.Posix.Libc.{atoi}
use course_code.Posix.Io.{read, stored}
use course_code.Posix.Loop.{Next, again, forever, while_read, at_eof, on_error}
use course_code.Posix.Program.{handle_err, need, open_listener, accept_loop, wait_children, elapsed}

abbrev pub serv_port : ℕ
serv_port = 50011

abbrev pub listen_backlog : ℕ
listen_backlog = 5

-- `start`, once `flag` is set
abbrev pub Clock : Type 0
Clock = Option (List ℕ)

-- The clock starts at the first piece.
unfoldable pub start_clock : Clock → Bytes → M Clock
start_clock (some start) buf = pure (some start)
start_clock none buf = do start ← sys Call.gettimeofday; pure (some (stored start))

unfoldable pub stop_clock : Clock → M (Unit {0})
stop_clock none = pure tt
stop_clock (some start) = do
  end ← sys Call.gettimeofday
  printf "The elapsed time for receiving is %fs\n" (elapsed start (stored end) ∷ [])

-- A round of the outer loop. `flag` is 0 again after the report, and at the end of the input the
-- inner loop starts again.
unfoldable pub read_round : (sockfd count : ℕ) → Clock → M (Next Clock (Unit {0}))
unfolding start_clock stop_clock
read_round sockfd count clock = do
  (clock', n) ← while_read (read sockfd count) start_clock clock
  elim n [ at_eof ↦ (do stop_clock clock'; pure (again none)) | on_error ↦ handle_err "read error" ]

-- An array whose size is not positive is undefined.
unfoldable pub read_data : (count : ℤ) → (sockfd : ℕ) → M (Unit {0})
unfolding read_round
read_data (pos zero) sockfd = finish Outcome.fault
read_data (pos (suc n)) sockfd = forever (read_round sockfd (suc n)) none
read_data (negsuc _) sockfd = finish Outcome.fault

unfoldable pub sig_chld : M (Unit {0})
unfolding wait_children
sig_chld = wait_children

unfoldable pub main : (args : List Bytes) → M (Unit {0})
unfolding open_listener need accept_loop read_data
main (arg ∷ []) = do
  listenfd ← open_listener serv_port listen_backlog
  need "waitpid error" (Call.sigaction Signal.sigchld (Handler.handler "sig_chld") true)
  accept_loop listenfd (λ _. pure tt) (read_data (atoi arg))
  exit 0
main [] = handle_err "usage: server <count>"
main (_ ∷ _ ∷ _) = handle_err "usage: server <count>"
