-- ===== src/Exercise3/Client.antt =====
-- network-programming-2013/exercise3/client.c: the client of the doubling server.
pub mod Stale
pub mod Sending
use course_code.Base.{ℕ, List, [], ◌∷◌, length}
use course_code.Posix.Call.{Bytes, Call}
use course_code.Posix.Run.{M, pure, exit, ◌>>=◌, ◌>>◌}
use course_code.Posix.Io.{read, call}
use course_code.Posix.Loop.{while_read}
use course_code.Posix.Program.{handle_err, write_or_die, show_answer, open_connection}

abbrev pub max_line : ℕ
max_line = 256

abbrev pub serv_port : ℕ
serv_port = 50011

-- A round of the inner loop.
unfoldable pub receive : (sockfd n : ℕ) → (recvline : Bytes) → M Bytes
unfolding show_answer
receive = show_answer max_line

-- The body of the outer loop.
unfoldable pub exchange : (sockfd : ℕ) → (recvline sendline : Bytes) → M Bytes
unfolding receive write_or_die
exchange sockfd recvline sendline = do
  write_or_die "write error to server" sockfd sendline
  line ← receive sockfd (length sendline) recvline
  receive sockfd (length sendline) line

-- `recvline` is what the buffer holds at first.
unfoldable pub str_cli : (sockfd : ℕ) → (recvline : Bytes) → M (Unit {0})
unfolding exchange
str_cli sockfd recvline = do while_read (read 0 max_line) (exchange sockfd) recvline; pure tt

unfoldable pub main : (recvline : Bytes) → List Bytes → M (Unit {0})
unfolding str_cli open_connection
main recvline [] = handle_err "usage: client <IP address>"
main recvline (ip ∷ []) = do
  sockfd ← open_connection ip serv_port
  str_cli sockfd recvline
  call (Call.close sockfd)
  exit 0
main recvline (_ ∷ _ ∷ _) = handle_err "usage: client <IP address>"
