-- ===== src/Exercise5/Echo.antt =====
-- network-programming-2013/exercise5/q3-server.c and q3-client.c: an echo service whose server handles
-- SIGCHLD and SIGINT.
pub mod Echoing
pub mod Reaping
pub mod Sending
use course_code.Base.{ℕ, true, List, [], ◌∷◌, take, length}
use course_code.Posix.Call.{Bytes, Call, Arg, Signal, Handler}
use course_code.Posix.Run.{M, pure, exit, printf, ◌>>=◌, ◌>>◌}
use course_code.Posix.Libc.{overwrite}
use course_code.Posix.Io.{chunk, eof, failed, read, call, write, answer}
use course_code.Posix.Loop.{Next, again, forever, while_read, at_eof, on_error}
use course_code.Posix.Program.{
  handle_err, need, write_or_die, write_unchecked, open_listener, open_connection, accept_loop,
  wait_children,
}

abbrev pub max_bytes : ℕ
max_bytes = 256

abbrev pub serv_port : ℕ
serv_port = 50011

abbrev pub listen_backlog : ℕ
listen_backlog = 5

unfoldable pub echo_round : (sockfd : ℕ) → Unit {0} → M (Next (Unit {0}) (Unit {0}))
unfolding write_unchecked
echo_round sockfd _ = do
  (_, n) ← while_read (read sockfd max_bytes) (λ _ buf. write_unchecked sockfd buf) tt
  elim n [ at_eof ↦ pure (again tt) | on_error ↦ handle_err "read error" ]

unfoldable pub str_echo : (sockfd : ℕ) → M (Unit {0})
unfolding echo_round
str_echo sockfd = forever (echo_round sockfd) tt

-- The handler ends the server.
unfoldable pub sig_chld : M (Unit {0})
unfolding wait_children
sig_chld = wait_children >> exit 0

unfoldable pub sig_int : (signo : ℕ) → M (Unit {0})
sig_int signo = printf "terminated by signal %d\n" (Arg.int signo ∷ []) >> exit 0

unfoldable pub server_main : M (Unit {0})
unfolding open_listener need accept_loop str_echo
server_main = do
  listenfd ← open_listener serv_port listen_backlog
  need "waitpid error" (Call.sigaction Signal.sigchld (Handler.handler "sig_chld") true)
  need "sigint error" (Call.sigaction Signal.sigint (Handler.handler "sig_int") true)
  accept_loop listenfd (λ _. pure tt) str_echo
  exit 0

-- The body of the loop of `cli_str`: the answer is written with the length of the question.
unfoldable pub exchange : (sockfd : ℕ) → (recvline sendline : Bytes) → M Bytes
unfolding write_or_die write_unchecked
exchange sockfd recvline sendline = do
  write_or_die "write error to server" sockfd sendline
  m ← read sockfd max_bytes
  elim m [
    | chunk b bs ↦ (do
      let line = overwrite recvline (b ∷ bs)
      write_unchecked 1 (take (length sendline) line)
      pure line)
    | eof ↦ pure recvline
    | failed ↦ pure recvline
  ]

unfoldable pub cli_str : (sockfd : ℕ) → (recvline : Bytes) → M (Unit {0})
unfolding exchange
cli_str sockfd recvline = do while_read (read 0 max_bytes) (exchange sockfd) recvline; pure tt

unfoldable pub client_main : (recvline : Bytes) → (args : List Bytes) → M (Unit {0})
unfolding open_connection cli_str
client_main recvline [] = handle_err "usage: client <IP address>"
client_main recvline (ip ∷ []) = do
  sockfd ← open_connection ip serv_port
  cli_str sockfd recvline
  call (Call.close sockfd)
  exit 0
client_main recvline (_ ∷ _ ∷ _) = handle_err "usage: client <IP address>"
