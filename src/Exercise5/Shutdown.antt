-- ===== src/Exercise5/Shutdown.antt =====
-- network-programming-2013/exercise5/q4-server.c and q4-client.c: connections that are shut down early.
pub mod Printing
use course_code.Base.{ℕ, true, false, none, some, List, [], ◌∷◌}
use course_code.Posix.Call.{Bytes, Call, Arg, Signal, Handler}
use course_code.Posix.Run.{M, pure, exit, printf, ◌>>=◌, ◌>>◌}
use course_code.Posix.Io.{failed, read, call, write}
use course_code.Posix.Loop.{Next, again, forever, while_read, at_eof, on_error}
use course_code.Posix.Program.{
  handle_err, need, write_unchecked, open_listener, open_connection, accept_loop,
}

abbrev pub max_bytes : ℕ
max_bytes = 256

abbrev pub serv_port : ℕ
serv_port = 50011

abbrev pub listen_backlog : ℕ
listen_backlog = 5

unfoldable pub write_round : (sockfd : ℕ) → Unit {0} → M (Next (Unit {0}) (Unit {0}))
unfolding write_unchecked
write_round sockfd _ = do
  (_, n) ← while_read (read sockfd max_bytes) (λ _ buf. write_unchecked 1 buf) tt
  elim n [ at_eof ↦ pure (again tt) | on_error ↦ handle_err "read error" ]

unfoldable pub str_write : (sockfd : ℕ) → M (Unit {0})
unfolding write_round
str_write sockfd = forever (write_round sockfd) tt

unfoldable pub sig_int : (signo : ℕ) → M (Unit {0})
sig_int signo = printf "terminated by signal %d\n" (Arg.int signo ∷ []) >> exit 0

-- What the server does with a connection before it forks.
unfoldable pub shut : (connfd : ℕ) → M (Unit {0})
unfolding need
shut connfd = need "shutdown error" (Call.shutdown connfd "SHUT_RDWR") >> pure tt

unfoldable pub server_main : M (Unit {0})
unfolding open_listener need accept_loop shut str_write
server_main = do
  listenfd ← open_listener serv_port listen_backlog
  need "sigaction error" (Call.sigaction Signal.sigint (Handler.handler "sig_int") true)
  accept_loop listenfd shut str_write
  exit 0

-- The body of the loop of `cli_str`: a failed `write` is reported, and the loop goes on.
unfoldable pub send_line : (sockfd : ℕ) → Unit {0} → Bytes → M (Unit {0})
send_line sockfd _ sendline = do
  k ← write sockfd sendline
  elim k [ none ↦ printf "Broken pipe\n" [] | some _ ↦ pure tt ]

unfoldable pub cli_str : (sockfd : ℕ) → M (Unit {0})
unfolding send_line
cli_str sockfd = do while_read (read 0 max_bytes) (send_line sockfd) tt; pure tt

unfoldable pub client_main : (args : List Bytes) → M (Unit {0})
unfolding open_connection need cli_str
client_main [] = handle_err "usage: client <IP address>"
client_main (ip ∷ []) = do
  sockfd ← open_connection ip serv_port
  need "shutdown error" (Call.shutdown sockfd "SHUT_RD")
  need "sigaction error" (Call.sigaction Signal.sigpipe Handler.ignored false)
  cli_str sockfd
  call (Call.close sockfd)
  exit 0
client_main (_ ∷ _ ∷ _) = handle_err "usage: client <IP address>"
