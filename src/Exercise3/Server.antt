-- ===== src/Exercise3/Server.antt =====
-- network-programming-2013/exercise3/server.c: a concurrent server that sends each piece back twice.
pub mod Doubling
use course_code.Base.{ℕ}
use course_code.Posix.Run.{M, pure, exit, ◌>>=◌, ◌>>◌}
use course_code.Posix.Io.{read}
use course_code.Posix.Loop.{Next, again, forever, while_read, at_eof, on_error}
use course_code.Posix.Program.{handle_err, write_unchecked, open_listener, accept_loop}

abbrev pub max_line : ℕ
max_line = 256

abbrev pub serv_port : ℕ
serv_port = 50011

abbrev pub listen_backlog : ℕ
listen_backlog = 5

-- A round of the outer `for ( ; ; )`: the inner loop, and the test on its last `n`. At the end of
-- the input the outer loop starts the inner one again.
unfoldable pub echo_round : (sockfd : ℕ) → Unit {0} → M (Next (Unit {0}) (Unit {0}))
unfolding write_unchecked
echo_round sockfd _ = do
  (_, n) ←
      while_read (read sockfd max_line)
        (λ _ buf. do write_unchecked sockfd buf; write_unchecked sockfd buf) tt
  elim n [ at_eof ↦ pure (again tt) | on_error ↦ handle_err "read error" ]

unfoldable pub str_echo : (sockfd : ℕ) → M (Unit {0})
unfolding echo_round
str_echo sockfd = forever (echo_round sockfd) tt

unfoldable pub main : M (Unit {0})
unfolding open_listener accept_loop str_echo
main = do
  listenfd ← open_listener serv_port listen_backlog
  accept_loop listenfd (λ _. pure tt) str_echo
  exit 0
