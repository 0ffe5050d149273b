-- ===== src/Exercise6/Capacity.antt =====
-- network-programming-2013/exercise6/q2-pipe.c, q2-tcp-client.c and q2-tcp-server.c: how many bytes a
-- pipe and a TCP connection hold.
pub mod Counting
use course_code.Base.{ℕ, ◌+◌, ltb, none, some, List, [], ◌∷◌, if◌then◌else◌, take, get_or}
use course_code.Posix.Call.{Bytes, Call, Arg, Errno, done, fail}
use course_code.Posix.Run.{M, sys, pure, exit, finish, Outcome, printf, stmt, ◌>>=◌, ◌>>◌}
use course_code.Posix.Io.{call, write, answer}
use course_code.Posix.Loop.{Next, again, leave, forever}
use course_code.Posix.Program.{handle_err, open_listener, open_connection, accept_loop}

abbrev pub serv_port : ℕ
serv_port = 50011

abbrev pub listen_backlog : ℕ
listen_backlog = 5

abbrev pub mem_size : ℕ
mem_size = 1

-- The `write` failed: the sum is shown if the reason is that it would wait.
unfoldable pub stop : Errno → (sum : ℕ) → M (Next ℕ (Unit {0}))
stop Errno.ewouldblock sum = printf "Max size: %d\n" (Arg.int sum ∷ []) >> pure (leave tt)
stop Errno.eintr sum = pure (leave tt)
stop Errno.enoent sum = pure (leave tt)
stop Errno.emsgsize sum = pure (leave tt)
stop (Errno.other _) sum = pure (leave tt)

-- A round of the loop of both programs. `garbage` is what fresh memory holds, `malloc_error` the
-- program's exit when there is none; `sum` counts the bytes that went in. A sum that no `int` holds is
-- undefined.
unfoldable pub fill_round : (garbage : Bytes) → (fd : ℕ) → (sum : ℕ) → M (Next ℕ (Unit {0}))
unfolding stop
fill_round garbage fd sum = do
  p ← call (Call.malloc mem_size)
  stmt (elim p [ none ↦ handle_err "malloc error" | some _ ↦ pure tt ])
  k ← sys (Call.write fd (take mem_size garbage))
  elim k [
    | done _ _ ↦
        if ltb (sum + mem_size) 2147483648
        then pure (again (sum + mem_size))
        else finish Outcome.fault
    | fail e ↦ stop e sum
  ]

-- O_NONBLOCK, then bytes until one is refused.
unfoldable pub fill : (garbage : Bytes) → (fd : ℕ) → M (Unit {0})
unfolding fill_round
fill garbage fd = do
  val ← sys (Call.get_flags fd)
  call (Call.set_nonblock fd (answer val))
  forever (fill_round garbage fd) 0

-- q2-pipe.c
unfoldable pub pipe_main : (garbage : Bytes) → M (Unit {0})
unfolding fill
pipe_main garbage = do
  r ← sys Call.pipe
  stmt (elim r [
    | fail _ ↦ handle_err "pipe error"
    | done _ pipefd ↦ fill garbage (get_or pipefd 1 0)
  ])
  exit 0

-- q2-tcp-client.c
unfoldable pub client_main : (garbage : Bytes) → (args : List Bytes) → M (Unit {0})
unfolding open_connection fill
client_main garbage [] = handle_err "usage: client <IP address>"
client_main garbage (ip ∷ []) = do
  sockfd ← open_connection ip serv_port
  fill garbage sockfd
  call (Call.close sockfd)
  exit 0
client_main garbage (_ ∷ _ ∷ _) = handle_err "usage: client <IP address>"

-- q2-tcp-server.c: the child holds the connection for a minute and reads nothing.
unfoldable pub server_main : M (Unit {0})
unfolding open_listener accept_loop
server_main = do
  listenfd ← open_listener serv_port listen_backlog
  accept_loop listenfd (λ _. pure tt) (λ _. call (Call.sleep 60) >> pure tt)
  exit 0
