-- ===== src/Break/Client.antt =====
-- network-programming-2013/break-exercise/client.c: the dialogue with the UNIX_TL server, and the server that
-- it asks for.
pub mod Port
pub mod Dialogue
use course_code.Base.{
  ℕ, zero, suc, ◌+◌, ◌-◌, true, not, none, some, List, [], ◌∷◌, ◌==◌, if◌then◌else◌, take, drop,
  length, get_or,
}
use course_code.Posix.Call.{Bytes, Call, Arg, Kind, Signal, Handler}
use course_code.Posix.Run.{M, pure, exit, printf, stmt, ◌>>=◌, ◌>>◌}
use course_code.Posix.Libc.{htons_int, codes, overwrite, atoi}
use course_code.Posix.Io.{chunk, eof, failed, read, call, write}
use course_code.Posix.Program.{
  handle_err, need, write_or_die, write_unchecked, open_listener, accept_loop,
}
use course_code.Break.Session.{Session, Surroundings, literal, max_line, response}
use course_code.Exercise4.EchoClient.{resolve, connect_any}

abbrev pub listen_backlog : ℕ
listen_backlog = 10

-- The last blank at a position from `i` down to 1, or 0.
unfoldable pub last_blank : (recvline : Bytes) → (i : ℕ) → ℕ
last_blank recvline zero = 0
last_blank recvline (suc i) =
    let rest = last_blank recvline i in if get_or recvline (suc i) 0 == 32 then suc i else rest

-- The bytes between the last blank and the last of the `m` bytes.
unfoldable pub port_text : (recvline : Bytes) → (m : ℕ) → Bytes
unfolding last_blank
port_text recvline m =
    let i = last_blank recvline (m - 2) in take (m - 2 - i) (drop (i + 1) recvline)

-- What a read leaves: the buffer, and `m`, or 0 where it is not positive.
pub record Received : Type 0 where
  pub recvline : Bytes
  pub m : ℕ

-- `if ((m = read(sockfd, recvline, MAXLINE)) > 0) write(STDOUT_FILENO, recvline, m);`
unfoldable pub show : (sockfd : ℕ) → (recvline : Bytes) → M Received
unfolding write_unchecked
show sockfd recvline = do
  g ← read sockfd max_line
  elim g [
    | chunk b bs ↦ (do
      write_unchecked 1 (b ∷ bs)
      pure (record { recvline = overwrite recvline (b ∷ bs); m = length (b ∷ bs) }))
    | eof ↦ pure (record { recvline = recvline; m = 0 })
    | failed ↦ pure (record { recvline = recvline; m = 0 })
  ]

-- A pause, and a line to the server; `size` may go beyond the literal.
unfoldable pub say : Surroundings → (sockfd pause : ℕ) → (line : Bytes) → (size : ℕ) → M (Unit {0})
unfolding write_or_die
say w sockfd pause line size = do
  call (Call.usleep pause)
  write_or_die "write error to server" sockfd (literal w line size)

unfoldable pub server : Surroundings → Session → (port : ℕ) → M (Unit {0})
unfolding open_listener need accept_loop response
server w start port = do
  listenfd ← open_listener port listen_backlog
  need "sigint error" (Call.sigaction Signal.sigint (Handler.handler "sig_int") true)
  accept_loop listenfd (λ _. pure tt) (response w start)

unfoldable pub sig_int : (signo : ℕ) → M (Unit {0})
sig_int signo = printf "terminated by signal %d\n" (Arg.int signo ∷ [])

-- The dialogue with the server of the course.
unfoldable pub greet : Surroundings → (sockfd : ℕ) → (recvline : Bytes) → M Received
unfolding show say
greet w sockfd recvline = do
  r1 ← show sockfd recvline
  say w sockfd 10000 (codes "hello\n") 6
  r2 ← show sockfd r1.recvline
  say w sockfd 30000 (codes "yfliu\n") 6
  r3 ← show sockfd r2.recvline
  say w sockfd 800000 (codes "ok\n") 10
  r4 ← show sockfd r3.recvline
  show sockfd r4.recvline

-- `start` is what the variables of `response` hold at first.
unfoldable pub str_cli : Surroundings → Session → (sockfd : ℕ) → (recvline : Bytes) → M (Unit {0})
unfolding greet port_text server atoi
str_cli w start sockfd recvline = do
  r ← greet w sockfd recvline
  server w start (htons_int (atoi (port_text r.recvline r.m)))

-- `main` with the entry of `rp` known to the rest: `world` gives what surrounds the session for it.
unfoldable pub main :
    (world : ℕ → Surroundings) → Session → (recvline : Bytes) → (args : List Bytes) → M (Unit {0})
unfolding need resolve connect_any str_cli
main world start recvline [] = handle_err "usage: client <url> <service>"
main world start recvline (_ ∷ []) = handle_err "usage: client <url> <service>"
main world start recvline (url ∷ service ∷ _) = do
  sockfd ← need "socket error" (Call.socket Kind.stream)
  entries ← resolve url service
  rp ← connect_any sockfd entries
  stmt (elim rp [
    | none ↦ handle_err "Could not find correct ip to connect"
    | some entry ↦ str_cli (world entry) start sockfd recvline
  ])
  call (Call.close sockfd)
  exit 0
