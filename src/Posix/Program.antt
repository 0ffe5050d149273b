-- ===== src/Posix/Program.antt =====
-- Idioms that most programs share: a call whose failure ends the program, a checked write, the
-- TCP listener, and the accept loop of a concurrent server.
use course_code.Base.{
  ℕ, take, get_or, zero, suc, none, some, String, List, [], ◌∷◌, ◌%◌, ◌^◌, ◌==◌, if◌then◌else◌,
}
use course_code.Base.Int.{sub_ℕ}
use course_code.Posix.Call.{Bytes, Arg, Call, SockAddr, Host, Kind}
use course_code.Posix.Run.{M, printf, perror, exit, pure, ◌>>=◌, ◌>>◌}
use course_code.Posix.Io.{chunk, eof, failed, read, call, write}
use course_code.Posix.Libc.{overwrite}
use course_code.Posix.Loop.{Next, again, leave, forever}

-- `perror(str); exit(EXIT_FAILURE);`: the `handle_err` and `err_quit` of the programs.
abbrev pub handle_err : {A : Type 0} → String → M A
handle_err str = perror str >> exit 1

-- The result of a call that must not be -1.
unfoldable pub need : String → Call → M ℕ
need str c = do r ← call c; elim r [ none ↦ handle_err str | some n ↦ pure n ]

-- `if (write(fd, buf, n) == EOF) handle_err(str);`
unfoldable pub write_or_die : String → ℕ → Bytes → M (Unit {0})
write_or_die str fd buf = do k ← write fd buf; elim k [ none ↦ handle_err str | some _ ↦ pure tt ]

-- A `write` whose result is not looked at.
unfoldable pub write_unchecked : ℕ → Bytes → M (Unit {0})
write_unchecked fd buf = write fd buf >> pure tt

-- `if ((m = read(sockfd, recvline, count)) > 0) write(STDOUT_FILENO, recvline, n);` of the clients:
-- `n` is the length of the line that was sent, and not of the answer.
unfoldable pub show_answer : (count sockfd n : ℕ) → (recvline : Bytes) → M Bytes
unfolding write_unchecked
show_answer count sockfd n recvline = do
  m ← read sockfd count
  elim m [
    | chunk b bs ↦ (do
      let line = overwrite recvline (b ∷ bs)
      write_unchecked 1 (take n line)
      pure line)
    | eof ↦ pure recvline
    | failed ↦ pure recvline
  ]

-- `htons` of an `int` keeps 16 bits.
abbrev pub htons : ℕ → ℕ
htons port = port % 2 ^ 16

abbrev pub any_addr : ℕ → SockAddr
any_addr port = record { host = Host.any; port = htons port }

abbrev pub dotted_addr : Bytes → ℕ → SockAddr
dotted_addr ip port = record { host = Host.dotted ip; port = htons port }

-- socket, bind and listen, each with its message.
unfoldable pub open_listener : (port backlog : ℕ) → M ℕ
unfolding need
open_listener port backlog = do
  listenfd ← need "socket error" (Call.socket Kind.stream)
  need "binding error" (Call.bind listenfd (any_addr port))
  need "listen error" (Call.listen listenfd backlog)
  pure listenfd

-- socket and connect of a TCP client.
unfoldable pub open_connection : (ip : Bytes) → (port : ℕ) → M ℕ
unfolding need
open_connection ip port = do
  sockfd ← need "socket error" (Call.socket Kind.stream)
  need "connecting error" (Call.connect sockfd (dotted_addr ip port))
  pure sockfd

-- A round of the accept loop: `accepted` runs before the fork, `serve` in the child.
unfoldable pub accept_round :
    (listenfd : ℕ) → (accepted serve : ℕ → M (Unit {0})) → Unit {0} → M (Next (Unit {0}) (Unit {0}))
unfolding need
accept_round listenfd accepted serve _ = do
  connfd ← need "accept error" (Call.accept listenfd)
  accepted connfd
  childpid ← need "fork error" Call.fork
  if childpid == 0
      then (do call (Call.close listenfd); serve connfd; exit 0)
      else (do call (Call.close connfd); pure (again tt))

unfoldable pub accept_loop : (listenfd : ℕ) → (accepted serve : ℕ → M (Unit {0})) → M (Unit {0})
unfolding accept_round
accept_loop listenfd accepted serve = forever (accept_round listenfd accepted serve) tt

-- `while ((pid = waitpid(-1, &stat, WNOHANG)) > 0) printf(...)`, the handlers of SIGCHLD.
unfoldable pub wait_round : Unit {0} → M (Next (Unit {0}) (Unit {0}))
wait_round _ = do
  r ← call Call.wait_any_nohang
  elim r [
    | none ↦ pure (leave tt)
    | some zero ↦ pure (leave tt)
    | some (suc n) ↦ (do printf "child %d terminated\n" (Arg.int (suc n) ∷ []); pure (again tt))
  ]

unfoldable pub wait_children : M (Unit {0})
unfolding wait_round
wait_children = forever wait_round tt

-- The difference of two `struct timeval`, each as its seconds and microseconds.
abbrev pub elapsed : (start end : List ℕ) → Arg
elapsed start end =
    Arg.seconds (sub_ℕ (get_or end 0 0) (get_or start 0 0))
      (sub_ℕ (get_or end 1 0) (get_or start 1 0))
