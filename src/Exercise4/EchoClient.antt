-- ===== src/Exercise4/EchoClient.antt =====
-- network-programming-2013/exercise4/client-url.c: an echo client that resolves the name of its server.
pub mod Connecting
pub mod Sending
use course_code.Base.{ℕ, zero, suc, not, Option, none, some, List, [], ◌∷◌, take, length}
use course_code.Posix.Call.{Bytes, Call, Arg, done, fail, Host, Kind}
use course_code.Posix.Run.{M, sys, pure, exit, printf, stmt, ◌>>=◌, ◌>>◌}
use course_code.Posix.Io.{read, call, answer}
use course_code.Posix.Loop.{while_read}
use course_code.Posix.Program.{handle_err, need, write_or_die, show_answer}

abbrev pub max_line : ℕ
max_line = 256

-- The body of the loop of `str_cli`: the answer is written with the length of the question.
unfoldable pub exchange : (sockfd : ℕ) → (recvline sendline : Bytes) → M Bytes
unfolding write_or_die show_answer
exchange sockfd recvline sendline = do
  write_or_die "write error to server" sockfd sendline
  show_answer max_line sockfd (length sendline) recvline

unfoldable pub str_cli : (sockfd : ℕ) → (recvline : Bytes) → M (Unit {0})
unfolding exchange
str_cli sockfd recvline = do while_read (read 0 max_line) (exchange sockfd) recvline; pure tt

unfoldable pub print_ipaddr : (entry : ℕ) → M (Unit {0})
print_ipaddr entry = printf "Connecting to %s\n" (Arg.address (Host.listed entry) ∷ [])

-- The loop over the answers of `getaddrinfo`: it stops at the first that accepts.
unfoldable pub connect_any : (sockfd : ℕ) → (entries : List ℕ) → M (Option ℕ)
unfolding print_ipaddr
connect_any sockfd [] = pure none
connect_any sockfd (rp ∷ entries) = do
  print_ipaddr rp
  r ← call (Call.connect_entry sockfd rp)
  elim r [
    | some zero ↦ pure (some rp)
    | some (suc _) ↦ connect_any sockfd entries
    | none ↦ connect_any sockfd entries
  ]

-- The list that `getaddrinfo` stores, if its status is 0.
unfoldable pub resolve : (url service : Bytes) → M (List ℕ)
resolve url service = do
  r ← sys (Call.getaddrinfo url service)
  elim r [
    | done zero entries ↦ pure entries
    | done (suc _) _ ↦ handle_err "getaddrinfo error"
    | fail _ ↦ handle_err "getaddrinfo error"
  ]

unfoldable pub main : (recvline : Bytes) → (args : List Bytes) → M (Unit {0})
unfolding need resolve connect_any str_cli
main recvline [] = handle_err "usage: client <url> <service>"
main recvline (_ ∷ []) = handle_err "usage: client <url> <service>"
main recvline (url ∷ service ∷ _) = do
  sockfd ← need "socket error" (Call.socket Kind.stream)
  entries ← resolve url service
  rp ← connect_any sockfd entries
  stmt (elim rp [ none ↦ handle_err "Could not find correct ip to connect" | some _ ↦ pure tt ])
  str_cli sockfd recvline
  call (Call.close sockfd)
  exit 0
