-- ===== src/Exercise6/Datagram.antt =====
-- network-programming-2013/exercise6/q1-client.c and q1-server.c: the largest datagram.
pub mod Sizes
use course_code.Base.{ℕ, zero, suc, ◌+◌, List, [], ◌∷◌, ltb, ◌==◌, if◌then◌else◌, take}
use course_code.Posix.Call.{Bytes, Call, Arg, Errno, done, fail, SockAddr, Kind}
use course_code.Posix.Run.{M, sys, pure, exit, printf, ◌>>=◌, ◌>>◌}
use course_code.Posix.Io.{recvfrom, call}
use course_code.Posix.Loop.{Next, again, leave, forever, while_read, at_eof, on_error}
use course_code.Posix.Program.{handle_err, need, write_unchecked, any_addr, dotted_addr}

abbrev pub serv_port : ℕ
serv_port = 50011

-- `char sendline[MAXLINE]`
abbrev pub send_max : ℕ
send_max = 65535

abbrev pub recv_max : ℕ
recv_max = 10240

-- How the loop of the client ends: the size at that time, and the last result of `sendto`.
pub data Probe : Type 0 where
  stopped : (n : ℕ) → Probe  -- sent nothing, or the bound was reached
  refused : (n : ℕ) → Errno → Probe

-- `memory` is the array and what lies behind it: the sizes go beyond the array.
unfoldable pub probe_round : (memory : Bytes) → (sockfd : ℕ) → SockAddr → ℕ → M (Next ℕ Probe)
probe_round memory sockfd server n = do
  m ← sys (Call.sendto sockfd (take n memory) server)
  elim m [
    | fail e ↦ pure (leave (refused n e))
    | done zero _ ↦ pure (leave (stopped n))
    | done (suc _) _ ↦ if ltb n 100000 then pure (again (n + 1)) else pure (leave (stopped n))
  ]

unfoldable pub report : Probe → M (Unit {0})
report (stopped n) = pure tt
report (refused n Errno.emsgsize) = printf "Largest UDP: %d\n" (Arg.int n ∷ []) >> handle_err "quit"
report (refused n Errno.eintr) = handle_err "quit"
report (refused n Errno.enoent) = handle_err "quit"
report (refused n Errno.ewouldblock) = handle_err "quit"
report (refused n (Errno.other _)) = handle_err "quit"

unfoldable pub str_cli : (memory : Bytes) → (sockfd : ℕ) → SockAddr → M (Unit {0})
unfolding probe_round report
str_cli memory sockfd server = do r ← forever (probe_round memory sockfd server) 50000; report r

unfoldable pub client_main :
    (inet_aton : Bytes → ℕ) → (memory : Bytes) → (args : List Bytes) → M (Unit {0})
unfolding need str_cli
client_main inet_aton memory [] = handle_err "usage: client <IP address>"
client_main inet_aton memory (ip ∷ []) = do
  sockfd ← need "socket error" (Call.socket Kind.dgram)
  if inet_aton ip == 0 then handle_err "error IP address" else pure tt
  str_cli memory sockfd (dotted_addr ip serv_port)
  call (Call.close sockfd)
  exit 0
client_main inet_aton memory (_ ∷ _ ∷ _) = handle_err "usage: client <IP address>"

unfoldable pub recv_round : (sockfd : ℕ) → Unit {0} → M (Next (Unit {0}) (Unit {0}))
unfolding write_unchecked
recv_round sockfd _ = do
  (_, n) ← while_read (recvfrom sockfd recv_max) (λ _ buf. write_unchecked 1 buf) tt
  elim n [ at_eof ↦ pure (again tt) | on_error ↦ handle_err "read error" ]

unfoldable pub str_recv : (sockfd : ℕ) → M (Unit {0})
unfolding recv_round
str_recv sockfd = forever (recv_round sockfd) tt

unfoldable pub server_main : M (Unit {0})
unfolding need str_recv
server_main = do
  sockfd ← need "socket error" (Call.socket Kind.dgram)
  need "binding error" (Call.bind sockfd (any_addr serv_port))
  str_recv sockfd
  exit 0
