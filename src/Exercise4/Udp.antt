-- ===== src/Exercise4/Udp.antt =====
-- network-programming-2013/exercise4/udp-server.c and udp-client.c: the doubling service over datagrams.
pub mod Datagrams
pub mod Network
use course_code.Base.{ℕ, List, [], ◌∷◌, ◌==◌, if◌then◌else◌, take, length, set}
use course_code.Posix.Call.{Bytes, Call, SockAddr, Host, Kind}
use course_code.Posix.Run.{M, pure, exit, ◌>>=◌, ◌>>◌}
use course_code.Posix.Libc.{overwrite}
use course_code.Posix.Io.{chunk, eof, failed, read, recvfrom, call}
use course_code.Posix.Loop.{Next, again, forever, while_read, at_eof, on_error}
use course_code.Posix.Program.{handle_err, need, write_unchecked, any_addr, dotted_addr}

abbrev pub max_line : ℕ
max_line = 256

abbrev pub serv_port : ℕ
serv_port = 50011

-- The address that `recvfrom` stored.
abbrev pub peer_addr : SockAddr
peer_addr = record { host = Host.peer; port = 0 }

-- A round of the outer loop of the server.
unfoldable pub echo_round : (sockfd : ℕ) → Unit {0} → M (Next (Unit {0}) (Unit {0}))
echo_round sockfd _ = do
  (_, n) ←
      while_read (recvfrom sockfd max_line)
        (λ _ buf. do
          call (Call.sendto sockfd buf peer_addr)
          call (Call.sendto sockfd buf peer_addr)
          pure tt)
        tt
  elim n [ at_eof ↦ pure (again tt) | on_error ↦ handle_err "read error" ]

unfoldable pub str_echo : (sockfd : ℕ) → M (Unit {0})
unfolding echo_round
str_echo sockfd = forever (echo_round sockfd) tt

unfoldable pub server_main : M (Unit {0})
unfolding need str_echo
server_main = do
  sockfd ← need "socket error" (Call.socket Kind.dgram)
  need "binding error" (Call.bind sockfd (any_addr serv_port))
  str_echo sockfd
  exit 0

-- A round of the inner loop of the client: a zero ends the text at the length of the question.
unfoldable pub receive : (sockfd n : ℕ) → (recvline : Bytes) → M Bytes
unfolding write_unchecked
receive sockfd n recvline = do
  m ← recvfrom sockfd max_line
  elim m [
    | chunk b bs ↦ (do
      let line = set (overwrite recvline (b ∷ bs)) n 0
      write_unchecked 1 (take n line)
      pure line)
    | eof ↦ pure recvline
    | failed ↦ pure recvline
  ]

unfoldable pub exchange : (server : SockAddr) → (sockfd : ℕ) → (recvline sendline : Bytes) → M Bytes
unfolding receive
exchange server sockfd recvline sendline = do
  call (Call.sendto sockfd sendline server)
  line ← receive sockfd (length sendline) recvline
  receive sockfd (length sendline) line

unfoldable pub str_cli : (server : SockAddr) → (sockfd : ℕ) → (recvline : Bytes) → M (Unit {0})
unfolding exchange
str_cli server sockfd recvline = do
  while_read (read 0 max_line) (exchange server sockfd) recvline
  pure tt

-- `inet_aton ip` is the result of that function: 0 for a text that is no address.
unfoldable pub client_main :
    (inet_aton : Bytes → ℕ) → (recvline : Bytes) → (args : List Bytes) → M (Unit {0})
unfolding need str_cli
client_main inet_aton recvline [] = handle_err "usage: client <IP address>"
client_main inet_aton recvline (ip ∷ []) = do
  sockfd ← need "socket error" (Call.socket Kind.dgram)
  if inet_aton ip == 0 then handle_err "error IP address" else pure tt
  str_cli (dotted_addr ip serv_port) sockfd recvline
  call (Call.close sockfd)
  exit 0
client_main inet_aton recvline (_ ∷ _ ∷ _) = handle_err "usage: client <IP address>"
