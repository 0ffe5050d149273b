-- ===== src/Exercise6/SocketOptions.antt =====
-- network-programming-2013/exercise6/q2-tcp-getsockopt.c and q3.c: the send buffer and the segment size.
use course_code.Base.{ℕ, String, List, [], ◌∷◌, get_or}
use course_code.Posix.Call.{Bytes, Call, Arg, done, fail, Kind}
use course_code.Posix.Run.{M, sys, pure, exit, printf, ◌>>=◌, ◌>>◌}
use course_code.Posix.Io.{call}
use course_code.Posix.Program.{handle_err, need, dotted_addr}

abbrev pub serv_port : ℕ
serv_port = 50011

-- `getsockopt` of an `int` option into a variable, and the line that is printed.
unfoldable pub show_option : (name line : String) → (sockfd value : ℕ) → M ℕ
show_option name line sockfd value = do
  r ← sys (Call.getsockopt sockfd name)
  elim r [
    | fail _ ↦ handle_err "getsockopt error"
    | done _ l ↦ (do printf line (Arg.int (get_or l 0 value) ∷ []); pure (get_or l 0 value))
  ]

-- q2-tcp-getsockopt.c; `sendbuf` is what the variable holds at first.
unfoldable pub buffer_main : (sendbuf : ℕ) → (args : List Bytes) → M (Unit {0})
unfolding need show_option
buffer_main sendbuf [] = handle_err "usage: client <IP address>"
buffer_main sendbuf (ip ∷ []) = do
  sockfd ← need "socket error" (Call.socket Kind.stream)
  show_option "SO_SNDBUF" "send buffer size = %d\n" sockfd sendbuf
  need "setsockopt error" (Call.setsockopt sockfd "SO_SNDBUF" 50000)
  printf "set send buffer size to %d\n" (Arg.int 50000 ∷ [])
  now ← show_option "SO_SNDBUF" "send buffer size = %d\n" sockfd 50000
  need "connecting error" (Call.connect sockfd (dotted_addr ip serv_port))
  show_option "SO_SNDBUF" "send buffer size = %d\n" sockfd now
  call (Call.close sockfd)
  exit 0
buffer_main sendbuf (_ ∷ _ ∷ _) = handle_err "usage: client <IP address>"

-- q3.c; `mss` is what the variable holds at first.
unfoldable pub segment_main : (mss : ℕ) → (args : List Bytes) → M (Unit {0})
unfolding need show_option
segment_main mss [] = handle_err "usage: client <IP address>"
segment_main mss (ip ∷ []) = do
  sockfd ← need "socket error" (Call.socket Kind.stream)
  show_option "TCP_MAXSEG" "mss = %d\n" sockfd mss
  need "getsockopt error" (Call.setsockopt sockfd "TCP_MAXSEG" 256)
  printf "set mss to %d\n" (Arg.int 256 ∷ [])
  need "connecting error" (Call.connect sockfd (dotted_addr ip serv_port))
  show_option "TCP_MAXSEG" "mss = %d\n" sockfd 256
  call (Call.close sockfd)
  exit 0
segment_main mss (_ ∷ _ ∷ _) = handle_err "usage: client <IP address>"
