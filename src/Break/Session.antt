-- ===== src/Break/Session.antt =====
-- network-programming-2013/break-exercise/client.c: `response`, the commands of the UNIX_TL server.
pub mod Words
pub mod Upper
pub mod Pieces
pub mod Answers
pub mod Failures
pub mod Budget
pub mod Quiet
pub mod Memory
use course_code.Base.{
  ℕ, zero, suc, ◌+◌, ◌-◌, Option, none, some, [], ◌∷◌, ◌++◌, ltb, ◌==◌, if◌then◌else◌, take, length,
  set, get_or,
}
use course_code.Posix.Call.{Bytes, Call, Arg, done, fail, Host, Kind}
use course_code.Posix.Run.{M, sys, pure, finish, Outcome, printf, ◌>>=◌, ◌>>◌}
use course_code.Posix.Libc.{
  splice, decimal, htons_int, Token, strtok, codes, overwrite, toupper, atoi,
}
use course_code.Posix.Io.{chunk, eof, failed, read, call}
use course_code.Posix.Loop.{Next, again, leave, forever}
use course_code.Posix.Program.{handle_err, need, write_or_die, write_unchecked}

abbrev pub max_line : ℕ
max_line = 2048

-- What the variables of `response` hold between two commands: `ptr` as an offset into `buf`, and
-- `byte`, which is `none` until a command sets it. To read it before that is undefined.
pub record Session : Type 0 where
  pub buf : Bytes
  pub ptr : ℕ
  pub byte : Option ℕ

-- The world of a session: what lies behind a literal in memory, what an array of a function that
-- has returned holds when it is read (it held the argument), and the entry of `rp`.
pub record Surroundings : Type 0 where
  pub behind : Bytes
  pub dangling : Bytes → Bytes
  pub rp : ℕ

-- `n` bytes from the start of a literal, which may be more than it has: what follows it comes from
-- the surroundings, and to read it is no fault of the model.
abbrev pub literal : Surroundings → Bytes → ℕ → Bytes
literal w s n = take n (s ++ (0 ∷ w.behind))

abbrev pub last_byte : Bytes → ℕ
last_byte bs = get_or bs (length bs - 1) 0

-- A round of the inner loop of the command E, with what `byte` holds.
unfoldable pub more_round : (sockfd : ℕ) → Session → M (Next Session Session)
more_round sockfd s = elim s.byte [
  | none ↦ finish Outcome.fault
  | some byte ↦
      if ltb byte max_line
      then (do
        g ← read sockfd (max_line - byte)
        elim g [
          | chunk b bs ↦ (do
            let n = length (b ∷ bs)
            let s' = record s {
              buf = splice s.buf s.ptr (b ∷ bs);
              ptr = s.ptr + n;
              byte = some (byte + n);
            }
            if ltb max_line (s.ptr + n)
                then finish Outcome.fault
                else if last_byte (b ∷ bs) == b'\n'
                then pure (leave s')
                else pure (again s'))
          | eof ↦ pure (leave s)
          | failed ↦ pure (leave s)
        ])
      else pure (leave s)
]

abbrev pub upper_prefix : ℕ → Bytes → Bytes
upper_prefix zero s = s
upper_prefix (suc n) [] = []
upper_prefix (suc n) (c ∷ s) = toupper c ∷ upper_prefix n s

-- The answer to E, and the state behind it: all bytes but the last are changed in place.
unfoldable pub shout : (sockfd : ℕ) → Session → M Session
unfolding write_or_die
shout sockfd s = elim s.byte [
  | none ↦ finish Outcome.fault
  | some byte ↦ if ltb max_line byte then finish Outcome.fault else (do
    let upper = upper_prefix (byte - 1) s.buf
    write_or_die "write error to server" sockfd (take byte upper)
    pure (record s { buf = upper }))
]

-- The command E, of which the first `n` bytes have come.
unfoldable pub echo_upper : Surroundings → (sockfd n : ℕ) → Session → M Session
unfolding write_unchecked more_round shout
echo_upper w sockfd n s = do
  write_unchecked 1 (literal w (codes "E received\n") 12)
  s' ←
      (if get_or s.buf (n - 1) 0 == b'\n'
        then pure s
        else forever (more_round sockfd) (record s { ptr = s.ptr + n; byte = some n }))
  shout sockfd s'

abbrev pub file_path : Bytes
file_path = codes "Courses/network_programming/break/client.c\n"

-- The command C.
unfoldable pub send_path : Surroundings → (sockfd : ℕ) → M (Unit {0})
unfolding write_unchecked write_or_die
send_path w sockfd = do
  write_unchecked 1 (literal w (codes "C received\n") 12)
  write_or_die "write error to server" sockfd file_path

-- The text of the size of a file.
unfoldable pub get_file_size : (path : Bytes) → M Bytes
unfolding decimal
get_file_size path = do
  r ← sys (Call.stat path)
  elim r [ fail _ ↦ handle_err "stat error" | done _ sb ↦ pure (decimal (get_or sb 3 0)) ]

-- Connects back to the server and sends the file.
unfoldable pub file_transfer : Surroundings → (path port : Bytes) → M (Unit {0})
unfolding need atoi
file_transfer w path port = do
  r ← sys (Call.stat path)
  size ← (elim r [ fail _ ↦ handle_err "stat error" | done _ sb ↦ pure (get_or sb 3 0) ])
  sockfd ← need "socket error" (Call.socket Kind.stream)
  printf "connecting to %s: %s\n" (Arg.address (Host.listed w.rp) ∷ Arg.text port ∷ [])
  need "connecting error"
      (Call.connect sockfd (record { host = Host.listed w.rp; port = htons_int (atoi port) }))
  fd ← need "open file error" (Call.open_file path "O_RDONLY")
  need "sendfile error" (Call.sendfile sockfd fd size)
  printf "file transfered\n" []
  call (Call.close sockfd)
  pure tt

-- The three tokens of the command F, with the buffer behind them.
pub record Request : Type 0 where
  pub left : Bytes
  pub path : Bytes
  pub port : Bytes

pub data Parsed : Type 0 where
  request : Request → Parsed
  invalid : Bytes → Parsed  -- a token is NULL
  outside : Parsed  -- `strtok` ran out of the buffer

-- A final newline of the port is overwritten by a zero.
abbrev pub strip : (buf : Bytes) → (start : ℕ) → (path port : Bytes) → Parsed
strip buf start path port =
    if last_byte port == b'\n'
    then request (record {
      left = set buf (start + length port - 1) 0;
      path = path;
      port = take (length port - 1) port;
    })
    else request (record { left = buf; path = path; port = port })

abbrev pub parse_port : (path : Option Bytes) → Option Token → Parsed
parse_port path none = outside
parse_port none (some t) = invalid t.buf
parse_port (some path) (some t) = elim t.token [
  | none ↦ invalid t.buf
  | some port ↦ strip t.buf t.start path port
]

abbrev pub parse_path : Option Token → Parsed
parse_path none = outside
parse_path (some t) = parse_port t.token (strtok t.buf t.next)

unfoldable pub parse_request : (buf : Bytes) → Parsed
unfolding strtok
parse_request buf = elim (strtok buf 0) [
  | none ↦ outside
  | some t ↦ parse_path (strtok t.buf t.next)
]

-- The command F.
unfoldable pub send_file : Surroundings → (sockfd : ℕ) → (piece : Bytes) → Session → M Session
unfolding write_unchecked write_or_die parse_request get_file_size file_transfer
send_file w sockfd piece s = do
  write_unchecked 1 (literal w (codes "F received\n") 12)
  write_unchecked 1 piece
  elim (parse_request s.buf) [
    | outside ↦ finish Outcome.fault
    | invalid _ ↦ handle_err "invalid F command"
    | request r ↦ (do
      size ← get_file_size r.path
      write_or_die "write error to server" sockfd (w.dangling size)
      write_or_die "write error to server" sockfd (codes "\n")
      file_transfer w r.path r.port
      pure (record s { buf = r.left }))
  ]

-- One command, whose first bytes are `piece`. The 20 bytes for "other condition" are more than the
-- literal has, whose 17 end in a zero: the last three come from behind it.
unfoldable pub command :
    Surroundings → (sockfd : ℕ) → (piece : Bytes) → Session → M (Next Session (Unit {0}))
unfolding echo_upper send_path send_file write_unchecked
command w sockfd piece s =
    let first = get_or piece 0 0 in
    if first == b'#'
    then (do write_unchecked 1 piece; pure (again s))
    else if first == b'E'
    then (do s' ← echo_upper w sockfd (length piece) s; pure (again s'))
    else if first == b'C'
    then (do send_path w sockfd; pure (again s))
    else if first == b'F'
    then (do s' ← send_file w sockfd piece s; pure (again s'))
    else if first == b'A'
    then (do
      write_unchecked 1 (literal w (codes "A received\n") 12)
      write_unchecked 1 piece
      pure (again s))
    else if first == b'Q'
    then (do
      write_unchecked 1 (literal w (codes "Q received\n") 12)
      write_unchecked 1 piece
      call (Call.close sockfd)
      pure (leave tt))
    else do
      write_unchecked 1 (literal w (codes "other condition\n") 20)
      write_unchecked 1 piece
      pure (again s)

unfoldable pub response_round : Surroundings → (sockfd : ℕ) → Session → M (Next Session (Unit {0}))
unfolding command
response_round w sockfd s = do
  g ← read sockfd max_line
  elim g [
    | chunk b bs ↦ command w sockfd (b ∷ bs) (record s { buf = overwrite s.buf (b ∷ bs) })
    | eof ↦ pure (leave tt)
    | failed ↦ handle_err "read error"
  ]

unfoldable pub response : Surroundings → Session → (sockfd : ℕ) → M (Unit {0})
unfolding response_round
response w start sockfd = forever (response_round w sockfd) start
