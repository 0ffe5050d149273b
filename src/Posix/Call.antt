-- ===== src/Posix/Call.antt =====
-- System calls, the kernel's answers, and the events of one process.
use course_code.Base.{ℕ, Bool, List, String}
use course_code.Base.Int.{ℤ}

abbrev pub Bytes : Type 0
Bytes = List ℕ

-- The values of `errno` that the programs tell apart.
pub data Errno : Type 0 where
  eintr enoent ewouldblock emsgsize : Errno
  other : ℕ → Errno

-- `done n l`: the call returned `n` and stored the numbers `l` through its pointer arguments.
-- `fail e`: the call returned -1 and set `errno`.
pub data Reply : Type 0 where
  done : ℕ → List ℕ → Reply
  fail : Errno → Reply

-- `INADDR_ANY`, the address that `inet_addr` or `inet_aton` reads from a text, one of the answers
-- of `getaddrinfo`, or the source of a datagram.
pub data Host : Type 0 where
  any peer : Host
  dotted : Bytes → Host
  listed : ℕ → Host

pub record SockAddr : Type 0 where
  pub host : Host
  pub port : ℕ

-- SOCK_STREAM and SOCK_DGRAM
pub data Kind : Type 0 where
  stream dgram : Kind

pub data Signal : Type 0 where
  sigint sigchld sigpipe : Signal

-- What is installed for a signal: a function of the program, or SIG_IGN.
pub data Handler : Type 0 where
  ignored : Handler
  handler : String → Handler

-- An argument of `printf`.
pub data Arg : Type 0 where
  int : ℕ → Arg
  text : Bytes → Arg
  address : Host → Arg  -- as `inet_ntop` writes it
  seconds : (sec usec : ℤ) → Arg  -- the `float` sec + usec / 1000000

-- F_WRLCK and F_UNLCK
pub data LockType : Type 0 where
  wrlck unlck : LockType

-- A `struct flock`, with l_whence SEEK_SET; a length of 0 is the rest of the file.
pub record Flock : Type 0 where
  pub l_type : LockType
  pub l_start : ℕ
  pub l_len : ℕ

-- The calls of the programs. `printf`, `perror` and the like stand beside them: they have no
-- answer that a program reads.
pub data Call : Type 0 where
  read : (fd count : ℕ) → Call
  write : (fd : ℕ) → Bytes → Call
  open_file : (path : Bytes) → (flags : String) → Call
  close : (fd : ℕ) → Call
  socket : Kind → Call
  bind : (fd : ℕ) → SockAddr → Call
  listen : (fd backlog : ℕ) → Call
  accept : (fd : ℕ) → Call
  connect : (fd : ℕ) → SockAddr → Call
  connect_entry : (fd entry : ℕ) → Call  -- to an entry of the list of `getaddrinfo`
  shutdown : (fd : ℕ) → (how : String) → Call
  sendto : (fd : ℕ) → Bytes → SockAddr → Call
  recvfrom : (fd count : ℕ) → Call
  getsockopt : (fd : ℕ) → (name : String) → Call
  setsockopt : (fd : ℕ) → (name : String) → (value : ℕ) → Call
  getaddrinfo : (node service : Bytes) → Call
  exit_at_once : (status : ℕ) → Call  -- `_exit`: what stands in the buffers of stdio is lost
  fork pipe getpid getppid getuid getgid gettimeofday sigemptyset wait_any_nohang : Call
  wait_child : (pid : ℕ) → Call
  execve : (path : Bytes) → List Bytes → Call
  dup2 : (old new : ℕ) → Call
  mkfifo : (path : Bytes) → Call
  unlink : (path : Bytes) → Call
  stat : (path : Bytes) → Call
  fstat : (fd : ℕ) → Call
  get_flags : (fd : ℕ) → Call
  set_nonblock : (fd flags : ℕ) → Call
  malloc : ℕ → Call
  mmap : (length fd : ℕ) → Call  -- shared, for reading and writing, from the start of the file
  set_lock_wait : (fd : ℕ) → Flock → Call  -- fcntl(fd, F_SETLKW, lock)
  fputs_stdout : Bytes → Call
  putchar : (byte : ℕ) → Call
  sendfile : (out_fd in_fd count : ℕ) → Call
  sleep : (seconds : ℕ) → Call
  usleep : (microseconds : ℕ) → Call
  signal : Signal → Handler → Call
  sigaction : Signal → Handler → (reset : Bool) → Call
  printf : String → List Arg → Call
  fprintf_stderr : String → List Arg → Call
  perror : String → Call

-- A call with its answer.
pub record Event : Type 0 where
  pub call : Call
  pub reply : Reply

abbrev pub Trace : Type 0
Trace = List Event
