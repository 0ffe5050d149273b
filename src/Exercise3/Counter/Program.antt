-- ===== src/Exercise3/Counter/Program.antt =====
-- One process of question-4.c from its start to its end: the calls that it makes.
use course_code.Base.{ℕ, List, [], ◌∷◌, replicate}
use course_code.Base.Int.{pos}
use course_code.Posix.Call.{Bytes, Reply, fail, Errno, Call, Arg}
use course_code.Posix.Run.{M, sys, pure, exit, printf, ◌>>=◌, ◌>>◌}
use course_code.Posix.Io.{call, answer}
use course_code.Posix.Program.{handle_err, need, write_or_die}
use course_code.Posix.FileLock.{FileLock, lock_init, lock_wait, lock_release}

-- `sizeof(int)`
abbrev pub int_size : ℕ
int_size = 4

-- The file is made, with a counter of 0, if `stat` says that there is none.
unfoldable pub open_by : (path : Bytes) → (status : Reply) → M ℕ
unfolding need write_or_die
open_by path (fail Errno.enoent) = do
  fd ← need "create failed" (Call.open_file path "O_RDWR | O_CREAT")
  write_or_die "write failed" fd (replicate int_size 0)
  pure fd
open_by path _ = need "open failed" (Call.open_file path "O_RDWR")

unfoldable pub open_counter : (path : Bytes) → M ℕ
unfolding open_by
open_counter path = do r ← sys (Call.stat path); open_by path r

unfoldable pub my_lock_init : (fd : ℕ) → M FileLock
unfolding lock_init
my_lock_init fd = lock_init "lock file open failed" (pos fd)

unfoldable pub my_lock_wait : FileLock → M (Unit {0})
unfolding lock_wait
my_lock_wait = lock_wait "fcntl error for my_lock_wait"

unfoldable pub my_lock_release : FileLock → M (Unit {0})
unfolding lock_release
my_lock_release = lock_release "fcntl error for my_lock_release"

-- What the process does between the lock and its release; `value` is what it finds in the counter.
unfoldable pub report : (value : ℕ) → M (Unit {0})
report value = do
  pid ← sys Call.getpid
  printf "pid %d: get lock\n" (Arg.int (answer pid) ∷ [])
  call (Call.sleep 5)
  pid' ← sys Call.getpid
  printf "pid %d: %d\n" (Arg.int (answer pid') ∷ Arg.int value ∷ [])

-- `main` with a path, where `value` is what the process finds in the counter.
unfoldable pub count_once : (value : ℕ) → (path : Bytes) → M (Unit {0})
unfolding open_counter need my_lock_init my_lock_wait report my_lock_release
count_once value path = do
  fd ← open_counter path
  need "mmap failed" (Call.mmap int_size fd)
  lock ← my_lock_init fd
  my_lock_wait lock
  report value
  my_lock_release lock
  call (Call.close fd)
  call (Call.unlink path)
  exit 0

unfoldable pub main : (value : ℕ) → (args : List Bytes) → M (Unit {0})
unfolding count_once
main value [] = handle_err "usage: incr2 <pathname>"
main value (path ∷ []) = count_once value path
main value (_ ∷ _ ∷ _) = handle_err "usage: incr2 <pathname>"
