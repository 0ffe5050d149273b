-- ===== src/Exercise3/Overlap.antt =====
-- network-programming-2013/exercise3/question-5.c: processes that write their character behind a
-- counter in shared memory.
--
-- A process that runs alone. The counter and the characters are one object, so the memory is its
-- bytes, and the counter is read off the first four of them, the lowest first. The length of the
-- list is what the mapping gives access to: the pages that hold the 34 bytes that were asked for.
pub mod FirstRound
use course_code.Base.{
  ℕ, Bool, zero, suc, ◌+◌, ◌*◌, ◌/◌, ◌%◌, ◌^◌, List, [], ◌∷◌, get_or, set, length, ltb, ◌==◌, ◌&&◌,
  if◌then◌else◌,
}
use course_code.Base.Int.{ℤ, pos, negsuc}
use course_code.Posix.Call.{Bytes, Call, Arg}
use course_code.Posix.Run.{M, sys, pure, exit, finish, Outcome, printf, emit, ◌>>=◌, ◌>>◌}
use course_code.Posix.Libc.{atoi}
use course_code.Posix.Io.{call, answer}
use course_code.Posix.Program.{handle_err, need}
use course_code.Posix.FileLock.{FileLock, lock_init, lock_wait, lock_release}
use course_code.Exercise3.Counter.Program.{int_size, open_counter}

abbrev pub max_size : ℕ
max_size = 30

-- The `int` at the front of the memory, by its 32 bits.
unfoldable pub get_int : Bytes → ℕ
get_int mem =
    get_or mem 0 0 + 256 * get_or mem 1 0 + 65536 * get_or mem 2 0 + 16777216 * get_or mem 3 0

unfoldable pub set_int : Bytes → ℕ → Bytes
set_int mem n =
    set (set (set (set mem 0 (n % 256)) 1 (n / 256 % 256)) 2 (n / 65536 % 256)) 3
      (n / 16777216 % 256)

-- Not negative.
abbrev pub is_positive : ℕ → Bool
is_positive n = ltb n 2147483648

-- `++(*ptr)`, which has no value for the largest `int`.
unfoldable pub increment : Bytes → M Bytes
unfolding get_int set_int
increment mem =
    if get_int mem == 2147483647
    then finish Outcome.fault
    else pure (set_int mem ((get_int mem + 1) % 2 ^ 32))

-- `*(pchar + *ptr) = input_char`
unfoldable pub put_behind : (input_char : ℕ) → Bytes → M Bytes
unfolding get_int
put_behind input_char mem =
    if is_positive (get_int mem) && ltb (get_int mem) (length mem)
    then pure (set mem (get_int mem) input_char)
    else finish Outcome.fault

-- `putchar(*(pchar + j))` for `count` values of `j` from `first` on
unfoldable pub put_chars : (count first : ℕ) → Bytes → M (Unit {0})
put_chars zero first mem = pure tt
put_chars (suc count) first mem =
    if ltb first (length mem)
    then (do emit (Call.putchar (get_or mem first 0)); put_chars count (first + 1) mem)
    else finish Outcome.fault

-- The rounds of `for (j = 1; j <= *ptr; j++)`.
abbrev pub shown_count : ℕ → ℕ
shown_count n = if is_positive n then n else 0

-- What a round does between the lock and its release.
unfoldable pub write_char : (input_char : ℕ) → Bytes → M Bytes
unfolding increment put_behind put_chars
write_char input_char mem = do
  pid ← sys Call.getpid
  counted ← increment mem
  printf "pid %d: count=%d\n" (Arg.int (answer pid) ∷ Arg.int (get_int counted) ∷ [])
  printf "%d\n" (Arg.int (get_int counted) ∷ [])
  written ← put_behind input_char counted
  put_chars (shown_count (get_int written)) 1 written
  pure written

-- The body of the loop of `main`.
unfoldable pub char_round : (input_char : ℕ) → FileLock → Bytes → M Bytes
unfolding lock_wait lock_release write_char
char_round input_char lock mem = do
  lock_wait "fcntl error for my_lock_wait" lock
  written ← write_char input_char mem
  lock_release "fcntl error for my_lock_release" lock
  call (Call.sleep 3)
  pure written

unfoldable pub char_rounds : (nloop input_char : ℕ) → FileLock → Bytes → M Bytes
unfolding char_round
char_rounds zero input_char lock mem = pure mem
char_rounds (suc nloop) input_char lock mem =
    char_round input_char lock mem >>= char_rounds nloop input_char lock

-- Behind the loop: the counter is shown and goes up by one, and the file is removed.
unfoldable pub last_count : (fd : ℕ) → (path : Bytes) → FileLock → Bytes → M (Unit {0})
unfolding lock_wait lock_release increment
last_count fd path lock mem = do
  lock_wait "fcntl error for my_lock_wait" lock
  pid ← sys Call.getpid
  printf "pid %d: get lock\n" (Arg.int (answer pid) ∷ [])
  call (Call.sleep 5)
  pid' ← sys Call.getpid
  printf "pid %d: %d\n" (Arg.int (answer pid') ∷ Arg.int (get_int mem) ∷ [])
  increment mem
  lock_release "fcntl error for my_lock_release" lock
  call (Call.close fd)
  call (Call.unlink path)
  exit 0

abbrev pub rounds_of : ℤ → ℕ
rounds_of (pos n) = n
rounds_of (negsuc _) = 0

-- `mem` is what the file holds, and zeros up to the end of its last page.
unfoldable pub main : (mem : Bytes) → (args : List Bytes) → M (Unit {0})
unfolding open_counter need lock_init char_rounds last_count
main mem (path ∷ nloop ∷ input ∷ []) = do
  fd ← open_counter path
  need "mmap failed" (Call.mmap (int_size + max_size) fd)
  lock ← lock_init "lock file open failed" (pos fd)
  mem' ← char_rounds (rounds_of (atoi nloop)) (get_or input 0 0) lock mem
  last_count fd path lock mem'
main mem _ = handle_err "usage: incr2 <pathname> <nloop> <char>"
