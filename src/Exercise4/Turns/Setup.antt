-- ===== src/Exercise4/Turns/Setup.antt =====
-- incr.c in front of its loop, and `my_lock_init` of lock.c.
use course_code.Base.{
  ℕ, ◌+◌, Bool, true, false, Option, none, some, List, [], ◌∷◌, ◌++◌, take, get_or, replicate, ◌==◌,
  if◌then◌else◌,
}
use course_code.Base.Int.{ℤ, pos, negsuc}
use course_code.Posix.Call.{Bytes, Call, Arg}
use course_code.Posix.Run.{M, pure, exit, finish, Outcome, printf, stmt, ◌>>=◌, ◌>>◌}
use course_code.Posix.Libc.{codes, atoi, is_space, is_digit}
use course_code.Posix.Io.{call}
use course_code.Posix.Loop.{times}
use course_code.Posix.Program.{need, write_unchecked}
use course_code.Posix.FileLock.{FileLock, lock_init}
use course_code.Exercise4.Turns.{size}

abbrev pub int_size : ℕ
int_size = 4

unfoldable drop_spaces : Bytes → Bytes
drop_spaces [] = []
drop_spaces (c ∷ s) = let rest = drop_spaces s in if is_space c then rest else c ∷ s

unfoldable drop_digits : Bytes → Bytes
drop_digits [] = []
drop_digits (c ∷ s) = let rest = drop_digits s in if is_digit c then rest else c ∷ s

abbrev first_digit : Bytes → Bool
first_digit [] = false
first_digit (c ∷ s) = is_digit c

abbrev drop_sign : Bytes → Bytes
drop_sign [] = []
drop_sign (c ∷ s) = if c == b'-' then s else if c == b'+' then s else c ∷ s

abbrev is_empty : Bytes → Bool
is_empty [] = true
is_empty (_ ∷ _) = false

-- `sscanf(s, "%d %n", &i, &n) == 1 && !s[n]`: a number, with blanks in front of it and behind it.
unfoldable pub is_int : Bytes → Bool
unfolding drop_spaces drop_digits
is_int s =
    let digits = drop_sign (drop_spaces s) in
    if first_digit digits then is_empty (drop_spaces (drop_digits digits)) else false

-- `snprintf(lock_f, sizeof(lock_f), "%s.lock", argv[1])`
unfoldable pub lock_name : (path : Bytes) → Bytes
lock_name path = take 127 (path ++ codes ".lock")

-- The counter, and the bytes of the table one by one.
unfoldable pub init_table : (cells fd : ℕ) → M (Unit {0})
unfolding write_unchecked times
init_table cells fd =
    write_unchecked fd (replicate int_size 0) >> times cells (write_unchecked fd (0 ∷ []))

unfoldable pub my_lock_init : (path : Bytes) → M FileLock
unfolding need lock_init
my_lock_init path = do
  call (Call.stat path)
  fd ← need "open lock file failed\n" (Call.open_file path "O_CREAT | O_WRONLY")
  lock_init "open lock file failed\n" (pos fd)

-- The variables of `main` in front of its loop; `num_loop` is set only for a number.
pub record Start : Type 0 where
  pub lock : FileLock
  pub num_loop : Option ℤ
  pub c : ℕ

-- From `mmap` on.
unfoldable pub map_table : (fd : ℕ) → (path loops char : Bytes) → M Start
unfolding is_int lock_name need my_lock_init
map_table fd path loops char = do
  need "mmap failed\n" (Call.mmap (size + int_size) fd)
  call (Call.close fd)
  lock ← my_lock_init (lock_name path)
  pure (record {
    lock = lock;
    num_loop = if is_int loops then some (atoi loops) else none;
    c = get_or char 0 0;
  })

unfoldable pub set_up : (program : Bytes) → (args : List Bytes) → M Start
unfolding need init_table map_table
set_up program (path ∷ loops ∷ char ∷ []) = do
  i ← call (Call.stat path)
  fd ← need "open() failed\n" (Call.open_file path "O_RDWR | O_CREAT")
  stmt (elim i [ none ↦ init_table size fd | some _ ↦ pure tt ])
  map_table fd path loops char
set_up program _ =
    printf "usage: %s <pathname> <loop number> <char>\n" (Arg.text program ∷ []) >> exit 1

-- The rounds of the loop. To test a variable that was not set is undefined.
unfoldable pub rounds : Start → M ℕ
rounds s = elim s.num_loop [
  | none ↦ finish Outcome.fault
  | some n ↦ elim n [ pos k ↦ pure k | negsuc _ ↦ pure 0 ]
]
