-- ===== src/Exercise3/Filters.antt =====
-- network-programming-2013/exercise3/reader.c, doubler.c and converter.c: the programs of a pipeline.
pub mod Lines
pub mod Conversion
use course_code.Base.{ℕ, Option, none, some, [], ◌∷◌, ◌==◌, if◌then◌else◌, take, length}
use course_code.Posix.Call.{Bytes}
use course_code.Posix.Run.{stmt, M, pure, exit, finish, Outcome, ◌>>=◌, ◌>>◌}
use course_code.Posix.Libc.{overwrite, tolower}
use course_code.Posix.Io.{chunk, eof, failed, read, call, write}
use course_code.Posix.Loop.{while_read, times}
use course_code.Posix.Program.{write_or_die}

abbrev pub max_line : ℕ
max_line = 1024

-- reader.c copies one piece.
unfoldable pub reader : M (Unit {0})
unfolding write_or_die
reader = do
  g ← read 0 max_line
  stmt (elim g [
    | chunk b bs ↦ write_or_die "write error to stdout" 1 (b ∷ bs)
    | eof ↦ pure tt
    | failed ↦ pure tt
  ])
  exit 0

-- doubler.c
unfoldable pub doubler : M (Unit {0})
unfolding write_or_die
doubler = do
  while_read (read 0 max_line) (λ _ buf. times 2 (write_or_die "write error to stdout" 1 buf)) tt
  exit 0

-- The loop of converter.c up to the first newline. A buffer with no newline is left at its end.
unfoldable pub lower_line : Bytes → Option Bytes
lower_line [] = none
lower_line (c ∷ buf) =
    let rest = lower_line buf in
    if c == b'\n' then some (c ∷ buf) else elim rest [ none ↦ none | some r ↦ some (tolower c ∷ r) ]

-- converter.c. `buf` is the buffer before the call, with whatever the stack held.
unfoldable pub converter : (buf : Bytes) → M (Unit {0})
unfolding write_or_die lower_line
converter buf = do
  g ← read 0 max_line
  stmt (elim g [
    | chunk b bs ↦ elim (lower_line (overwrite buf (b ∷ bs))) [
      | none ↦ finish Outcome.fault
      | some lowered ↦ write_or_die "write error to stdout" 1 (take (length (b ∷ bs)) lowered)
    ]
    | eof ↦ pure tt
    | failed ↦ pure tt
  ])
  exit 0
