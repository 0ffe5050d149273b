-- ===== src/Exercise1/Doubler.antt =====
-- network-programming-2013/exercise1/doubler.c: the doubler on the streams of the C library.
pub mod Lines
use course_code.Base.{
  ℕ, zero, suc, ◌+◌, ◌-◌, Option, none, some, List, [], ◌∷◌, ◌==◌, if◌then◌else◌, length,
}
use course_code.Posix.Call.{Bytes, Call, Arg, done, fail}
use course_code.Posix.Run.{M, sys, pure, exit, finish, Outcome, fprintf_stderr, ◌>>=◌, ◌>>◌}
use course_code.Posix.Io.{call}
use course_code.Posix.Loop.{times}

abbrev pub max_line : ℕ
max_line = 4096

-- The next line of a stream, with its newline, but `n` bytes at most; and what is behind it.
unfoldable pub split_line : (n : ℕ) → (stream : Bytes) → Bytes × Bytes
split_line zero s = ([], s)
split_line (suc n) [] = ([], [])
split_line (suc n) (c ∷ s) =
    let (line, more) = split_line n s in if c == b'\n' then (c ∷ [], s) else (c ∷ line, more)

-- `fgets(buf, MAXLINE, fp)` leaves a place for the final zero; `none` is NULL, at the end of the
-- stream.
unfoldable pub fgets : (stream : Bytes) → Option (Bytes × Bytes)
unfolding split_line
fgets [] = none
fgets (c ∷ s) = some (split_line (max_line - 1) (c ∷ s))

-- What a `char *` points to ends at the first zero.
unfoldable pub cut : Bytes → Bytes
cut [] = []
cut (c ∷ s) = let rest = cut s in if c == 0 then [] else c ∷ rest

-- `if (fputs(buf, stdout) == EOF) ...`
unfoldable pub put : (buf : Bytes) → M (Unit {0})
unfolding cut
put buf = do
  k ← call (Call.fputs_stdout (cut buf))
  elim k [ none ↦ fprintf_stderr "can't write to stdout.\n" [] >> exit 1 | some _ ↦ pure tt ]

-- The loop of `double_print`. Each line takes a byte from the stream, so the length of the stream
-- and one more are rounds enough.
unfoldable pub double_lines : (fuel : ℕ) → (stream : Bytes) → M (Unit {0})
unfolding put fgets
double_lines zero s = finish Outcome.spins
double_lines (suc fuel) s = elim (fgets s) [
  | none ↦ pure tt
  | some (line, more) ↦ times 2 (put line) >> double_lines fuel more
]

unfoldable pub double_print : (stream : Bytes) → M (Unit {0})
unfolding double_lines
double_print s = double_lines (length s + 1) s

-- `stdin` is what comes through the standard input, `file` what the file holds.
unfoldable pub main : (stdin file : Bytes) → (args : List Bytes) → M (Unit {0})
unfolding double_print
main stdin file [] = double_print stdin >> exit 0
main stdin file (path ∷ _) = do
  fp ← call (Call.open_file path "r")
  elim fp [
    | none ↦ fprintf_stderr "can't open %s\n" (Arg.text path ∷ []) >> exit 1
    | some _ ↦ double_print file >> exit 0
  ]
