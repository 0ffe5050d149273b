-- ===== src/Exercise1/DoublerSyscall.antt =====
-- network-programming-2013/exercise1/doubler-syscall.c
pub mod Copies
use course_code.Base.{
  ℕ, Bool-cases, inl, inr, zero, suc, ◌<◌, ◌≡◌, refl, ◌≢◌, Option, none, some, List, [], ◌∷◌, ◌++◌,
  append_assoc, Bool, true, false, not, arith, length, take, min, ◌==◌, if◌then◌else◌, append-nil,
}
use course_code.Posix.Call.{Bytes, Reply, done, fail, Call, Trace, text, Arg}
use course_code.Posix.Run.{
  M, Result, Outcome, ok, exited, blocked, fault, spins, sys, pure, exit, fprintf_stderr, ◌>>=◌,
  ◌>>◌,
}
use course_code.Posix.Io.{sent_by, read, write, call, sent, chunks, got, Got, chunk, eof, failed}
use course_code.Posix.Loop.{while_read, forever_rule, times, Ended, read_round}

abbrev buff_size : ℕ
buff_size = 4096

-- `write(...) != n`
short : Bytes → Option ℕ → Bool
short buf none = true
short buf (some k) = not (k == length buf)

-- The body of the inner loop: `n` is the length of `buf`.
write_once : Bytes → M (Unit {0})
write_once buf = do
  k ← write 1 buf
  if short buf k then fprintf_stderr "can't write to stdout\n" [] >> exit 1 else pure tt

unfoldable pub double_print : ℕ → M (Unit {0})
unfolding short write_once
double_print file = do
  while_read (read file buff_size) (λ _ buf. times 2 (write_once buf)) tt
  pure tt

-- `argv` without the name of the program.
unfoldable pub main : List Bytes → M (Unit {0})
unfolding double_print
main [] = double_print 0 >> exit 0
main (path ∷ _) = do
  fd ← call (Call.open_file path "O_RDONLY")
  elim fd [
    | none ↦ fprintf_stderr "can't open %s\n" (Arg.text path ∷ []) >> exit 1
    | some file ↦ double_print file >> exit 0
  ]
