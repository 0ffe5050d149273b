-- ===== src/Exercise1/FileStat.antt =====
-- network-programming-2013/exercise1/question-3.c: the attributes of a file.
use course_code.Base.{ℕ, none, some, String, List, [], ◌∷◌, if◌then◌else◌, get_or}
use course_code.Posix.Call.{Bytes, Call, Arg, done, fail}
use course_code.Posix.Run.{M, sys, exit, printf, stmt, fprintf_stderr, ◌>>=◌, ◌>>◌}
use course_code.Posix.Libc.{s_isreg, s_isdir, s_ischr, s_isblk, s_isfifo, s_issock}
use course_code.Posix.Io.{call}

abbrev pub type_line : (mode : ℕ) → String
type_line mode =
    if s_isreg mode
    then "Type: regular file\n"
    else if s_isdir mode
    then "Type: directory\n"
    else if s_ischr mode
    then "Type: character device\n"
    else if s_isblk mode
    then "Type: block device\n"
    else if s_isfifo mode
    then "Type: fifo/pipe\n"
    else if s_issock mode
    then "Type: socket\n"
    else "Type: unknown type\n"

-- `struct stat` as the numbers st_mode, st_uid, st_gid and st_size.
unfoldable pub print_stat : (file : ℕ) → M (Unit {0})
print_stat file = do
  r ← sys (Call.fstat file)
  elim r [
    | fail _ ↦ fprintf_stderr "fail to get stat info\n" [] >> exit 1
    | done _ buf ↦ (do
      printf (type_line (get_or buf 0 0)) []
      printf "Ownership: UID=%ld, GID=%ld\n"
          (Arg.int (get_or buf 1 0) ∷ Arg.int (get_or buf 2 0) ∷ [])
      printf "File size: %lld bytes\n" (Arg.int (get_or buf 3 0) ∷ []))
  ]

-- `name` is argv[0].
unfoldable pub main : (name : Bytes) → (args : List Bytes) → M (Unit {0})
unfolding print_stat
main name [] = fprintf_stderr "Usage: %s <pathname>\n" (Arg.text name ∷ []) >> exit 1
main name (path ∷ []) = do
  r ← call (Call.open_file path "O_RDONLY")
  stmt (elim r [
    | none ↦ fprintf_stderr "can't open %s\n" (Arg.text path ∷ []) >> exit 1
    | some file ↦ print_stat file
  ])
  exit 0
main name (_ ∷ _ ∷ _) = fprintf_stderr "Usage: %s <pathname>\n" (Arg.text name ∷ []) >> exit 1
