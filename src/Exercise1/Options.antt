-- ===== src/Exercise1/Options.antt =====
-- network-programming-2013/exercise1/question-4.c and question-5.c: files to the standard output, with
-- a handler for SIGINT behind the option -C.
pub mod Copies
pub mod Printing
pub mod GivingUp
pub mod Order
pub mod Reading
pub mod Whole
use course_code.Base.{ℕ, Bool, true, false, none, some, List, [], ◌∷◌, ◌==◌, if◌then◌else◌, length}
use course_code.Posix.Call.{Bytes, Call, fail, Signal, Handler}
use course_code.Posix.Run.{M, pure, exit, stmt, ◌>>=◌, ◌>>◌}
use course_code.Posix.Libc.{codes, char_array, str_eq}
use course_code.Posix.Io.{read, call, write}
use course_code.Posix.Loop.{while_read}

abbrev pub buff_size : ℕ
buff_size = 4096

abbrev pub err_buff_size : ℕ
err_buff_size = 30

abbrev err1 : Bytes
err1 = char_array err_buff_size (codes "losing args\n")

abbrev err2 : Bytes
err2 = char_array err_buff_size (codes "fail to use handler\n")

abbrev err3 : Bytes
err3 = char_array err_buff_size (codes "can't open your input file\n")

abbrev cmp_str : Bytes
cmp_str = codes "-C"

abbrev pub is_option : Bytes → Bool
is_option arg = str_eq arg cmp_str

-- `write(STDERR_FILENO, err, 30); exit(1);`
abbrev pub complain : {A : Type 0} → Bytes → M A
complain err = do write 2 err; exit 1

-- `write(STDOUT_FILENO, buf, n) != n` ends the program.
unfoldable pub write_exact : Bytes → M (Unit {0})
write_exact buf = do
  k ← write 1 buf
  elim k [
    | none ↦ complain (char_array err_buff_size (codes "can't write to stdout\n"))
    | some n ↦
        if n == length buf
        then pure tt
        else complain (char_array err_buff_size (codes "can't write to stdout\n"))
  ]

unfoldable pub print : (file : ℕ) → M (Unit {0})
unfolding write_exact
print file = do
  while_read (read file buff_size) (λ _ buf. write_exact buf) tt
  call (Call.sleep 10)
  pure tt

unfoldable pub sig_handler : Signal → M (Unit {0})
sig_handler Signal.sigint = complain (char_array err_buff_size (codes "catch SIGINT\n"))
sig_handler Signal.sigchld = pure tt
sig_handler Signal.sigpipe = pure tt

-- The first loop over the arguments; `install` is the call that names the handler.
unfoldable pub install_handlers : (install : Call) → List Bytes → M (Unit {0})
install_handlers install [] = pure tt
install_handlers install (arg ∷ args) = do
  if is_option arg
      then (do r ← call install; elim r [ none ↦ complain err2 | some _ ↦ pure tt ])
      else pure tt
  install_handlers install args

-- The second loop.
unfoldable pub print_files : List Bytes → M (Unit {0})
unfolding print
print_files [] = pure tt
print_files (arg ∷ args) = do
  if is_option arg then pure tt else (do
    r ← call (Call.open_file arg "O_RDONLY")
    elim r [ none ↦ complain err3 | some file ↦ print file ])
  print_files args

-- `argc == 1`, or -C alone.
unfoldable pub lacks_files : List Bytes → Bool
lacks_files [] = true
lacks_files (arg ∷ []) = is_option arg
lacks_files (_ ∷ _ ∷ _) = false

-- question-4.c, with `signal`
unfoldable pub main : (args : List Bytes) → M (Unit {0})
unfolding lacks_files install_handlers print_files
main args = if lacks_files args then complain err1 else do
  install_handlers (Call.signal Signal.sigint (Handler.handler "sig_handler")) args
  print_files args
  exit 0

-- question-5.c, with `sigaction` and SA_RESETHAND
unfoldable pub main_sigaction : (args : List Bytes) → M (Unit {0})
unfolding lacks_files install_handlers print_files
main_sigaction args = do
  r ← call Call.sigemptyset
  stmt (elim r [ none ↦ complain err2 | some _ ↦ pure tt ])
  if lacks_files args then complain err1 else do
    install_handlers (Call.sigaction Signal.sigint (Handler.handler "sig_handler") true) args
    print_files args
    exit 0
