-- ===== src/Examples/Copying.antt =====
-- Runs of the programs that copy bytes, on short lists of answers.
use course_code.Base.{◌≡◌, false, refl, arith, ◌++◌, [], ◌∷◌, List}
use course_code.Posix.Call.{Reply, done, fail, Errno}
use course_code.Posix.Io.{asked_by, sent_by}
use course_code.Posix.Relay.{Relays}
use course_code.Posix.Echo.{Serves}
use course_code.Exercise1.DoublerSyscall.{double_print}
use course_code.Exercise1.DoublerSyscall.Copies.{double_print-Relays}
use course_code.Exercise3.Server as Doubling
use course_code.Posix.Libc.{codes, str_eq}
use course_code.Exercise1.Options.{lacks_files, main, main_sigaction}
use course_code.Exercise1.Options.Order.{Cats, mains-Cats}
use course_code.Exercise1.Options.Reading.{at_end, piece}
use course_code.Exercise1.Options.Whole.{Installs, Opens, Prints, mains-Prints}
use course_code.Exercise3.Server.Doubling.{str_echo-Serves}

-- Two bytes come, both writes succeed, and then the input is at its end.
abbrev two_writes : List Reply
two_writes = done 2 (7 ∷ 8 ∷ []) ∷ done 2 [] ∷ done 2 [] ∷ done 0 [] ∷ []

-- Two pieces with one write each, and an error.
abbrev one_write : List Reply
one_write = done 2 (7 ∷ 8 ∷ []) ∷ done 2 [] ∷ done 1 (9 ∷ []) ∷ done 1 [] ∷ fail Errno.eintr ∷ []

-- An answer to a call in front, such as `close`.
abbrev closed_first : List Reply → List Reply
closed_first rs = done 0 [] ∷ rs

double_print-Relays_example : Relays (sent_by 1) 3 (λ buf. buf ++ buf) (double_print 3 two_writes)
double_print-Relays_example = double_print-Relays 3 two_writes

str_echo-Serves_example : Serves (asked_by 5) 5 (λ buf. buf ++ buf) (Doubling.str_echo 5 two_writes)
str_echo-Serves_example = str_echo-Serves 5 two_writes

-- A handler is installed, and a file of two bytes is copied.
abbrev one_file : List Reply
one_file = done 0 [] ∷ done 3 [] ∷ done 2 (7 ∷ 8 ∷ []) ∷ done 2 [] ∷ done 0 [] ∷ done 0 [] ∷ []

mains-Cats_example :
    let args = codes "-C" ∷ codes "f" ∷ [] in
    Cats args (main args one_file) × Cats args (main_sigaction args (done 0 [] ∷ one_file))
mains-Cats_example = mains-Cats (codes "-C" ∷ codes "f" ∷ []) one_file (done 0 [] ∷ one_file)

-- Two files, one of three bytes in two pieces.
abbrev two_files : List Reply
two_files =
    done 3 []
    ∷ done 2 (7 ∷ 8 ∷ [])
    ∷ done 2 []
    ∷ done 1 (9 ∷ [])
    ∷ done 1 []
    ∷ done 0 []
    ∷ done 0 []
    ∷ done 4 []
    ∷ done 1 (5 ∷ [])
    ∷ done 1 []
    ∷ done 0 []
    ∷ done 0 []
    ∷ []

two_files-Opens : Opens (codes "f" ∷ codes "-C" ∷ codes "g" ∷ []) (7 ∷ 8 ∷ 9 ∷ 5 ∷ []) two_files
unfolding str_eq
two_files-Opens =
    Opens.file 3 [] (done 0 []) refl
      (piece 2 2 7 (8 ∷ []) [] (omega arith) (omega arith)
        (piece 1 1 9 [] [] (omega arith) (omega arith) (at_end 0)))
      (Opens.an_option refl (
        Opens.file 4 [] (done 0 []) refl (piece 1 1 5 [] [] (omega arith) (omega arith) (at_end 0))
          Opens.no_more))

option-Installs : Installs (codes "f" ∷ codes "-C" ∷ codes "g" ∷ []) (done 0 [] ∷ [])
unfolding str_eq
option-Installs =
    Installs.a_file refl (Installs.option 0 [] refl (Installs.a_file refl Installs.no_more))

some_files : lacks_files (codes "f" ∷ codes "-C" ∷ codes "g" ∷ []) ≡ false
unfolding lacks_files
some_files = refl

mains-Prints_example :
    let args = codes "f" ∷ codes "-C" ∷ codes "g" ∷ [] in
    Prints (7 ∷ 8 ∷ 9 ∷ 5 ∷ []) (main args ((done 0 [] ∷ []) ++ two_files))
    × Prints
        (7 ∷ 8 ∷ 9 ∷ 5 ∷ [])
        (main_sigaction args (done 0 [] ∷ ((done 0 [] ∷ []) ++ two_files)))
mains-Prints_example =
    mains-Prints (codes "f" ∷ codes "-C" ∷ codes "g" ∷ []) (7 ∷ 8 ∷ 9 ∷ 5 ∷ []) (done 0 [] ∷ [])
      two_files some_files option-Installs two_files-Opens 0 []
