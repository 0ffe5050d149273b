-- ===== src/Exercise2/Arguments.antt =====
-- network-programming-2013/exercise2/test.c: it prints its arguments, with the name of the program.
use course_code.Base.{ℕ, ◌+◌, List, [], ◌∷◌}
use course_code.Posix.Call.{Bytes, Arg}
use course_code.Posix.Run.{M, pure, exit, printf, ◌>>◌}

-- The `for` over the arguments from number `i` on.
unfoldable pub print_args : (i : ℕ) → (argv : List Bytes) → M (Unit {0})
print_args i [] = pure tt
print_args i (arg ∷ argv) = do
  printf "argv[%d]: %s\n" (Arg.int i ∷ Arg.text arg ∷ [])
  print_args (i + 1) argv

unfoldable pub main : (argv : List Bytes) → M (Unit {0})
unfolding print_args
main argv = print_args 0 argv >> exit 0
