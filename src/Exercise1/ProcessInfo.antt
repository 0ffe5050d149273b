-- ===== src/Exercise1/ProcessInfo.antt =====
-- network-programming-2013/exercise1/question-1.c: the identifiers of the process, its environment, and the
-- time that a function takes.
use course_code.Base.{List, [], ◌∷◌}
use course_code.Posix.Call.{Bytes, Call, Arg}
use course_code.Posix.Run.{M, sys, pure, exit, printf, ◌>>=◌, ◌>>◌}
use course_code.Posix.Io.{answer, stored}
use course_code.Posix.Program.{elapsed}

unfoldable pub print_ps : M (Unit {0})
print_ps = do
  pid ← sys Call.getpid
  ppid ← sys Call.getppid
  uid ← sys Call.getuid
  gid ← sys Call.getgid
  printf "pid: %d\n" (Arg.int (answer pid) ∷ [])
  printf "ppid: %d\n" (Arg.int (answer ppid) ∷ [])
  printf "uid: %d\n" (Arg.int (answer uid) ∷ [])
  printf "gid: %d\n" (Arg.int (answer gid) ∷ [])

-- The pointer `environ` itself is advanced: what is left of it is the result.
unfoldable pub print_env : (environ : List Bytes) → M (List Bytes)
print_env [] = pure []
print_env (e ∷ environ) = printf "%s\n" (Arg.text e ∷ []) >> print_env environ

-- `gettimeofday` as the numbers tv_sec and tv_usec.
unfoldable pub measure_time : (pfunc : M (Unit {0})) → M (Unit {0})
measure_time pfunc = do
  start ← sys Call.gettimeofday
  pfunc
  end ← sys Call.gettimeofday
  printf "The executing time is %f\n" (elapsed (stored start) (stored end) ∷ [])

unfoldable pub main : M (Unit {0})
unfolding print_ps measure_time
main = measure_time print_ps >> exit 0
