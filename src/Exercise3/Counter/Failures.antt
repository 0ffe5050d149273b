-- ===== src/Exercise3/Counter/Failures.antt =====
-- Which failures question-4.c notices.
use course_code.Base.{ℕ, refl, Bool, true, false, List, [], ◌∷◌, replicate}
use course_code.Posix.Call.{Bytes, Reply, fail, enoent, Call, Event, Arg, wrlck, unlck}
use course_code.Posix.Io.{answer}
use course_code.Posix.Checked.{
  Checks, Careful, ◌then◌, need-Careful, write_or_die-Careful, call-Careful, sys-Careful,
  pure-Careful, emit-Careful, exit-Careful,
}
use course_code.Posix.FileLock.{
  interrupted, file_lock, lock_wait-Careful, lock_release-Careful, lock_init,
}
use course_code.Exercise3.Counter.Program.{
  int_size, open_by, open_counter, my_lock_init, my_lock_wait, my_lock_release, report, count_once,
}

-- `stat`, `getpid`, `sleep`, `close` and `unlink` whatever they say, and an interrupted wait.
abbrev pub passed_over : Event → Bool
passed_over e = elim e.call [
  | Call.stat _ ↦ true
  | Call.getpid ↦ true
  | Call.sleep _ ↦ true
  | Call.close _ ↦ true
  | Call.unlink _ ↦ true
  | Call.set_lock_wait _ lock ↦ elim lock.l_type [ wrlck ↦ interrupted e | unlck ↦ false ]
  | _ ↦ false
]

open_by-Careful : (path : Bytes) (r : Reply) → Careful passed_over (open_by path r)
unfolding open_by
open_by-Careful path (fail enoent) =
    need-Careful (Call.open_file path "O_RDWR | O_CREAT") _ (λ e. refl) then (λ fd.
      write_or_die-Careful fd (replicate int_size 0) _ (λ e. refl) then (λ _. pure-Careful fd))
open_by-Careful path _ = need-Careful (Call.open_file path "O_RDWR") _ (λ e. refl)

open_counter-Careful : (path : Bytes) → Careful passed_over (open_counter path)
unfolding open_counter
open_counter-Careful path = sys-Careful (Call.stat path) (λ e. refl) then open_by-Careful path

my_lock_wait-Careful : (fd : ℕ) → Careful passed_over (my_lock_wait (file_lock fd))
unfolding my_lock_wait
my_lock_wait-Careful fd = lock_wait-Careful passed_over _ fd (λ r. refl) (λ e. refl)

my_lock_release-Careful : (fd : ℕ) → Careful passed_over (my_lock_release (file_lock fd))
unfolding my_lock_release
my_lock_release-Careful fd = lock_release-Careful passed_over _ fd (λ r. refl) (λ e. refl)

-- What the process does while it has the lock.
report-Careful : (value : ℕ) → Careful passed_over (report value)
unfolding report
report-Careful value = sys-Careful Call.getpid (λ e. refl) then (λ pid.
    emit-Careful (Call.printf "pid %d: get lock\n" (Arg.int (answer pid) ∷ [])) then (λ _.
      call-Careful (Call.sleep 5) (λ e. refl) then (λ _.
        sys-Careful Call.getpid (λ e. refl) then (λ pid'.
          emit-Careful (Call.printf "pid %d: %d\n" (Arg.int (answer pid') ∷ Arg.int value ∷ []))))))

count_once-Careful : (value : ℕ) (path : Bytes) → Careful passed_over (count_once value path)
unfolding count_once my_lock_init lock_init
count_once-Careful value path = open_counter-Careful path then (λ fd.
    need-Careful (Call.mmap int_size fd) "mmap failed" (λ e. refl) then (λ _.
      pure-Careful (file_lock fd) then (λ _. my_lock_wait-Careful fd then (λ _.
        report-Careful value then (λ _. my_lock_release-Careful fd then (λ _.
          call-Careful (Call.close fd) (λ e. refl)
          then (λ _. call-Careful (Call.unlink path) (λ e. refl) then (λ _. exit-Careful))))))))

-- On every list of answers, whatever the counter holds: question-4.c with a path exits with status 0
-- only if every `open`, `write`, `mmap` and `fcntl` that it made succeeded, a wait that was
-- interrupted apart; if one failed, it has exited with status 1 behind a message, or still waits.
pub count_once-Checks :
    (value : ℕ) (path : Bytes) (rs : List Reply) → Checks passed_over (count_once value path rs)
count_once-Checks value path = (count_once-Careful value path).checks
