-- ===== src/Exercise3/Fifo/Failures.antt =====
-- Which failures the reader of question-2.c notices.
use course_code.Base.{ℕ, refl, Bool, true, false, String, ◌∷◌}
use course_code.Posix.Call.{Call, Event}
use course_code.Posix.Io.{Got, chunk, eof, failed, got}
use course_code.Posix.Run.{pure}
use course_code.Posix.Program.{write_or_die}
use course_code.Posix.Checked.{
  Careful, ◌then◌, need-Careful, write_or_die-Careful, sys-Careful, pure-Careful,
}
use course_code.Exercise3.Fifo.{fifo1, fifo2, max_line, both_or_die, forward_once, exchange, parent}

abbrev pub is_read : Event → Bool
is_read e = elim e.call [ Call.read _ _ ↦ true | _ ↦ false ]

hand_on-Careful :
    (to_fd : ℕ) (str : String) (g : Got)
    → Careful is_read {A = Unit {0}}
        (elim g [ chunk b bs ↦ write_or_die str to_fd (b ∷ bs) | eof ↦ pure tt | failed ↦ pure tt ])
hand_on-Careful to_fd str (chunk b bs) = write_or_die-Careful to_fd (b ∷ bs) str (λ e. refl)
hand_on-Careful to_fd str eof = pure-Careful tt
hand_on-Careful to_fd str failed = pure-Careful tt

forward_once-Careful :
    (from_fd to_fd : ℕ) (str : String) → Careful is_read (forward_once from_fd to_fd str)
unfolding forward_once
forward_once-Careful from_fd to_fd str =
    (sys-Careful (Call.read from_fd max_line) (λ e. refl) then (λ r. pure-Careful (got max_line r)))
    then (λ g. hand_on-Careful to_fd str g)

pub parent-Careful : (pid : ℕ) → Careful is_read (parent pid)
unfolding parent exchange both_or_die
parent-Careful pid =
    need-Careful (Call.open_file fifo1 "O_WRONLY") "parent: open fifo error" (λ e. refl)
    then (λ wfd.
        need-Careful (Call.open_file fifo2 "O_RDONLY") "parent: open fifo error" (λ e. refl)
        then (λ rfd. forward_once-Careful 0 wfd "parent: write error to fifo\n" then (λ _.
            need-Careful (Call.wait_child pid) "parent: waitpid error" (λ e. refl) then (λ _.
              forward_once-Careful rfd 1 "parent: write error to stdout\n" then (λ _.
                (need-Careful (Call.close rfd) "parent: close fifo error" (λ e. refl) then (λ _.
                  need-Careful (Call.close wfd) "parent: close fifo error" (λ e. refl)
                  then (λ _. pure-Careful tt)))
                then (λ _.
                    need-Careful (Call.unlink fifo1) "parent: unlink fifo error" (λ e. refl)
                    then (λ _.
                        need-Careful (Call.unlink fifo2) "parent: unlink fifo error" (λ e. refl)
                        then (λ _. pure-Careful tt))))))))
