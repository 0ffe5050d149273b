-- ===== src/Exercise1/Options/GivingUp.antt =====
-- How question-4.c and question-5.c give up, and what stands behind their calls.
use course_code.Base.{ℕ, refl, none, some, List, [], ◌∷◌, Option}
use course_code.Posix.Call.{Bytes, Reply}
use course_code.Posix.Run.{pure}
use course_code.Posix.Io.{gather, sent, sent_by}
use course_code.Posix.Relay.{Fits, relayed}
use course_code.Posix.Finish.{Complete}
use course_code.Posix.Connection.{joined}
use course_code.Posix.Forward.{Forwards, Ends, pure-Forwards}
use course_code.Posix.Sends.{Sends, Completes, Sends-pure}
use course_code.Exercise1.Options.{complain, print}
use course_code.Exercise1.Options.Printing.{taken_in, Mark, marks, print-Forwards, print-Sends}

module _ (A : Type 0) (err : Bytes) where
  silent_case :
      (rs : List Reply)
      → Fits
          (complain {A = A} err rs).outcome
          (sent 1 (complain {A = A} err rs).trace)
          (joined (gather taken_in (complain {A = A} err rs).trace))
  unfolding relayed
  silent_case [] = ([], refl)
  silent_case (r ∷ rs) = (refl, ([], refl))

  ends_case :
      (rs : List Reply)
      → Complete
          (complain {A = A} err rs).outcome
          (sent 1 (complain {A = A} err rs).trace)
          (joined (gather taken_in (complain {A = A} err rs).trace))
  unfolding relayed
  ends_case [] = ([], refl)
  ends_case (r ∷ rs) = (refl, ([], refl))

  marks_case :
      (wanted : List Mark) (rs : List Reply)
      → Fits (complain {A = A} err rs).outcome (gather marks (complain {A = A} err rs).trace) wanted
  marks_case wanted [] = (wanted, refl)
  marks_case wanted (r ∷ rs) = (refl, (wanted, refl))

  complain-Forwards : Forwards taken_in (sent_by 1) {A = A} (complain err)
  complain-Forwards = record { passed = λ rs. record { fits = silent_case rs } }

  pub complain-Ends : Ends taken_in (sent_by 1) {A = A} (complain err)
  complain-Ends = record { ends = ends_case }

  complain-Sends : Sends marks {A = A} [] (complain err)
  complain-Sends = record { fits = marks_case [] }

  stopped_case :
      (wanted : List Mark) (rs : List Reply)
      → Complete
          (complain {A = A} err rs).outcome
          (gather marks (complain {A = A} err rs).trace)
          wanted
  stopped_case wanted [] = (wanted, refl)
  stopped_case wanted (r ∷ rs) = (refl, (wanted, refl))

  pub complain-Completes : (wanted : List Mark) → Completes marks {A = A} wanted (complain err)
  complain-Completes wanted = record { complete = stopped_case wanted }

-- A call whose result must not be -1.
pub checked-Forwards :
    (err : Bytes) (r : Option ℕ)
    → Forwards taken_in
        (sent_by 1)
        {A = Unit {0}}
        (elim r [ none ↦ complain err | some _ ↦ pure tt ])
checked-Forwards err none = complain-Forwards _ err
checked-Forwards err (some _) = pure-Forwards tt

pub checked-Sends :
    (err : Bytes) (r : Option ℕ)
    → Sends marks {A = Unit {0}} [] (elim r [ none ↦ complain err | some _ ↦ pure tt ])
checked-Sends err none = complain-Sends _ err
checked-Sends err (some _) = Sends-pure marks tt

pub printed-Forwards :
    (err : Bytes) (r : Option ℕ)
    → Forwards taken_in
        (sent_by 1)
        {A = Unit {0}}
        (elim r [ none ↦ complain err | some file ↦ print file ])
printed-Forwards err none = complain-Forwards _ err
printed-Forwards err (some file) = print-Forwards file

pub printed-Sends :
    (err : Bytes) (r : Option ℕ)
    → Sends marks {A = Unit {0}} [] (elim r [ none ↦ complain err | some file ↦ print file ])
printed-Sends err none = complain-Sends _ err
printed-Sends err (some file) = print-Sends file
