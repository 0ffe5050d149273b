-- ===== src/Exercise3/Fifo/Redirected.antt =====
-- The child of question-2.c up to its execve: it touches neither of its standard streams.
use course_code.Base.{ℕ, none, some, List, [], Option, ◌==◌, if◌then◌else◌, Bool-cases, inl, inr}
use course_code.Posix.Call.{Call, Event}
use course_code.Posix.Run.{pure}
use course_code.Posix.Io.{sent_by, chunks_by}
use course_code.Posix.Program.{handle_err}
use course_code.Posix.Silent.{
  Preparing, sent_by-Preparing, chunks_by-Preparing, Silent, ◌then◌, pure-Silent, exit-Silent,
  call-Silent, handle_err-Silent, need-Silent,
}
use course_code.Posix.Libc.{codes}
use course_code.Exercise3.Fifo.{fifo1, fifo2, redirect, child}

module _ {X : Type 0} (part : Event → List X) (prepares : Preparing part) where
  open prepares use {opening, copying, closing, executing, complaining}

  copied-Silent :
      (target : ℕ) (r : Option ℕ)
      → Silent part {A = Unit {0}} (elim r [
        | none ↦ handle_err "child: dup2 error"
        | some n ↦ if n == target then pure tt else handle_err "child: dup2 error"
      ])
  copied-Silent target none = handle_err-Silent "child: dup2 error" (complaining _)
  copied-Silent target (some n) = elim (Bool-cases (n == target)) [
    | inl e ↦ rw e (pure-Silent tt)
    | inr e ↦ rw e (handle_err-Silent "child: dup2 error" (complaining _))
  ]

  redirect-Silent : (fd target : ℕ) → Silent part (redirect fd target)
  unfolding redirect
  redirect-Silent fd target = elim (Bool-cases (fd == target)) [
    | inl e ↦ rw e (pure-Silent tt)
    | inr e ↦ rw e (
        call-Silent (Call.dup2 fd target) (copying fd target) then (λ r.
          copied-Silent target r
          then (λ _. call-Silent (Call.close fd) (closing fd) then (λ _. pure-Silent tt))))
  ]

  child-Silent : Silent part child
  unfolding child
  child-Silent =
      need-Silent "child: open fifo error" (Call.open_file fifo1 "O_RDONLY") (opening _ _)
        (complaining _)
      then (λ rfd.
          need-Silent "child: open fifo error" (Call.open_file fifo2 "O_WRONLY") (opening _ _)
            (complaining _)
          then (λ wfd. redirect-Silent rfd 0 then (λ _. redirect-Silent wfd 1 then (λ _.
              need-Silent "child: exec converter error" (Call.execve (codes "converter") [])
                (executing _ _) (complaining _)
              then (λ _. exit-Silent 0)))))

pub child_writes_nothing : (fd : ℕ) → Silent (sent_by fd) child
child_writes_nothing fd = child-Silent (sent_by fd) (sent_by-Preparing fd)

pub child_reads_nothing : (fd : ℕ) → Silent (chunks_by fd) child
child_reads_nothing fd = child-Silent (chunks_by fd) (chunks_by-Preparing fd)
