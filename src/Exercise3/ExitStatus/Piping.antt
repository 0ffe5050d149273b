-- ===== src/Exercise3/ExitStatus/Piping.antt =====
-- What the parent of question-1-pipe.c sends into the pipe.
use course_code.Base.{ℕ, refl, List, [], ◌∷◌, arith, Bool-cases, inl, inr}
use course_code.Posix.Call.{Call, Reply, done, fail}
use course_code.Posix.Run.{M, exit, ◌>>=◌, ◌>>◌}
use course_code.Posix.Io.{asked_by, call}
use course_code.Posix.Relay.{relayed}
use course_code.Posix.Libc.{wifexited, wifsignaled, wifstopped, wifcontinued}
use course_code.Posix.Program.{write_or_die}
use course_code.Posix.Writes.{write_or_die-Emits}
use course_code.Posix.Finish.{Finishes, Closes, while_read-Finishes}
use course_code.Exercise3.ExitStatus.{pr_exit, wait_status, piped_parent}

module _ (pid write_end status : ℕ) where
  -- Behind the loop.
  abbrev ending : M (Unit {0})
  ending = do call (Call.close write_end); status' ← wait_status pid status; pr_exit status'; exit 0

  report-Closes :
      (s : ℕ) (rs : List Reply)
      → Closes (asked_by write_end) 0 {A = Unit {0}} ((pr_exit s >> exit 0) rs)
  unfolding pr_exit
  report-Closes s rs = elim (Bool-cases (wifexited s)) [
    | inl e ↦ rw e (record { mute = refl; deaf = refl; stops = omega arith })
    | inr e ↦ rw e (elim (Bool-cases (wifsignaled s)) [
      | inl f ↦ rw f (record { mute = refl; deaf = refl; stops = omega arith })
      | inr f ↦ rw f (elim (Bool-cases (wifstopped s)) [
        | inl g ↦ rw g (record { mute = refl; deaf = refl; stops = omega arith })
        | inr g ↦ rw g (elim (Bool-cases (wifcontinued s)) [
          | inl h ↦ rw h (record { mute = refl; deaf = refl; stops = omega arith })
          | inr h ↦ rw h (record { mute = refl; deaf = refl; stops = omega arith })
        ])
      ])
    ])
  ]

  ending-Closes : (rs : List Reply) → Closes (asked_by write_end) 0 (ending rs)
  unfolding wait_status
  ending-Closes [] = record { mute = refl; deaf = refl; stops = tt }
  ending-Closes (r ∷ []) = record { mute = refl; deaf = refl; stops = tt }
  ending-Closes (r ∷ fail e ∷ rs) = record { mute = refl; deaf = refl; stops = omega arith }
  ending-Closes (r ∷ done n [] ∷ rs) =
      let c = report-Closes status rs in record { mute = c.mute; deaf = c.deaf; stops = c.stops }
  ending-Closes (r ∷ done n (s ∷ _) ∷ rs) =
      let c = report-Closes s rs in record { mute = c.mute; deaf = c.deaf; stops = c.stops }

  -- The parent hands each piece of its input to the pipe, once and in order, and exits with status
  -- 0 only behind all of it.
  pub piped_parent-Finishes :
      (read_end : ℕ) (rs : List Reply)
      → Finishes (asked_by write_end) 0 (λ buf. buf) (piped_parent pid read_end write_end status rs)
  unfolding piped_parent relayed
  piped_parent-Finishes read_end [] = ([], refl)
  piped_parent-Finishes read_end (r ∷ rs) =
      while_read-Finishes (asked_by write_end) 0 1024 (λ buf. buf)
        (λ _ buf. write_or_die "write error to pipe\n" write_end buf) tt (λ _. ending) rs
        (λ _ buf. write_or_die-Emits 0 write_end buf "write error to pipe\n") (λ r. refl)
        (λ _. ending-Closes)
