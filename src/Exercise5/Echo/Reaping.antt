-- ===== src/Exercise5/Echo/Reaping.antt =====
-- What the handler of SIGCHLD does.
use course_code.Base.{zero, suc, ℕ, ◌<◌, List, [], ◌∷◌, length, append-nil, arith}
use course_code.Posix.Call.{Call, Arg, Errno, Reply, done, fail, Event, Trace}
use course_code.Posix.Run.{Outcome, ok, exited, blocked, fault, spins, M, exit, ◌>>=◌, continue}
use course_code.Posix.Loop.{resume, forever_rule}
use course_code.Posix.Program.{wait_round, wait_children}
use course_code.Exercise5.Echo.{sig_chld}

abbrev pub waited : Reply → Event
waited r = record { call = Call.wait_any_nohang; reply = r }

abbrev pub told : ℕ → Event
told pid = record {
  call = Call.printf "child %d terminated\n" (Arg.int pid ∷ []);
  reply = done 0 [];
}

-- The calls of the handler, and how it ends: each `waitpid` that gives a child is followed by the line
-- for this child and by another `waitpid`; the first one that gives none, be it 0 or a failure, is the
-- last call, and only behind it the process ends, with status 0. It may wait in any `waitpid`.
pub data Reaping : Outcome (Unit {0}) → Trace → Type 0 where
  waiting : Reaping blocked []
  none_ended : (l : List ℕ) → Reaping (exited 0) (waited (done 0 l) ∷ [])
  none_left : (e : Errno) → Reaping (exited 0) (waited (fail e) ∷ [])
  one_ended :
      {o : Outcome (Unit {0})} {t : Trace} (pid : ℕ) (l : List ℕ)
      → Reaping o t
      → Reaping o (waited (done (suc pid) l) ∷ told (suc pid) ∷ t)

-- How a process ends that exits with status 0 behind its loop.
abbrev ended : Outcome (Unit {0}) → Outcome (Unit {0})
ended (ok _) = exited 0
ended (exited n) = exited n
ended blocked = blocked
ended fault = fault
ended spins = spins

round :
    (s : Unit {0}) (rs : List Reply) (k : Unit {0} → M (Unit {0}))
    → ((s' : Unit {0}) (rs' : List Reply)
        → length rs' < length rs
        → Reaping (ended (k s' rs').outcome) (k s' rs').trace)
    → let r = (wait_round s >>= resume k) rs in Reaping (ended r.outcome) r.trace
unfolding wait_round
round s [] k ih = waiting
round s (fail e ∷ rs) k ih = none_left e
round s (done zero l ∷ rs) k ih = none_ended l
round s (done (suc n) l ∷ rs) k ih = one_ended n l (ih tt rs (omega arith))

wait_children-Reaping :
    (rs : List Reply) → Reaping (ended (wait_children rs).outcome) (wait_children rs).trace
unfolding wait_children
wait_children-Reaping =
    forever_rule wait_round (λ _ _ r. Reaping (ended r.outcome) r.trace) round tt

end_case :
    (o : Outcome (Unit {0})) (t : Trace) (rest : List Reply)
    → Reaping (ended o) t
    → let r = continue o t rest (λ (_ : Unit {0}). exit {A = Unit {0}} 0) in
      Reaping r.outcome r.trace
end_case (ok _) t rest h = rw (append-nil t) h
end_case (exited n) t rest h = h
end_case blocked t rest h = h
end_case fault t rest h = h
end_case spins t rest h = h

-- On every list of answers: the handler calls `waitpid` again and again, and prints the line for each
-- child that it gave before it calls it again. It ends the process, with status 0 and without
-- returning to the server, behind the first `waitpid` that gives no child and only there.
pub sig_chld-Quits : (rs : List Reply) → Reaping (sig_chld rs).outcome (sig_chld rs).trace
unfolding sig_chld
sig_chld-Quits rs =
    end_case (wait_children rs).outcome (wait_children rs).trace (wait_children rs).rest
      (wait_children-Reaping rs)
