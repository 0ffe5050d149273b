-- ===== src/Exercise4/Sink/Timing.antt =====
-- When the children of server.c take the time and report it.
use course_code.Base.{ℕ, ◌<◌, ◌≡◌, refl, ◌∙◌, none, some, List, [], ◌∷◌, length}
use course_code.Posix.Call.{Reply, done, Call, Event, Trace}
use course_code.Posix.Run.{Result, Outcome, ok, exited, blocked, fault, spins, M, pure, ◌>>◌}
use course_code.Posix.Io.{stored, read}
use course_code.Posix.Loop.{Ended, at_eof, on_error}
use course_code.Posix.Loop as Loop
use course_code.Posix.Program.{handle_err, elapsed}
use course_code.Exercise4.Sink.Watch.{
  Watch, idle, running, stopping, reporting, dying, Waits, report-step, watch, watch-step,
}
use course_code.Exercise4.Sink.{Clock, stop_clock}

module _ (fd count : ℕ) where
  abbrev of_clock : Clock → Watch
  of_clock none = idle
  of_clock (some s) = running s

  abbrev behind_eof : Clock → Watch
  behind_eof none = idle
  behind_eof (some s) = stopping s

  -- What the inner loop leaves.
  abbrev Left : (m n : ℕ) → Watch → Outcome (Clock × Ended) → Trace → Type 0
  Left m n w (ok (clock, at_eof)) t = (watch fd count w t ≡ some (behind_eof clock)) × (m < n)
  Left m n w (ok (clock, on_error)) t = (watch fd count w t ≡ some dying) × (m < n)
  Left m n w (exited _) t = ⊥
  Left m n w blocked t = (q : Watch) × (watch fd count w t ≡ some q) × Waits q
  Left m n w fault t = ⊥
  Left m n w spins t = ⊥

  abbrev Rest : Type 0
  Rest = Clock → M (Clock × Ended)

  abbrev Keeps : Clock → List Reply → Result (Clock × Ended) → Type 0
  Keeps clock rs r = Left (length r.rest) (length rs) (of_clock clock) r.outcome r.trace

  abbrev taken : Reply → Event
  taken r = record { call = Call.read fd count; reply = r }

  abbrev clocked : Reply → Event
  clocked r = record { call = Call.gettimeofday; reply = r }

  abbrev reported : List ℕ → Reply → Event
  reported start r = record {
    call = Call.printf "The elapsed time for receiving is %fs\n" (elapsed start (stored r) ∷ []);
    reply = done 0 [];
  }

  report :
      (s : List ℕ) (r : Reply)
      → watch fd count (stopping s) (clocked r ∷ reported s r ∷ []) ≡ some idle
  unfolding watch
  report s r =
      watch-step fd count (stopping s) (reporting s (stored r)) (clocked r) (reported s r ∷ []) refl
      ∙ watch-step fd count (reporting s (stored r)) idle (reported s r) []
          (report-step fd count s (stored r) "The elapsed time for receiving is %fs\n")

  abbrev Outer : Type 0
  Outer = Clock → M (Unit {0})

  abbrev behind_loop : Clock × Ended → M (Loop.Next Clock (Unit {0}))
  behind_loop (clock, at_eof) = do stop_clock clock; pure (Loop.again none)
  behind_loop (clock, on_error) = handle_err "read error"
