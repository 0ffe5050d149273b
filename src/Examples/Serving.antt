-- ===== src/Examples/Serving.antt =====
-- Whole servers at concrete inputs.
use course_code.Base.{none, List, [], ◌∷◌}
use course_code.Posix.Call.{Reply, done, fail, Errno}
use course_code.Exercise3.Server as Doubling
use course_code.Exercise4.Sink as Sink
use course_code.Exercise4.EchoServer as EchoServer
use course_code.Exercise5.Echo as Echo
use course_code.Exercise5.Shutdown as Shutdown
use course_code.Exercise6.Capacity as Capacity
use course_code.Break.Session.{Session, Surroundings}
use course_code.Break.Client as Client

-- Three calls in front and two more answers, a connection for a child elsewhere, and a failure.
abbrev start_up : List Reply
start_up =
    done 3 []
    ∷ done 0 []
    ∷ done 0 []
    ∷ done 4 []
    ∷ done 5 []
    ∷ done 4 []
    ∷ done 90 []
    ∷ done 0 []
    ∷ fail Errno.eintr
    ∷ []

abbrev around : Surroundings
around = record { behind = []; dangling = λ s. s; rp = 0 }

abbrev opened : Session
opened = record { buf = []; ptr = 0; byte = none }

-- A run of one piece, its end, and an error.
abbrev timed_run : List Reply
timed_run =
    done 2 (7 ∷ 8 ∷ [])
    ∷ done 0 (10 ∷ 5 ∷ [])
    ∷ done 0 []
    ∷ done 0 (11 ∷ 4 ∷ [])
    ∷ fail Errno.eintr
    ∷ []
