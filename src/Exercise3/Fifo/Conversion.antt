-- ===== src/Exercise3/Fifo/Conversion.antt =====
-- question-2.c with converter.c behind its execve: what comes out of the chain of both programs.
use course_code.Base.{ℕ, List, ◌∷◌, ◌++◌}
use course_code.Posix.Call.{Bytes, Reply, done, Trace}
use course_code.Posix.Run.{Result}
use course_code.Exercise3.Filters.{converter}
use course_code.Exercise3.Fifo.{parent, child}

-- The parent with the descriptors of its two FIFOs.
abbrev pub above : (pid wfd rfd : ℕ) → (l l' : List ℕ) → List Reply → Result (Unit {0})
above pid wfd rfd l l' rs = parent pid (done wfd l ∷ done rfd l' ∷ rs)

-- The calls of the child, and of the program that it becomes.
abbrev pub below : (rs rs' : List Reply) → (buf : Bytes) → Trace
below rs rs' buf = (child rs).trace ++ (converter buf rs').trace
