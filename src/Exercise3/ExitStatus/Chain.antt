-- ===== src/Exercise3/ExitStatus/Chain.antt =====
-- question-1-pipe.c with doubler.c behind its execve: what comes out of both programs.
use course_code.Base.{ℕ, List, ◌++◌}
use course_code.Posix.Call.{Reply, Call, Trace}
use course_code.Posix.Silent.{Silent}
use course_code.Exercise3.Filters.{doubler}
use course_code.Exercise3.ExitStatus.{piped_child}

-- The calls of the child, and of the program that it becomes.
abbrev pub below : (read_end write_end : ℕ) → (rs rs' : List Reply) → Trace
below read_end write_end rs rs' = (piped_child read_end write_end rs).trace ++ (doubler rs').trace
