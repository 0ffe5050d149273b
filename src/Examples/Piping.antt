-- ===== src/Examples/Piping.antt =====
-- The pipes of exercise2/question-6.c and exercise3/question-1-pipe.c, from both ends.
use course_code.Base.{◌≡◌, refl, List, [], ◌∷◌, ◌++◌}
use course_code.Posix.Call.{Reply, done}
use course_code.Posix.Run.{exited}
use course_code.Posix.Io.{chunks, asked}
use course_code.Posix.Loop.{while_read, forever, times}
use course_code.Posix.Relay.{relayed}
use course_code.Posix.Connection.{Link, over, left_moves, right_moves, joined, Whole}
use course_code.Exercise3.Filters as Filters
use course_code.Exercise2.PipeDoubler.{parent, child, doubler, write_or_quit}
use course_code.Exercise2.PipeDoubler.Pipeline.{pipeline-doubles}

-- Two bytes come, the pipe takes them, and the child ends.
abbrev reading : List Reply
reading = done 0 [] ∷ done 2 (97 ∷ 10 ∷ []) ∷ done 2 [] ∷ done 0 [] ∷ done 0 [] ∷ done 90 [] ∷ []

abbrev writing : List Reply
writing = done 0 [] ∷ done 2 (97 ∷ 10 ∷ []) ∷ done 2 [] ∷ done 2 [] ∷ done 0 [] ∷ []

-- Both close an end, the parent writes, the child reads and doubles, the parent waits.
through_pipe : Link 4 3 [] [] [] [] (parent 90 3 4 reading).trace (child 3 4 writing).trace
unfolding parent child doubler write_or_quit while_read forever times relayed
through_pipe = right_moves _ [] refl (
    left_moves _ [] refl (
      left_moves _ [] refl (
        left_moves _ [] refl (
          right_moves _ [] refl (
            right_moves _ [] refl (
              right_moves _ [] refl (
                right_moves _ [] refl
                  (left_moves _ [] refl (left_moves _ [] refl (left_moves _ [] refl over))))))))))

reading-Whole : Whole 4 (parent 90 3 4 reading).trace
unfolding parent write_or_quit while_read forever
reading-Whole = (refl, (refl, (refl, (refl, (refl, (refl, tt))))))

parent-succeeds : (parent 90 3 4 reading).outcome ≡ exited 0
unfolding parent write_or_quit while_read forever
parent-succeeds = refl

child-succeeds : (child 3 4 writing).outcome ≡ exited 0
unfolding child doubler write_or_quit while_read forever times
child-succeeds = refl

pipeline-doubles_example :
    (asked 1 (child 3 4 writing).trace
      ≡ relayed (λ buf. buf ++ buf) (chunks 3 (child 3 4 writing).trace))
    × (joined (chunks 3 (child 3 4 writing).trace)
        ≡ joined (chunks 0 (parent 90 3 4 reading).trace))
pipeline-doubles_example =
    pipeline-doubles 90 3 4 [] reading writing through_pipe reading-Whole parent-succeeds
      child-succeeds

-- The same through question-1-pipe.c, whose child becomes the doubler.
abbrev feeding : List Reply
feeding =
    done 0 [] ∷ done 2 (97 ∷ 10 ∷ []) ∷ done 2 [] ∷ done 0 [] ∷ done 0 [] ∷ done 90 (0 ∷ []) ∷ []

abbrev becoming : List Reply
becoming = done 0 [] ∷ done 0 [] ∷ done 0 [] ∷ done 0 [] ∷ []

abbrev doubling : List Reply
doubling = done 2 (97 ∷ 10 ∷ []) ∷ done 2 [] ∷ done 2 [] ∷ done 0 [] ∷ []
