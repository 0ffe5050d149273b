-- ===== src/Exercise2/PipeDoubler/Pipeline.antt =====
-- Both processes of question-6.c at the two ends of their pipe.
use course_code.Base.{ℕ, ◌≡◌, sym, ◌∙◌, List, [], ◌++◌, append-nil}
use course_code.Posix.Call.{Bytes, Reply}
use course_code.Posix.Run.{exited}
use course_code.Posix.Io.{chunks, asked, sent}
use course_code.Posix.Relay.{relayed}
use course_code.Posix.Finish.{Complete-of_success}
use course_code.Posix.Connection.{Link, Duplex-account, joined, Whole, sent-Whole}
use course_code.Exercise2.PipeDoubler.{parent, child}
use course_code.Exercise2.PipeDoubler.Copies.{parent-Finishes, child-Finishes}

-- On all answers to the two processes, in every order of their calls that the pipe allows, where each
-- `write` to the pipe moves all that it is given, nothing is left in the pipe, and both exit with
-- status 0: what the child hands to `write` for its output is each piece that it read twice, and
-- these pieces together are the whole input of the parent.
pub pipeline-doubles :
    (pid read_end write_end : ℕ) (back_end : Bytes) (rs rs' : List Reply)
    → let reader = parent pid read_end write_end rs in
      let writer = child read_end write_end rs' in
      Link write_end read_end [] back_end [] [] reader.trace writer.trace
      → Whole write_end reader.trace
      → reader.outcome ≡ exited 0
      → writer.outcome ≡ exited 0
      → (asked 1 writer.trace ≡ relayed (λ buf. buf ++ buf) (chunks read_end writer.trace))
        × (joined (chunks read_end writer.trace) ≡ joined (chunks 0 reader.trace))
pipeline-doubles pid read_end write_end back_end rs rs' link whole success success' =
    let reader = parent pid read_end write_end rs in
    let writer = child read_end write_end rs' in
    let out =
      Complete-of_success writer.outcome _ _ success' (child-Finishes read_end write_end rs') in
    let into =
      Complete-of_success reader.outcome _ _ success (parent-Finishes pid read_end write_end rs) in
    let (through, _) = Duplex-account link in
    let all : sent write_end reader.trace ≡ joined (chunks read_end writer.trace) =
      rw (append-nil (joined (chunks read_end writer.trace))) at through in
    (out, sym all ∙ sent-Whole write_end reader.trace whole ∙ into)
