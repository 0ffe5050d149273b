-- ===== src/Examples/Transfers.antt =====
-- The command F at a concrete request.
use course_code.Base.{none, ◌≡◌, List, [], ◌∷◌, replicate, arith}
use course_code.Posix.Call.{Bytes, Reply, done, fail, Errno}
use course_code.Posix.Checked.{Checks}
use course_code.Break.Session.{Session, Surroundings, Request, request, parse_request, send_file}
use course_code.Break.Session.Words.{parse_request-line}
use course_code.Break.Session.Failures.{passed_over, send_file-Checks}

abbrev world : Surroundings
world = record { behind = replicate 8 0; dangling = λ s. s; rp = 0 }

-- "F e 5" with its newline
abbrev line : Bytes
line = b'F' ∷ 32 ∷ b'e' ∷ 32 ∷ b'5' ∷ b'\n' ∷ 0 ∷ []

abbrev held : Session
held = record { buf = line; ptr = 0; byte = none }

abbrev found : Request
found = record {
  left = b'F' ∷ 0 ∷ b'e' ∷ 0 ∷ b'5' ∷ 0 ∷ 0 ∷ [];
  path = b'e' ∷ [];
  port = b'5' ∷ [];
}

line-found : parse_request line ≡ request found
line-found = parse_request-line b'e' [] b'5' [] [] (ground arith) tt (ground arith) tt

-- A failure of the output, a size of 9, and a connection that is refused.
abbrev refused : List Reply
refused =
    fail Errno.eintr
    ∷ done 6 []
    ∷ done 0 (0 ∷ 0 ∷ 0 ∷ 9 ∷ [])
    ∷ done 1 []
    ∷ done 1 []
    ∷ done 0 (0 ∷ 0 ∷ 0 ∷ 9 ∷ [])
    ∷ done 5 []
    ∷ fail (Errno.other 111)
    ∷ []

send_file-Checks_example : Checks passed_over (send_file world 3 line held refused)
send_file-Checks_example = send_file-Checks world 3 (omega arith) held found line refused line-found
