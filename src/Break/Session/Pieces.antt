-- ===== src/Break/Session/Pieces.antt =====
-- The command E, whose line comes in any number of pieces.
use course_code.Base.{some, ℕ, ◌-◌, ◌<◌, ◌≡◌, ◌≢◌, List, [], ◌∷◌, ◌++◌, length}
use course_code.Posix.Call.{Bytes, Call, Reply, done, Trace}
use course_code.Posix.Io.{asked}
use course_code.Posix.Loop.{Rounds}
use course_code.Posix.Connection.{joined}
use course_code.Break.Session.{Session, max_line, last_byte, more_round}

-- One or more pieces, none of them empty, of which the last one ends the line and no other does.
abbrev pub EndsLine : List Bytes → Type 0
EndsLine [] = ⊥
EndsLine (p ∷ []) = (0 < length p) × (last_byte p ≡ b'\n')
EndsLine (p ∷ q ∷ ps) = (0 < length p) × (last_byte p ≢ b'\n') × EndsLine (q ∷ ps)

-- The answers of `read` that give them.
abbrev pub replies : List Bytes → List Reply
replies [] = []
replies (p ∷ ps) = done (length p) p ∷ replies ps

-- The variables once `have` has come, with `stale` behind it in the buffer.
abbrev session : (have stale : Bytes) → Session
session have stale = record { buf = have ++ stale; ptr = length have; byte = some (length have) }

module _ (sockfd : ℕ) where
  abbrev asks : (have : Bytes) → (p : Bytes) → Trace
  asks have p =
      record { call = Call.read sockfd (max_line - length have); reply = done (length p) p } ∷ []

  -- What the inner loop makes of the pieces.
  record Gathered (ps : List Bytes) (have stale : Bytes) (rs : List Reply) : Type 0 where
    left_over : Bytes
    trace : Trace
    quiet : asked sockfd trace ≡ []
    rounds :
        Rounds
          (more_round sockfd)
          (length ps)
          (session have stale)
          (replies ps ++ rs)
          (session (have ++ joined ps) left_over)
          trace
          rs
