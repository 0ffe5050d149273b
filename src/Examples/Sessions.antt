-- ===== src/Examples/Sessions.antt =====
-- Sessions: a transfer, and the commands of a server.
use course_code.Base.{
  some, ℕ, ◌≡◌, refl, ◌≢◌, List, [], ◌∷◌, All, length, length-replicate, replicate, arith, false,
  ◌==◌,
}
use course_code.Posix.Call.{Bytes, Reply, done}
use course_code.Posix.Io.{asked, chunks, gather}
use course_code.Posix.Libc.{codes}
use course_code.Posix.Loop.{forever}
use course_code.Posix.Program.{write_unchecked, write_or_die}
use course_code.Posix.Relay.{Fits, relayed}
use course_code.Exercise4.Sender.{transfer}
use course_code.Exercise4.Sender.Volume.{Holds, transfer-Holds}
use course_code.Break.Session.{Session, Surroundings, response, response_round, command, send_path}
use course_code.Posix.Connection.{joined}
use course_code.Break.Client.{greet}
use course_code.Break.Client.Dialogue.{turns, script, greet-Speaks}
use course_code.Break.Session.Answers.{Plain, answer, response-Answers}

abbrev zero_array : ℕ → Bytes
zero_array n = replicate n 0

zero_array-length : (n : ℕ) → length (zero_array n) ≡ n
zero_array-length n = length-replicate {A = ℕ} n 0

-- Ten bytes in pieces of four are three writes.
abbrev three_writes : List Reply
three_writes =
    done 0 (1 ∷ 0 ∷ [])
    ∷ done 0 []
    ∷ done 0 (1 ∷ 5 ∷ [])
    ∷ done 0 (2 ∷ 0 ∷ [])
    ∷ done 4 []
    ∷ done 4 []
    ∷ done 4 []
    ∷ done 0 (3 ∷ 0 ∷ [])
    ∷ done 0 []
    ∷ []

transfer-Holds_example :
    let r = transfer zero_array (codes "127.0.0.1") 10 4 (done 3 [] ∷ three_writes) in
    Holds 10 4 r.outcome (length (asked 3 r.trace))
transfer-Holds_example =
    transfer-Holds zero_array (codes "127.0.0.1") 10 4 3 [] three_writes zero_array-length
      (omega arith) (omega arith) (omega arith)

abbrev world : Surroundings
world = record { behind = replicate 8 0; dangling = λ s. s; rp = 0 }

abbrev opening : Session
opening = record { buf = replicate 8 0; ptr = 0; byte = some 0 }

-- A comment, the command C and the command Q.
abbrev commands : List Reply
commands =
    done 2 (codes "#\n")
    ∷ done 2 []
    ∷ done 2 (codes "C\n")
    ∷ done 12 []
    ∷ done 43 []
    ∷ done 2 (codes "Q\n")
    ∷ done 12 []
    ∷ done 2 []
    ∷ done 0 []
    ∷ []

distinct : (a b : ℕ) → (a == b) ≡ false → a ≢ b
distinct a b h = λ e. absurd (ground arith)

commands-Plain : All Plain (chunks 3 (response world opening 3 commands).trace)
unfolding response response_round command send_path forever write_unchecked write_or_die
commands-Plain = (
  (distinct 35 69 refl, distinct 35 70 refl),
  ((distinct 67 69 refl, distinct 67 70 refl), ((distinct 81 69 refl, distinct 81 70 refl), tt)),
)

response-Answers_example :
    let r = response world opening 3 commands in
    Fits r.outcome (asked 3 r.trace) (relayed answer (chunks 3 r.trace))
response-Answers_example =
    response-Answers world 3 (distinct 3 1 refl) opening commands commands-Plain

-- "E a", "b" and "c" with a newline, in a buffer of eight bytes.
abbrev two_more : List Bytes
two_more = codes "b" ∷ (b'c' ∷ b'\n' ∷ []) ∷ []

-- The command E in two pieces, and the end of the connection.
abbrev in_pieces : List Reply
in_pieces =
    done 2 (codes "Ea") ∷ done 12 [] ∷ done 2 (b'b' ∷ b'\n' ∷ []) ∷ done 4 [] ∷ done 0 [] ∷ []

-- The server asks, hears the first line, and breaks off.
abbrev breaking_off : List Reply
breaking_off = done 2 (63 ∷ 10 ∷ []) ∷ done 2 [] ∷ done 0 [] ∷ done 6 [] ∷ done 0 [] ∷ []

greet-Speaks_example :
    let r = greet world 3 [] breaking_off in
    Fits r.outcome (gather (turns 3) r.trace) (script world)
    × Fits r.outcome (asked 1 r.trace) (joined (chunks 3 r.trace))
greet-Speaks_example = greet-Speaks world 3 (omega arith) [] breaking_off
