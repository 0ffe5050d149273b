-- ===== src/Exercise4/EchoClient/Sending.antt =====
-- What the client of the echo server sends.
use course_code.Base.{ℕ, ◌≤◌, List}
use course_code.Posix.Call.{Bytes, Reply}
use course_code.Posix.Io.{asked_by}
use course_code.Posix.Relay.{Relays}
use course_code.Posix.Answers.{ask, asking-Relays}
use course_code.Exercise4.EchoClient.{max_line, exchange, str_cli}

-- On every list of answers, for a socket that is none of the standard streams: the client hands each
-- piece of its input to the server, once and in order: all of it, if it returns; a front part, if
-- a `write` to the server failed or if it still waits.
pub str_cli-Relays_once :
    (sockfd : ℕ) (no_stream : 2 ≤ sockfd) (recvline : Bytes) (rs : List Reply)
    → Relays (asked_by sockfd) 0 (λ buf. buf) (str_cli sockfd recvline rs)
unfolding str_cli exchange ask
str_cli-Relays_once sockfd no_stream = asking-Relays sockfd no_stream max_line
