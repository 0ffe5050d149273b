-- ===== src/Exercise5/Echo/Sending.antt =====
-- What q3-client.c sends.
use course_code.Base.{ℕ, ◌≤◌, List}
use course_code.Posix.Call.{Bytes, Reply}
use course_code.Posix.Io.{asked_by}
use course_code.Posix.Relay.{Relays}
use course_code.Posix.Program.{show_answer}
use course_code.Posix.Answers.{ask, asking-Relays}
use course_code.Exercise5.Echo.{max_bytes, exchange, cli_str}

-- On every list of answers, for a socket that is none of the standard streams: the client hands each
-- piece of its input to the server, once and in order: all of it, if it returns; a front part, if
-- a `write` to the server failed or if it still waits.
pub cli_str-Relays :
    (sockfd : ℕ) (no_stream : 2 ≤ sockfd) (recvline : Bytes) (rs : List Reply)
    → Relays (asked_by sockfd) 0 (λ buf. buf) (cli_str sockfd recvline rs)
unfolding cli_str exchange ask show_answer
cli_str-Relays sockfd no_stream = asking-Relays sockfd no_stream max_bytes
