-- ===== src/Exercise3/Server/Doubling.antt =====
-- What the children of server.c send.
use course_code.Base.{ℕ, List, ◌++◌, refl}
use course_code.Posix.Call.{Bytes, Reply}
use course_code.Posix.Run.{◌>>◌}
use course_code.Posix.Io.{asked_by}
use course_code.Posix.Relay.{Emits, Emits-bind}
use course_code.Posix.Program.{write_unchecked}
use course_code.Posix.Writes.{write_unchecked-Emits}
use course_code.Posix.Echo.{again_at_eof-Serves, Serves, Stays, Stays-bind, write_unchecked-Stays}
use course_code.Exercise3.Server.{max_line, str_echo}

twice-Emits :
    (sockfd : ℕ) (buf : Bytes) (rs : List Reply)
    → Emits
        (asked_by sockfd)
        sockfd
        rs
        (buf ++ buf)
        ((write_unchecked sockfd buf >> write_unchecked sockfd buf) rs)
twice-Emits sockfd buf rs =
    Emits-bind (asked_by sockfd) sockfd rs (write_unchecked sockfd buf)
      (λ _. write_unchecked sockfd buf) (write_unchecked-Emits sockfd sockfd buf rs)
      (λ _. write_unchecked-Emits sockfd sockfd buf)

twice-Stays :
    (sockfd : ℕ) (buf : Bytes) (rs : List Reply)
    → Stays ((write_unchecked sockfd buf >> write_unchecked sockfd buf) rs).outcome
twice-Stays sockfd buf rs =
    Stays-bind (write_unchecked sockfd buf) (λ _. write_unchecked sockfd buf) rs
      (write_unchecked-Stays sockfd buf rs) (λ _. write_unchecked-Stays sockfd buf)

-- Whatever the kernel answers, the child hands every piece that it reads to `write` twice, in order. It
-- exits only with status 1, and then all of the pieces were handed on; while it waits, all of them but
-- at most the last one were, and a front part of what is due for that one. It never returns, not even
-- at the end of the connection, and it never runs into undefined behaviour.
pub str_echo-Serves :
    (sockfd : ℕ) (rs : List Reply)
    → Serves (asked_by sockfd) sockfd (λ buf. buf ++ buf) (str_echo sockfd rs)
unfolding str_echo
str_echo-Serves sockfd =
    again_at_eof-Serves (asked_by sockfd) sockfd max_line (λ buf. buf ++ buf)
      (λ _ buf. write_unchecked sockfd buf >> write_unchecked sockfd buf) (λ _. twice-Emits sockfd)
      (λ _. twice-Stays sockfd) (λ r. refl) (λ str. refl) "read error" tt
