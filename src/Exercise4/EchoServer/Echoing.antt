-- ===== src/Exercise4/EchoServer/Echoing.antt =====
-- What the children of echoserver.c write.
use course_code.Base.{ℕ, List, refl}
use course_code.Posix.Call.{Reply}
use course_code.Posix.Io.{asked_by}
use course_code.Posix.Program.{write_unchecked}
use course_code.Posix.Writes.{write_unchecked-Emits}
use course_code.Posix.Echo.{again_at_eof-Serves, Serves, write_unchecked-Stays}
use course_code.Exercise4.EchoServer.{max_line, str_echo}

-- Whatever the kernel answers, the child hands every piece that it reads to `write`, once and in
-- order: behind all of it, it exits with status 1 at a failed `read`, and it waits behind all but a
-- part of the last piece. It never returns, not even at the end of the connection, and it never runs
-- into undefined behaviour.
pub str_echo-Serves_once :
    (sockfd : ℕ) (rs : List Reply)
    → Serves (asked_by sockfd) sockfd (λ buf. buf) (str_echo sockfd rs)
unfolding str_echo
str_echo-Serves_once sockfd =
    again_at_eof-Serves (asked_by sockfd) sockfd max_line (λ buf. buf)
      (λ _ buf. write_unchecked sockfd buf) (λ _ buf. write_unchecked-Emits sockfd sockfd buf)
      (λ _ buf. write_unchecked-Stays sockfd buf) (λ r. refl) (λ str. refl) "read error" tt
