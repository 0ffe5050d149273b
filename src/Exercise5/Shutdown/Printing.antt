-- ===== src/Exercise5/Shutdown/Printing.antt =====
-- What the children of q4-server.c write.
use course_code.Base.{ℕ, List, refl}
use course_code.Posix.Call.{Reply}
use course_code.Posix.Io.{asked_by}
use course_code.Posix.Program.{write_unchecked}
use course_code.Posix.Writes.{write_unchecked-Emits}
use course_code.Posix.Echo.{again_at_eof-Serves, Serves, write_unchecked-Stays}
use course_code.Exercise5.Shutdown.{max_bytes, str_write}

-- Whatever the kernel answers, the child hands every piece that it reads to `write`, once and in
-- order: behind all of it, it exits with status 1 at a failed `read`, and it waits behind all but a
-- part of the last piece. It never returns, not even at the end of the connection, and it never runs
-- into undefined behaviour.
pub str_write-Serves :
    (sockfd : ℕ) (rs : List Reply) → Serves (asked_by 1) sockfd (λ buf. buf) (str_write sockfd rs)
unfolding str_write
str_write-Serves sockfd =
    again_at_eof-Serves (asked_by 1) sockfd max_bytes (λ buf. buf) (λ _ buf. write_unchecked 1 buf)
      (λ _ buf. write_unchecked-Emits sockfd 1 buf) (λ _ buf. write_unchecked-Stays 1 buf)
      (λ r. refl) (λ str. refl) "read error" tt
