-- ===== src/Exercise3/Client/Sending.antt =====
-- What the client of the doubling server sends.
use course_code.Base.{ℕ, ◌≤◌, refl, List, append-nil, length}
use course_code.Posix.Call.{Bytes, Reply}
use course_code.Posix.Run.{◌>>=◌}
use course_code.Posix.Io.{asked_by}
use course_code.Posix.Relay.{Emits, Emits-bind, Relays, loop-Relays}
use course_code.Posix.Program.{write_or_die}
use course_code.Posix.Writes.{write_or_die-Emits}
use course_code.Posix.Answers.{show_answer-Emits}
use course_code.Exercise3.Client.{max_line, receive, exchange, str_cli}

module _ (sockfd : ℕ) (no_stream : 2 ≤ sockfd) where
  exchange-Emits :
      (recvline sendline : Bytes) (rs : List Reply)
      → Emits (asked_by sockfd) 0 rs sendline (exchange sockfd recvline sendline rs)
  unfolding exchange receive
  exchange-Emits recvline sendline rs =
      let both =
        Emits-bind (asked_by sockfd) 0 rs (write_or_die "write error to server" sockfd sendline)
          (λ _. receive sockfd (length sendline) recvline >>= receive sockfd (length sendline))
          (write_or_die-Emits 0 sockfd sendline "write error to server" rs)
          (λ _ rs'.
            Emits-bind (asked_by sockfd) 0 rs' (receive sockfd (length sendline) recvline)
              (receive sockfd (length sendline))
              (show_answer-Emits sockfd no_stream max_line (length sendline) recvline rs')
              (λ line. show_answer-Emits sockfd no_stream max_line (length sendline) line)) in
      rw (append-nil sendline) at both

  -- On every list of answers, for a socket that is none of the standard streams: the client hands each
  -- piece of its input to the server, once and in order: all of it, if it returns; a front part, if
  -- a `write` to the server failed or if it still waits.
  pub str_cli-Relays :
      (recvline : Bytes) (rs : List Reply)
      → Relays (asked_by sockfd) 0 (λ buf. buf) (str_cli sockfd recvline rs)
  unfolding str_cli
  str_cli-Relays recvline =
      loop-Relays (asked_by sockfd) 0 max_line (λ buf. buf) (exchange sockfd) exchange-Emits
        (λ r. refl) recvline tt
