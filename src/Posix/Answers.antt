-- ===== src/Posix/Answers.antt =====
-- What goes out while a client shows the answer of its server: nothing to the server.
use course_code.Base.{
  ℕ, ◌≤◌, ◌≡◌, refl, inl, inr, List-cases, false, List, [], ◌∷◌, arith, take, ◌==◌, length,
  append-nil,
}
use course_code.Posix.Call.{Bytes, Reply, done, fail}
use course_code.Posix.Run.{M, pure, ◌>>=◌}
use course_code.Posix.Io.{asked_by, read}
use course_code.Posix.Loop.{while_read}
use course_code.Posix.Relay.{Emits, Emits-bind, Relays, loop-Relays}
use course_code.Posix.Program.{write_or_die, show_answer}
use course_code.Posix.Writes.{write_or_die-Emits}

-- The question is sent, and the answer shown with the length of the question.
unfoldable pub ask : (count sockfd : ℕ) → (recvline sendline : Bytes) → M Bytes
ask count sockfd recvline sendline = write_or_die "write error to server" sockfd sendline >>= λ _.
    show_answer count sockfd (length sendline) recvline

module _ (sockfd : ℕ) (no_stream : 2 ≤ sockfd) (count : ℕ) where
  -- The answer of the server is read and shown, and nothing is sent.
  pub show_answer-Emits :
      (n : ℕ) (recvline : Bytes) (rs : List Reply)
      → Emits (asked_by sockfd) 0 rs [] (show_answer count sockfd n recvline rs)
  unfolding show_answer
  show_answer-Emits n recvline [] = record {
    fits = ([], refl);
    quiet = refl;
    shorter = omega arith;
  }
  show_answer-Emits n recvline (fail e ∷ rs) =
      let other : (sockfd == 0) ≡ false = ground arith in
      record { fits = refl; quiet = rw other; shorter = omega arith }
  show_answer-Emits n recvline (done m l ∷ []) =
      let other : (sockfd == 0) ≡ false = ground arith in
      elim (List-cases (take count l)) [
        | inl e ↦ rw e (record { fits = refl; quiet = rw other; shorter = omega arith })
        | inr (b, bs, e) ↦
            rw e (record { fits = ([], refl); quiet = rw other; shorter = omega arith })
      ]
  show_answer-Emits n recvline (done m l ∷ r ∷ rs) =
      let other : (sockfd == 0) ≡ false = ground arith in
      let shown : (1 == sockfd) ≡ false = ground arith in
      elim (List-cases (take count l)) [
        | inl e ↦ rw e (record { fits = refl; quiet = rw other; shorter = omega arith })
        | inr (b, bs, e) ↦
            rw e (record { fits = rw shown; quiet = rw other; shorter = omega arith })
      ]

  ask-Emits :
      (recvline sendline : Bytes) (rs : List Reply)
      → Emits (asked_by sockfd) 0 rs sendline (ask count sockfd recvline sendline rs)
  unfolding ask
  ask-Emits recvline sendline rs =
      let both =
        Emits-bind (asked_by sockfd) 0 rs (write_or_die "write error to server" sockfd sendline)
          (λ _. show_answer count sockfd (length sendline) recvline)
          (write_or_die-Emits 0 sockfd sendline "write error to server" rs)
          (λ _ rs'. show_answer-Emits (length sendline) recvline rs') in
      rw (append-nil sendline) at both

  -- A client hands each piece of its input to the server, once and in order: all of it, if it
  -- returns; a front part, if a `write` to the server failed or if it still waits.
  pub asking-Relays :
      (recvline : Bytes) (rs : List Reply)
      → Relays
          (asked_by sockfd)
          0
          (λ buf. buf)
          ((while_read (read 0 count) (ask count sockfd) recvline >>= λ _. pure tt) rs)
  asking-Relays recvline =
      loop-Relays (asked_by sockfd) 0 count (λ buf. buf) (ask count sockfd) ask-Emits (λ r. refl)
        recvline tt
