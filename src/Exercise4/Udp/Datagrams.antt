-- ===== src/Exercise4/Udp/Datagrams.antt =====
-- The datagrams that the two programs send.
use course_code.Base.{
  ℕ, ◌≤◌, ◌≡◌, refl, inl, inr, List-cases, false, List, [], ◌∷◌, arith, take, ◌==◌, if◌then◌else◌,
  length,
}
use course_code.Posix.Call.{Bytes, Reply, done, fail, Call, SockAddr, Event, Trace}
use course_code.Posix.Run.{M, pure, ◌>>=◌, ◌>>◌}
use course_code.Posix.Io.{gather, call, ==_refl}
use course_code.Posix.Relay.{Emits, Emits-bind, Relays, loop-Relays}
use course_code.Posix.Echo.{taken_again-Serves, Serves, Stays}
use course_code.Posix.Program.{write_unchecked}
use course_code.Exercise4.Udp.{max_line, peer_addr, receive, exchange, str_echo, str_cli}

-- The datagrams that a trace sends through `fd`, each with its own bounds.
abbrev pub datagrams_by : (fd : ℕ) → Event → List Bytes
datagrams_by fd e = elim e.call [ Call.sendto d bs _ ↦ if d == fd then bs ∷ [] else [] | _ ↦ [] ]

abbrev pub datagrams : (fd : ℕ) → Trace → List Bytes
datagrams fd = gather (datagrams_by fd)

abbrev send_twice : (sockfd : ℕ) → Bytes → SockAddr → M (Unit {0})
send_twice sockfd buf addr = do
  call (Call.sendto sockfd buf addr)
  call (Call.sendto sockfd buf addr)
  pure tt

module _ (sockfd src : ℕ) where
  send-Emits :
      (buf : Bytes) (addr : SockAddr) (rs : List Reply)
      → Emits (datagrams_by sockfd) src rs (buf ∷ []) (call (Call.sendto sockfd buf addr) rs)
  send-Emits buf addr [] = record { fits = (buf ∷ [], refl); quiet = refl; shorter = omega arith }
  send-Emits buf addr (r ∷ rs) = record {
    fits = rw (==_refl sockfd) refl;
    quiet = refl;
    shorter = omega arith;
  }

  twice-Emits :
      (buf : Bytes) (addr : SockAddr) (rs : List Reply)
      → Emits (datagrams_by sockfd) src rs (buf ∷ buf ∷ []) (send_twice sockfd buf addr rs)
  twice-Emits buf addr [] = record {
    fits = (buf ∷ buf ∷ [], refl);
    quiet = refl;
    shorter = omega arith;
  }
  twice-Emits buf addr (r ∷ []) = record {
    fits = rw (==_refl sockfd) (buf ∷ [], refl);
    quiet = refl;
    shorter = omega arith;
  }
  twice-Emits buf addr (r ∷ r' ∷ rs) = record {
    fits = rw (==_refl sockfd) refl;
    quiet = refl;
    shorter = omega arith;
  }

module _ (sockfd : ℕ) where
  twice-Stays :
      (buf : Bytes) (addr : SockAddr) (rs : List Reply)
      → Stays (send_twice sockfd buf addr rs).outcome
  twice-Stays buf addr [] = tt
  twice-Stays buf addr (r ∷ []) = tt
  twice-Stays buf addr (r ∷ r' ∷ rs) = tt

  -- Whatever the kernel answers, the server sends each datagram that it takes twice, as it was
  -- taken and in order. It exits only with status 1, and then it has sent all of them twice; while it
  -- waits, it has done so with all but at most the last one, which it has sent once or not yet, or
  -- twice. It never returns and never runs into undefined behaviour.
  pub str_echo-Serves_datagrams :
      (rs : List Reply)
      → Serves (datagrams_by sockfd) sockfd (λ buf. buf ∷ buf ∷ []) (str_echo sockfd rs)
  unfolding str_echo
  str_echo-Serves_datagrams =
      taken_again-Serves (datagrams_by sockfd) sockfd max_line (λ buf. buf ∷ buf ∷ [])
        (λ _ buf. send_twice sockfd buf peer_addr)
        (λ _ buf rs. twice-Emits sockfd sockfd buf peer_addr rs)
        (λ _ buf. twice-Stays buf peer_addr) (λ str. refl) (Call.recvfrom sockfd max_line)
        (λ r. refl) (λ r. rw (==_refl sockfd) refl) "read error" tt

module _ (sockfd : ℕ) (no_stream : 2 ≤ sockfd) where
  receive-Emits :
      (n : ℕ) (recvline : Bytes) (rs : List Reply)
      → Emits (datagrams_by sockfd) 0 rs [] (receive sockfd n recvline rs)
  unfolding receive write_unchecked
  receive-Emits n recvline [] = record { fits = ([], refl); quiet = refl; shorter = omega arith }
  receive-Emits n recvline (fail e ∷ rs) =
      let other : (sockfd == 0) ≡ false = ground arith in
      record { fits = refl; quiet = rw other; shorter = omega arith }
  receive-Emits n recvline (done m l ∷ []) =
      let other : (sockfd == 0) ≡ false = ground arith in
      elim (List-cases (take max_line l)) [
        | inl e ↦ rw e (record { fits = refl; quiet = rw other; shorter = omega arith })
        | inr (b, bs, e) ↦
            rw e (record { fits = ([], refl); quiet = rw other; shorter = omega arith })
      ]
  receive-Emits n recvline (done m l ∷ r ∷ rs) =
      let other : (sockfd == 0) ≡ false = ground arith in
      elim (List-cases (take max_line l)) [
        | inl e ↦ rw e (record { fits = refl; quiet = rw other; shorter = omega arith })
        | inr (b, bs, e) ↦ rw e (record { fits = refl; quiet = rw other; shorter = omega arith })
      ]

  exchange-Emits :
      (server : SockAddr) (recvline sendline : Bytes) (rs : List Reply)
      → Emits
          (datagrams_by sockfd)
          0
          rs
          (sendline ∷ [])
          (exchange server sockfd recvline sendline rs)
  unfolding exchange
  exchange-Emits server recvline sendline rs =
      Emits-bind (datagrams_by sockfd) 0 rs (call (Call.sendto sockfd sendline server))
        (λ _. receive sockfd (length sendline) recvline >>= receive sockfd (length sendline))
        (send-Emits sockfd 0 sendline server rs)
        (λ _ rs'.
          Emits-bind (datagrams_by sockfd) 0 rs' (receive sockfd (length sendline) recvline)
            (receive sockfd (length sendline)) (receive-Emits (length sendline) recvline rs')
            (λ line. receive-Emits (length sendline) line))

  -- On every list of answers, for a socket that is none of the standard streams: the client sends each
  -- piece of its input as one datagram, in order: all of them if it returns, and the first ones if it
  -- waits.
  pub str_cli-Relays_datagrams :
      (server : SockAddr) (recvline : Bytes) (rs : List Reply)
      → Relays (datagrams_by sockfd) 0 (λ buf. buf ∷ []) (str_cli server sockfd recvline rs)
  unfolding str_cli
  str_cli-Relays_datagrams server recvline =
      loop-Relays (datagrams_by sockfd) 0 max_line (λ buf. buf ∷ []) (exchange server sockfd)
        (exchange-Emits server) (λ r. refl) recvline tt
