-- ===== src/Break/Client/Dialogue.antt =====
-- What the UNIX_TL client says before it becomes a server, and what it shows.
use course_code.Base.{
  ℕ, ◌≤◌, ◌≡◌, refl, false, inl, inr, List-cases, List, [], ◌∷◌, arith, take, ◌==◌, if◌then◌else◌,
}
use course_code.Posix.Call.{Bytes, Reply, done, fail, Call, Event}
use course_code.Posix.Libc.{codes}
use course_code.Posix.Io.{asked_by, asked, chunks, chunks_by, gather, ==_refl}
use course_code.Posix.Relay.{Fits, relayed}
use course_code.Posix.Connection.{joined}
use course_code.Posix.Program.{write_or_die, write_unchecked}
use course_code.Posix.Forward.{Passed, Forwards, ◌then◌, call-Forwards, write-Forwards}
use course_code.Posix.Sends.{Sends, ◌next◌}
use course_code.Break.Session.{Surroundings, literal, max_line}
use course_code.Break.Client.{show, say, greet}

-- The client listens, or speaks.
pub data Turn : Type 0 where
  listens : Turn
  says : Bytes → Turn

abbrev pub turns : (sockfd : ℕ) → Event → List Turn
turns sockfd e = elim e.call [
  | Call.read d _ ↦ if d == sockfd then listens ∷ [] else []
  | Call.write d bs ↦ if d == sockfd then says bs ∷ [] else []
  | _ ↦ []
]

-- The last line is sent with seven bytes from behind it.
abbrev pub script : Surroundings → List Turn
script w =
    listens
    ∷ says (codes "hello\n")
    ∷ listens
    ∷ says (codes "yfliu\n")
    ∷ listens
    ∷ says (literal w (codes "ok\n") 10)
    ∷ listens
    ∷ listens
    ∷ []

module _ (w : Surroundings) (sockfd : ℕ) (no_stream : 2 ≤ sockfd) where
  show_turn :
      (recvline : Bytes) (rs : List Reply)
      → let r = show sockfd recvline rs in
        Fits r.outcome (gather (turns sockfd) r.trace) (listens ∷ [])
  unfolding show write_unchecked
  show_turn recvline [] = (listens ∷ [], refl)
  show_turn recvline (fail e ∷ rs) = rw (==_refl sockfd) refl
  show_turn recvline (done n l ∷ []) = elim (List-cases (take max_line l)) [
    | inl e ↦ rw (e, ==_refl sockfd) refl
    | inr (b, bs, e) ↦ rw (e, ==_refl sockfd) ([], refl)
  ]
  show_turn recvline (done n l ∷ r ∷ rs) =
      let other : (1 == sockfd) ≡ false = ground arith in
      elim (List-cases (take max_line l)) [
        | inl e ↦ rw (e, ==_refl sockfd) refl
        | inr (b, bs, e) ↦ rw (e, ==_refl sockfd, other) refl
      ]

  show_case :
      (recvline : Bytes) (rs : List Reply)
      → Passed (chunks_by sockfd) (asked_by 1) (show sockfd recvline rs)
  unfolding show write_unchecked relayed
  show_case recvline [] = record { fits = ([], refl) }
  show_case recvline (fail e ∷ rs) = record { fits = rw (==_refl sockfd) refl }
  show_case recvline (done n l ∷ []) = elim (List-cases (take max_line l)) [
    | inl e ↦ record { fits = rw (e, ==_refl sockfd) refl }
    | inr (b, bs, e) ↦ record { fits = rw (e, ==_refl sockfd) (_, refl) }
  ]
  show_case recvline (done n l ∷ r ∷ rs) = elim (List-cases (take max_line l)) [
    | inl e ↦ record { fits = rw (e, ==_refl sockfd) refl }
    | inr (b, bs, e) ↦ record { fits = rw (e, ==_refl sockfd) refl }
  ]

  say_turn :
      (pause : ℕ) (line : Bytes) (size : ℕ) (rs : List Reply)
      → let r = say w sockfd pause line size rs in
        Fits r.outcome (gather (turns sockfd) r.trace) (says (literal w line size) ∷ [])
  unfolding say write_or_die
  say_turn pause line size [] = (_, refl)
  say_turn pause line size (r ∷ []) = (_, refl)
  say_turn pause line size (r ∷ done n l ∷ rs) = rw (==_refl sockfd) refl
  say_turn pause line size (r ∷ fail e ∷ rs) = rw (==_refl sockfd) (refl, ([], refl))

  show-Sends : (recvline : Bytes) → Sends (turns sockfd) (listens ∷ []) (show sockfd recvline)
  show-Sends recvline = record { fits = show_turn recvline }

  say-Sends :
      (pause : ℕ) (line : Bytes) (size : ℕ)
      → Sends (turns sockfd) (says (literal w line size) ∷ []) (say w sockfd pause line size)
  say-Sends pause line size = record { fits = say_turn pause line size }

  show-Forwards :
      (recvline : Bytes) → Forwards (chunks_by sockfd) (asked_by 1) (show sockfd recvline)
  show-Forwards recvline = record { passed = show_case recvline }

  say-Forwards :
      (pause : ℕ) (line : Bytes) (size : ℕ)
      → Forwards (chunks_by sockfd) (asked_by 1) (say w sockfd pause line size)
  unfolding say
  say-Forwards pause line size =
      let other : (sockfd == 1) ≡ false = ground arith in
      call-Forwards (Call.usleep pause) (record { deaf = λ r. refl; mute = λ r. refl }) then (λ _.
        write-Forwards "write error to server" sockfd (literal w line size)
          (record { deaf = λ r. refl; mute = λ r. rw other refl })
          (record { deaf = λ r. refl; mute = λ r. refl }))

  greet-Sends : (recvline : Bytes) → Sends (turns sockfd) (script w) (greet w sockfd recvline)
  unfolding greet
  greet-Sends recvline = show-Sends recvline next (λ r1.
      say-Sends 10000 (codes "hello\n") 6 next (λ _. show-Sends r1.recvline next (λ r2.
        say-Sends 30000 (codes "yfliu\n") 6 next (λ _. show-Sends r2.recvline next (λ r3.
          say-Sends 800000 (codes "ok\n") 10
          next (λ _. show-Sends r3.recvline next (λ r4. show-Sends r4.recvline)))))))

  greet-Forwards :
      (recvline : Bytes) → Forwards (chunks_by sockfd) (asked_by 1) (greet w sockfd recvline)
  unfolding greet
  greet-Forwards recvline = show-Forwards recvline then (λ r1.
      say-Forwards 10000 (codes "hello\n") 6 then (λ _. show-Forwards r1.recvline then (λ r2.
        say-Forwards 30000 (codes "yfliu\n") 6 then (λ _. show-Forwards r2.recvline then (λ r3.
          say-Forwards 800000 (codes "ok\n") 10
          then (λ _. show-Forwards r3.recvline then (λ r4. show-Forwards r4.recvline)))))))

  -- On every list of answers, for a socket that is none of the standard streams: up to the line that
  -- names the port, the client reads and speaks in turn, once before each of its three lines and twice
  -- behind the last, which is sent with seven bytes from behind it, and it shows each piece that the
  -- server sent, in order. It goes on only behind all of this, and has otherwise exited with status 1,
  -- or still waits, behind a front part of it.
  pub greet-Speaks :
      (recvline : Bytes) (rs : List Reply)
      → let r = greet w sockfd recvline rs in
        Fits r.outcome (gather (turns sockfd) r.trace) (script w)
        × Fits r.outcome (asked 1 r.trace) (joined (chunks sockfd r.trace))
  greet-Speaks recvline rs =
      ((greet-Sends recvline).fits rs, ((greet-Forwards recvline).passed rs).fits)
