-- ===== src/Break/Session/Answers.antt =====
-- What `response` sends to the server while the commands are neither E nor F.
use course_code.Base.{
  ℕ, suc, ◌<◌, ◌≡◌, refl, ◌≢◌, inl, inr, Bool-cases, List-cases, false, List, [], ◌∷◌, ◌++◌, All,
  get_or, take, length, append-nil, arith, ◌==◌, if◌then◌else◌,
}
use course_code.Posix.Call.{Bytes, Reply, done, fail, Trace, Call}
use course_code.Posix.Run.{
  Result, Outcome, ok, exited, blocked, fault, spins, M, pure, ◌>>=◌, ◌>>◌, continue,
}
use course_code.Posix.Libc.{codes, overwrite}
use course_code.Posix.Io.{call, asked_by, asked, chunks, chunks_by, gather-append, ==_refl}
use course_code.Posix.Loop.{Next, again, leave, resume, forever_rule}
use course_code.Posix.Relay.{Fits, Fits-append, relayed, Emits, Emits-bind}
use course_code.Posix.Program.{write_unchecked, write_or_die}
use course_code.Posix.Writes.{write_or_die-Emits}
use course_code.Break.Session.{
  Session, Surroundings, max_line, file_path, literal, send_path, command, response_round, response,
}

-- The first byte of a command that is answered from a constant, or not at all.
abbrev pub Plain : Bytes → Type 0
Plain piece = (get_or piece 0 0 ≢ b'E') × (get_or piece 0 0 ≢ b'F')

abbrev pub answer : Bytes → Bytes
answer piece = if get_or piece 0 0 == b'C' then file_path else []

module _ (w : Surroundings) (sockfd : ℕ) (no_stdout : sockfd ≢ 1) where
  abbrev Says : {A : Type 0} → List Reply → Bytes → Result A → Type 0
  Says rs wanted r = Emits (asked_by sockfd) sockfd rs wanted r

  show-Says : (buf : Bytes) (rs : List Reply) → Says rs [] (write_unchecked 1 buf rs)
  unfolding write_unchecked
  show-Says buf [] = record { fits = ([], refl); quiet = refl; shorter = omega arith }
  show-Says buf (done n l ∷ rs) =
      let other : (1 == sockfd) ≡ false = ground arith in
      record { fits = rw other refl; quiet = refl; shorter = omega arith }
  show-Says buf (fail e ∷ rs) =
      let other : (1 == sockfd) ≡ false = ground arith in
      record { fits = rw other refl; quiet = refl; shorter = omega arith }

  pure-Says : {A : Type 0} (a : A) (rs : List Reply) → Says rs [] (pure a rs)
  pure-Says a rs = record { fits = refl; quiet = refl; shorter = omega arith }

  -- A line on the standard output, and the next thing.
  show-then :
      {A : Type 0} (buf : Bytes) (m : M A) (wanted : Bytes) (rs : List Reply)
      → ((rs' : List Reply) → Says rs' wanted (m rs'))
      → Says rs wanted ((write_unchecked 1 buf >> m) rs)
  show-then buf m wanted rs says =
      Emits-bind (asked_by sockfd) sockfd rs (write_unchecked 1 buf) (λ _. m) (show-Says buf rs)
        (λ _. says)

  close-Says : (rs : List Reply) → Says rs [] (call (Call.close sockfd) rs)
  close-Says [] = record { fits = ([], refl); quiet = refl; shorter = omega arith }
  close-Says (r ∷ rs) = record { fits = refl; quiet = refl; shorter = omega arith }

  path-Says : (rs : List Reply) → Says rs file_path (send_path w sockfd rs)
  unfolding send_path
  path-Says rs =
      show-then (literal w (codes "C received\n") 12)
        (write_or_die "write error to server" sockfd file_path) file_path rs
        (write_or_die-Emits sockfd sockfd file_path "write error to server")

  command-Says :
      (piece : Bytes) (s : Session) (rs : List Reply)
      → Plain piece
      → Says rs (answer piece) (command w sockfd piece s rs)
  unfolding command
  command-Says piece s rs (no_e, no_f) =
      let not_e : (get_or piece 0 0 == b'E') ≡ false = ground arith in
      let not_f : (get_or piece 0 0 == b'F') ≡ false = ground arith in
      elim (Bool-cases (get_or piece 0 0 == b'C')) [
        | inl c ↦
            let not_comment : (get_or piece 0 0 == b'#') ≡ false = ground arith in
            let em =
              Emits-bind (asked_by sockfd) sockfd rs (send_path w sockfd) (λ _. pure (again s))
                (path-Says rs) (λ _. pure-Says {A = Next Session (Unit {0})} (again s)) in
            rw (command, not_comment, not_e, c) em
        | inr not_c ↦ elim (Bool-cases (get_or piece 0 0 == b'#')) [
          | inl e ↦ rw (command, e, not_c) (show-then piece (pure (again s)) [] rs (pure-Says _))
          | inr not_comment ↦ elim (Bool-cases (get_or piece 0 0 == b'A')) [
            | inl e ↦
                rw (command, not_comment, not_e, not_c, not_f, e)
                  (show-then _ _ [] rs
                    (λ rs'. show-then piece (pure (again s)) [] rs' (pure-Says _)))
            | inr not_a ↦ elim (Bool-cases (get_or piece 0 0 == b'Q')) [
              | inl e ↦
                  rw (command, not_comment, not_e, not_c, not_f, not_a, e)
                    (show-then _ _ [] rs (λ rs'.
                      show-then piece (call (Call.close sockfd) >> pure (leave tt)) [] rs' (λ rs''.
                        Emits-bind (asked_by sockfd) sockfd rs'' (call (Call.close sockfd))
                          (λ _. pure (leave tt)) (close-Says rs'') (λ _. pure-Says _))))
              | inr not_q ↦
                  rw (command, not_comment, not_e, not_c, not_f, not_a, not_q)
                    (show-then _ _ [] rs
                      (λ rs'. show-then piece (pure (again s)) [] rs' (pure-Says _)))
            ]
          ]
        ]
      ]

  -- What a run sends is the answers to what it was asked, if it was asked nothing else.
  abbrev pub Answers : {A : Type 0} → Result A → Type 0
  Answers r =
      All Plain (chunks sockfd r.trace)
      → Fits r.outcome (asked sockfd r.trace) (relayed answer (chunks sockfd r.trace))

  after_command :
      (n : ℕ) (l : List ℕ) (b : ℕ) (bs : Bytes)
      → take max_line l ≡ b ∷ bs
      → (rs : List Reply) (k : Session → M (Unit {0}))
      → ((s' : Session) (rs' : List Reply) → length rs' < suc (length rs) → Answers (k s' rs'))
      → (o : Outcome (Next Session (Unit {0}))) (t : Trace) (rest : List Reply)
      → (Plain (b ∷ bs)
          → Says rs (answer (b ∷ bs)) (record { outcome = o; trace = t; rest = rest }))
      → Answers (
          continue o
            (record { call = Call.read sockfd max_line; reply = done n l } ∷ t)
            rest
            (resume k))
  unfolding relayed
  after_command n l b bs e rs k ih (ok (again s')) t rest says h =
      let (p, all) : Plain (b ∷ bs) × All Plain (chunks sockfd (t ++ (k s' rest).trace)) =
        rw (==_refl sockfd, e) at h in
      let em = says p in
      let later : All Plain (chunks sockfd (k s' rest).trace) =
        rw (gather-append (chunks_by sockfd) t (k s' rest).trace, em.quiet) at all in
      rw
        (
          ==_refl sockfd,
          e,
          gather-append (asked_by sockfd) t (k s' rest).trace,
          gather-append (chunks_by sockfd) t (k s' rest).trace,
          em.quiet,
        )
        (Fits-append (k s' rest).outcome _ _ em.fits (ih s' rest (omega (arith, em.shorter)) later))
  after_command n l b bs e rs k ih (ok (leave a)) t rest says h =
      let (p, all) : Plain (b ∷ bs) × All Plain (chunks sockfd (t ++ [])) =
        rw (==_refl sockfd, e) at h in
      let em = says p in
      rw (==_refl sockfd, e, append-nil t, em.quiet, append-nil (answer (b ∷ bs))) em.fits
  after_command n l b bs e rs k ih (exited m) t rest says h =
      let (p, all) : Plain (b ∷ bs) × All Plain (chunks sockfd t) = rw (==_refl sockfd, e) at h in
      let em = says p in rw (==_refl sockfd, e, em.quiet, append-nil (answer (b ∷ bs))) em.fits
  after_command n l b bs e rs k ih blocked t rest says h =
      let (p, all) : Plain (b ∷ bs) × All Plain (chunks sockfd t) = rw (==_refl sockfd, e) at h in
      let em = says p in rw (==_refl sockfd, e, em.quiet, append-nil (answer (b ∷ bs))) em.fits
  after_command n l b bs e rs k ih fault t rest says h =
      let (p, all) : Plain (b ∷ bs) × All Plain (chunks sockfd t) = rw (==_refl sockfd, e) at h in
      absurd (says p).fits
  after_command n l b bs e rs k ih spins t rest says h =
      let (p, all) : Plain (b ∷ bs) × All Plain (chunks sockfd t) = rw (==_refl sockfd, e) at h in
      absurd (says p).fits

  round :
      (s : Session) (rs : List Reply) (k : Session → M (Unit {0}))
      → ((s' : Session) (rs' : List Reply) → length rs' < length rs → Answers (k s' rs'))
      → Answers ((response_round w sockfd s >>= resume k) rs)
  unfolding response_round relayed
  round s [] k ih = λ h. ([], refl)
  round s (fail e ∷ rs) k ih = λ h. (refl, ([], rw (==_refl sockfd) refl))
  round s (done n l ∷ rs) k ih = elim (List-cases (take max_line l)) [
    | inl e ↦ rw (e, ==_refl sockfd, e) (λ h. refl)
    | inr (b, bs, e) ↦ rw e (
        after_command n l b bs e rs k ih _ _ _
          (command-Says (b ∷ bs) (record s { buf = overwrite s.buf (b ∷ bs) }) rs))
  ]

  -- On every list of answers, for a socket that is not the standard output, and as long as no piece
  -- that comes from the server begins with E or F: what the client hands to `write` for the server is
  -- the answers to the pieces, in order, the path of its source to a C and nothing to any other: all of
  -- them if it returns, a front part if it exits with status 1 or waits.
  pub response-Answers :
      (start : Session) (rs : List Reply)
      → All Plain (chunks sockfd (response w start sockfd rs).trace)
      → Fits
          (response w start sockfd rs).outcome
          (asked sockfd (response w start sockfd rs).trace)
          (relayed answer (chunks sockfd (response w start sockfd rs).trace))
  unfolding response
  response-Answers = forever_rule (response_round w sockfd) (λ _ _ r. Answers r) round
