-- ===== src/Break/Session/Failures.antt =====
-- Which failures end the command F.
use course_code.Base.{ℕ, ◌≤◌, ◌≡◌, refl, Bool, true, false, List, [], ◌∷◌, arith, ◌==◌, get_or}
use course_code.Posix.Call.{Bytes, Reply, done, fail, Call, Event, Kind, Host, Arg}
use course_code.Posix.Run.{M, sys, pure, ◌>>=◌, ◌>>◌}
use course_code.Posix.Libc.{htons_int, codes, atoi, decimal}
use course_code.Posix.Program.{handle_err, write_unchecked, write_or_die}
use course_code.Posix.Checked.{
  Checks, Checks-behind, Careful, ◌then◌, pure-Careful, emit-Careful, need-Careful, sys-Careful,
  call-Careful, write_or_die-Careful,
}
use course_code.Break.Session.{
  Surroundings, Session, literal, Request, request, parse_request, get_file_size, file_transfer,
  send_file,
}

-- The failures that the client passes over: those of `close`, and of `write` to its own output.
abbrev pub passed_over : Event → Bool
passed_over e = elim e.call [ Call.close _ ↦ true | Call.write d _ ↦ d == 1 | _ ↦ false ]

stat_case :
    {A : Type 0} (path : Bytes) (f : List ℕ → A) (rs : List Reply)
    → Checks passed_over (
        (sys (Call.stat path) >>= λ r. elim r as (λ _. M A) [
          | fail _ ↦ handle_err "stat error"
          | done _ sb ↦ pure (f sb)
        ])
          rs)
stat_case path f [] = tt
stat_case path f (done n l ∷ rs) = refl
stat_case path f (fail e ∷ rs) = (refl, refl, refl)

stat-Careful :
    {A : Type 0} (path : Bytes) (f : List ℕ → A)
    → Careful passed_over (
        sys (Call.stat path) >>= λ r. elim r as (λ _. M A) [
          | fail _ ↦ handle_err "stat error"
          | done _ sb ↦ pure (f sb)
        ])
stat-Careful path f = record { checks = stat_case path f }

stat_then_case :
    {A B : Type 0} (path : Bytes) (f : List ℕ → A) (g : A → M B) (rs : List Reply)
    → ((a : A) → Careful passed_over (g a))
    → Checks passed_over (
        (sys (Call.stat path) >>= λ r.
        elim r as (λ _. M A) [ fail _ ↦ handle_err "stat error" | done _ sb ↦ pure (f sb) ] >>= g)
          rs)
stat_then_case path f g [] next = tt
stat_then_case path f g (done n l ∷ rs) next =
    Checks-behind passed_over (record { call = Call.stat path; reply = done n l } ∷ []) (g (f l) rs)
      refl ((next (f l)).checks rs)
stat_then_case path f g (fail e ∷ rs) next = (refl, refl, refl)

stat_then-Careful :
    {A B : Type 0} (path : Bytes) (f : List ℕ → A) {g : A → M B}
    → ((a : A) → Careful passed_over (g a))
    → Careful passed_over (
        sys (Call.stat path) >>= λ r.
        elim r as (λ _. M A) [ fail _ ↦ handle_err "stat error" | done _ sb ↦ pure (f sb) ] >>= g)
stat_then-Careful path f {g = g} next = record { checks = λ rs. stat_then_case path f g rs next }

shown-Careful : (bs : Bytes) → Careful passed_over (write_unchecked 1 bs)
unfolding write_unchecked
shown-Careful bs =
    (sys-Careful (Call.write 1 bs) (λ e. refl) then (λ r. pure-Careful _))
    then (λ _. pure-Careful tt)

file_transfer-Careful :
    (w : Surroundings) (path port : Bytes) → Careful passed_over (file_transfer w path port)
unfolding file_transfer
file_transfer-Careful w path port =
    stat_then-Careful path (λ sb. get_or sb 3 0)
      (λ size. need-Careful (Call.socket Kind.stream) "socket error" (λ e. refl) then (λ sockfd.
        emit-Careful (
          Call.printf "connecting to %s: %s\n"
            (Arg.address (Host.listed w.rp) ∷ Arg.text port ∷ []))
        then (λ _.
            need-Careful
              (Call.connect sockfd
                (record { host = Host.listed w.rp; port = htons_int (atoi port) }))
              "connecting error" (λ e. refl)
            then (λ _.
                need-Careful (Call.open_file path "O_RDONLY") "open file error" (λ e. refl)
                then (λ fd.
                    need-Careful (Call.sendfile sockfd fd size) "sendfile error" (λ e. refl)
                    then (λ _. emit-Careful (Call.printf "file transfered\n" []) then (λ _.
                        call-Careful (Call.close sockfd) (λ e. refl)
                        then (λ _. pure-Careful tt))))))))

module _ (w : Surroundings) (sockfd : ℕ) (no_stream : 2 ≤ sockfd) where
  told-Careful : (bs : Bytes) → Careful passed_over (write_or_die "write error to server" sockfd bs)
  told-Careful bs = write_or_die-Careful sockfd bs "write error to server" (λ e. ground arith)

  requested-Careful :
      (s : Session) (r : Request)
      → Careful passed_over (do
        size ← get_file_size r.path
        write_or_die "write error to server" sockfd (w.dangling size)
        write_or_die "write error to server" sockfd (codes "\n")
        file_transfer w r.path r.port
        pure (record s { buf = r.left }))
  unfolding get_file_size
  requested-Careful s r = stat-Careful r.path (λ sb. decimal (get_or sb 3 0)) then (λ size.
      told-Careful (w.dangling size) then (λ _. told-Careful (codes "\n") then (λ _.
        file_transfer-Careful w r.path r.port
        then (λ _. pure-Careful (record s { buf = r.left })))))

  -- Where the text in the buffer is a request: on every list of answers, for a socket that is none of the
  -- standard streams, the client goes on behind the command F only if every `stat`, `socket`,
  -- `connect`, `open`, `sendfile` and `write` to the server that it made succeeded; if one failed,
  -- it has exited with status 1 behind a message, or still waits. A `close` or a `write` to its own
  -- output that fails is passed over.
  pub send_file-Checks :
      (s : Session) (r : Request) (piece : Bytes) (rs : List Reply)
      → parse_request s.buf ≡ request r
      → Checks passed_over (send_file w sockfd piece s rs)
  unfolding send_file
  send_file-Checks s r piece rs e = rw e (
      (shown-Careful (literal w (codes "F received\n") 12)
          then (λ _. shown-Careful piece then (λ _. requested-Careful s r))).checks
        rs)
