-- ===== src/Exercise1/Options/Order.antt =====
-- What question-4.c and question-5.c do with their arguments, and what comes out.
use course_code.Base.{
  ◌≡◌, refl, true, List, [], ◌∷◌, ◌++◌, append-nil, if◌then◌else◌, Bool-cases, inl, inr,
}
use course_code.Posix.Call.{Bytes, Reply, Call, Signal, Handler}
use course_code.Posix.Run.{Result, M, exit, ◌>>◌}
use course_code.Posix.Io.{gather, sent, sent_by, call}
use course_code.Posix.Relay.{Fits}
use course_code.Posix.Finish.{Complete}
use course_code.Posix.Connection.{joined}
use course_code.Posix.Forward.{
  Forwards, Ends, Apart, pure-Forwards, call-Forwards, exit-Ends, ◌then◌, ◌at_end◌,
}
use course_code.Posix.Sends.{
  Sends, Completes, Sends-pure, Sends-call, Completes-exit, ◌next◌, ◌lastly◌,
}
use course_code.Exercise1.Options.{
  err1, err2, is_option, complain, install_handlers, print_files, lacks_files, main, main_sigaction,
}
use course_code.Exercise1.Options.Printing.{taken_in, Mark, installs, opens, marks}
use course_code.Exercise1.Options.GivingUp.{
  complain-Ends, complain-Completes, checked-Forwards, checked-Sends, printed-Forwards,
  printed-Sends,
}

-- A handler is installed for each option, and all other arguments are opened in their order.
abbrev pub handlers : List Bytes → List Mark
handlers [] = []
handlers (arg ∷ args) = if is_option arg then installs ∷ handlers args else handlers args

abbrev pub files : List Bytes → List Mark
files [] = []
files (arg ∷ args) = if is_option arg then files args else opens arg ∷ files args

-- The handlers are installed, then the files are opened, all of it by the time the program exits with
-- status 0, a front part of it if it exits with status 1 or waits. So it is with what came in and went
-- out.
pub record Cats (args : List Bytes) (r : Result (Unit {0})) : Type 0 where
  pub in_order : Complete r.outcome (gather marks r.trace) (handlers args ++ files args)
  pub copied : Complete r.outcome (sent 1 r.trace) (joined (gather taken_in r.trace))

marked_case :
    (c : Call) (wanted : List Mark)
    → ((r : Reply) → marks (record { call = c; reply = r }) ≡ wanted)
    → (rs : List Reply) → Fits (call c rs).outcome (gather marks (call c rs).trace) wanted
marked_case c wanted h [] = (wanted, refl)
marked_case c wanted h (r ∷ rs) = rw (h r) (append-nil wanted)

call-Sends :
    (c : Call) (wanted : List Mark)
    → ((r : Reply) → marks (record { call = c; reply = r }) ≡ wanted)
    → Sends marks wanted (call c)
call-Sends c wanted h = record { fits = marked_case c wanted h }

module _ (install : Call)
    (marked : (r : Reply) → marks (record { call = install; reply = r }) ≡ installs ∷ [])
    (apart : Apart taken_in (sent_by 1) install) where
  install-Sends : (args : List Bytes) → Sends marks (handlers args) (install_handlers install args)
  unfolding install_handlers
  install-Sends [] = Sends-pure marks tt
  install-Sends (arg ∷ args) = elim (Bool-cases (is_option arg)) [
    | inl e ↦ rw e (
        call-Sends install (installs ∷ []) marked
        next (λ r. checked-Sends _ r)
        next (λ _. install-Sends args))
    | inr e ↦ rw e (Sends-pure marks tt next (λ _. install-Sends args))
  ]

  install-Forwards :
      (args : List Bytes) → Forwards taken_in (sent_by 1) (install_handlers install args)
  unfolding install_handlers
  install-Forwards [] = pure-Forwards tt
  install-Forwards (arg ∷ args) = elim (Bool-cases (is_option arg)) [
    | inl e ↦ rw e (
        call-Forwards install apart
        then (λ r. checked-Forwards _ r)
        then (λ _. install-Forwards args))
    | inr e ↦ rw e (pure-Forwards tt then (λ _. install-Forwards args))
  ]

files-Sends : (args : List Bytes) → Sends marks (files args) (print_files args)
unfolding print_files
files-Sends [] = Sends-pure marks tt
files-Sends (arg ∷ args) = elim (Bool-cases (is_option arg)) [
  | inl e ↦ rw e (Sends-pure marks tt next (λ _. files-Sends args))
  | inr e ↦ rw e (
      call-Sends (Call.open_file arg "O_RDONLY") (opens arg ∷ []) (λ r. refl)
      next (λ r. printed-Sends _ r)
      next (λ _. files-Sends args))
]

files-Forwards : (args : List Bytes) → Forwards taken_in (sent_by 1) (print_files args)
unfolding print_files
files-Forwards [] = pure-Forwards tt
files-Forwards (arg ∷ args) = elim (Bool-cases (is_option arg)) [
  | inl e ↦ rw e (pure-Forwards tt then (λ _. files-Forwards args))
  | inr e ↦ rw e (
      call-Forwards (Call.open_file arg "O_RDONLY") (record { deaf = λ r. refl; mute = λ r. refl })
      then (λ r. printed-Forwards _ r)
      then (λ _. files-Forwards args))
]

module _ (install : Call)
    (marked : (r : Reply) → marks (record { call = install; reply = r }) ≡ installs ∷ [])
    (apart : Apart taken_in (sent_by 1) install) (args : List Bytes) where
  abbrev work : M (Unit {0})
  work =
      if lacks_files args
      then complain err1
      else do install_handlers install args; print_files args; exit 0

  work-Completes : Completes marks (handlers args ++ files args) work
  work-Completes = elim (Bool-cases (lacks_files args)) [
    | inl e ↦ rw e (complain-Completes (Unit {0}) err1 (handlers args ++ files args))
    | inr e ↦
        rw (e, ← append-nil (files args))
          (install-Sends install marked apart args
            lastly (λ _. files-Sends args lastly (λ _. Completes-exit marks)))
  ]

  work-Ends : Ends taken_in (sent_by 1) work
  work-Ends = elim (Bool-cases (lacks_files args)) [
    | inl e ↦ rw e (complain-Ends (Unit {0}) err1)
    | inr e ↦ rw e (
        install-Forwards install marked apart args
        at_end (λ _. files-Forwards args at_end (λ _. exit-Ends)))
  ]

main-Cats : (args : List Bytes) (rs : List Reply) → Cats args (main args rs)
unfolding main
main-Cats args rs =
    let install = Call.signal Signal.sigint (Handler.handler "sig_handler") in
    let apart : Apart taken_in (sent_by 1) install = record {
      deaf = λ r. refl;
      mute = λ r. refl;
    } in
    record {
      in_order = (work-Completes install (λ r. refl) apart args).complete rs;
      copied = (work-Ends install (λ r. refl) apart args).ends rs;
    }

main_sigaction-Cats : (args : List Bytes) (rs : List Reply) → Cats args (main_sigaction args rs)
unfolding main_sigaction
main_sigaction-Cats args rs =
    let install = Call.sigaction Signal.sigint (Handler.handler "sig_handler") true in
    let apart : Apart taken_in (sent_by 1) install = record {
      deaf = λ r. refl;
      mute = λ r. refl;
    } in
    let completes = Sends-call {out = marks} Call.sigemptyset (λ r. refl) lastly (λ r.
      checked-Sends err2 r lastly (λ _. work-Completes install (λ r'. refl) apart args)) in
    let ends =
      call-Forwards Call.sigemptyset (record { deaf = λ r. refl; mute = λ r. refl }) at_end (λ r.
        checked-Forwards err2 r at_end (λ _. work-Ends install (λ r'. refl) apart args)) in
    record { in_order = completes.complete rs; copied = ends.ends rs }

-- On every list of answers, question-4.c and question-5.c install a handler for each option in front
-- of all else, then open the other arguments in their order, and put on their output all the pieces
-- that they read, in order. They exit with status 0 only behind all of it, and with status 1, or in a
-- call that waits, behind a front part of the calls and of the output; they run into nothing else.
pub mains-Cats :
    (args : List Bytes) (rs rs' : List Reply)
    → Cats args (main args rs) × Cats args (main_sigaction args rs')
mains-Cats args rs rs' = (main-Cats args rs, main_sigaction-Cats args rs')
