-- ===== src/Exercise1/Options/Whole.antt =====
-- question-4.c and question-5.c where every call succeeds: the files come out, one behind another.
use course_code.Base.{ℕ, ◌≡◌, refl, true, List, [], ◌∷◌, ◌++◌, append-nil, false}
use course_code.Posix.Call.{Bytes, Reply, done, Call, Event, Signal, Handler}
use course_code.Posix.Run.{Result, exited, M, exit, ◌>>◌}
use course_code.Posix.Io.{sent, sent_by, gather-append}
use course_code.Exercise1.Options.{
  is_option, lacks_files, install_handlers, print_files, main, main_sigaction,
}
use course_code.Exercise1.Options.Reading.{Reads, Gives, print-Gives}

-- The answers to the first loop over the arguments.
pub data Installs : (args : List Bytes) → (rs : List Reply) → Type 0 where
  no_more : Installs [] []
  option :
      {arg : Bytes} {args : List Bytes} {rs : List Reply} (n : ℕ) (l : List ℕ)
      → is_option arg ≡ true
      → Installs args rs
      → Installs (arg ∷ args) (done n l ∷ rs)
  a_file :
      {arg : Bytes} {args : List Bytes} {rs : List Reply}
      → is_option arg ≡ false
      → Installs args rs
      → Installs (arg ∷ args) rs

-- The answers to the second loop, with the contents of all the files.
pub data Opens : (args : List Bytes) → (content : Bytes) → (rs : List Reply) → Type 0 where
  no_more : Opens [] [] []
  an_option :
      {arg : Bytes} {args : List Bytes} {content : Bytes} {rs : List Reply}
      → is_option arg ≡ true
      → Opens args content rs
      → Opens (arg ∷ args) content rs
  file :
      {arg : Bytes} {args : List Bytes} {content more : Bytes} {rs rs' : List Reply} (fd : ℕ)
      (l : List ℕ) (slept : Reply)
      → is_option arg ≡ false
      → Reads content rs
      → Opens args more rs'
      → Opens (arg ∷ args) (content ++ more) (done fd l ∷ (rs ++ (slept ∷ rs')))

install-Gives :
    (install : Call)
    → ((r : Reply) → sent_by 1 (record { call = install; reply = r }) ≡ [])
    → (args : List Bytes) (rs rest : List Reply) → Installs args rs
    → Gives (install_handlers install args) (rs ++ rest) rest []
unfolding install_handlers
install-Gives install mute args rs rest no_more = record { trace = []; runs = refl; all = refl }
install-Gives install mute args rs rest (option {args = args'} {rs = rs'} n l e h) =
    let g = install-Gives install mute args' rs' rest h in
    record {
      trace = record { call = install; reply = done n l } ∷ g.trace;
      runs = rw (e, g.runs) refl;
      all = rw (mute (done n l), g.all) refl;
    }
install-Gives install mute args rs rest (a_file {args = args'} e h) =
    let g = install-Gives install mute args' rs rest h in
    record { trace = g.trace; runs = rw (e, g.runs) refl; all = g.all }

files-Gives :
    (args : List Bytes) (content : Bytes) (rs : List Reply)
    → Opens args content rs
    → Gives (print_files args) rs [] content
unfolding print_files
files-Gives args content rs no_more = record { trace = []; runs = refl; all = refl }
files-Gives args content rs (an_option {args = args'} e h) =
    let g = files-Gives args' content rs h in
    record { trace = g.trace; runs = rw (e, g.runs) refl; all = g.all }
files-Gives args content rs
      (file {arg = arg} {args = args'} {content = here} {more = more} {rs = rs'} {rs' = rs''} fd l
        slept e reads h) =
    let p = print-Gives fd here rs' rs'' slept reads in
    let g = files-Gives args' more rs'' h in
    let opening : Event = record { call = Call.open_file arg "O_RDONLY"; reply = done fd l } in
    record {
      trace = opening ∷ (p.trace ++ g.trace);
      runs = rw (e, p.runs, g.runs) refl;
      all = rw (gather-append (sent_by 1) p.trace g.trace, p.all, g.all) refl;
    }

-- All answers are taken, the program exits with status 0, and its output is `content`.
pub record Prints (content : Bytes) (r : Result (Unit {0})) : Type 0 where
  pub succeeds : r.outcome ≡ exited 0
  pub whole : sent 1 r.trace ≡ content
  pub no_more : r.rest ≡ []

module _ (args : List Bytes) (content : Bytes) (is os : List Reply)
    (enough : lacks_files args ≡ false) (installs : Installs args is)
    (opens : Opens args content os) where
  module _ (install : Call)
      (mute : (r : Reply) → sent_by 1 (record { call = install; reply = r }) ≡ []) where
    abbrev work : M (Unit {0})
    work = do install_handlers install args; print_files args; exit 0

    work-Prints : Prints content (work (is ++ os))
    work-Prints =
        let g = install-Gives install mute args is os installs in
        let f = files-Gives args content os opens in
        rw (g.runs, f.runs)
          (record {
            succeeds = refl;
            whole =
                rw (append-nil f.trace, gather-append (sent_by 1) g.trace f.trace, g.all, f.all)
                  refl;
            no_more = refl;
          })

  main-Prints : Prints content (main args (is ++ os))
  unfolding main
  main-Prints =
      rw enough
        (work-Prints (Call.signal Signal.sigint (Handler.handler "sig_handler")) (λ r. refl))

  main_sigaction-Prints :
      (n : ℕ) (l : List ℕ) → Prints content (main_sigaction args (done n l ∷ (is ++ os)))
  unfolding main_sigaction
  main_sigaction-Prints n l =
      let p =
        work-Prints (Call.sigaction Signal.sigint (Handler.handler "sig_handler") true)
          (λ r. refl) in
      rw enough (record { succeeds = p.succeeds; whole = p.whole; no_more = p.no_more })

  -- Where the arguments are neither none nor -C alone, every call succeeds, each file comes in pieces
  -- that fit the buffer, whatever their sizes, up to its end, and each `write` takes all that it is
  -- given: question-4.c and question-5.c come through, take every answer, and exit with status 0, and
  -- their output is the contents of the files one behind another, in the order of the arguments.
  pub mains-Prints :
      (n : ℕ) (l : List ℕ)
      → Prints content (main args (is ++ os))
        × Prints content (main_sigaction args (done n l ∷ (is ++ os)))
  mains-Prints n l = (main-Prints, main_sigaction-Prints n l)
