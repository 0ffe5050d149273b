-- ===== src/Posix/Boot.antt =====
-- The calls of a whole concurrent server: from `socket` to `listen`, its handlers, and then its accept
-- loop.
use course_code.Base.{ℕ, ◌≡◌, refl, Bool, true, false, ◌&&◌, List, [], ◌∷◌, String, ◌==◌}
use course_code.Posix.Call.{Reply, done, fail, Call, Trace, Kind, Signal, Handler}
use course_code.Posix.Run.{
  Result, Outcome, ok, exited, blocked, fault, spins, M, exit, ◌>>=◌, ◌>>◌, continue,
}
use course_code.Posix.Io.{==_refl}
use course_code.Posix.Program.{htons, need, open_listener, accept_loop}
use course_code.Posix.Echo.{Endless}
use course_code.Posix.Protocol.{idle, dying, settled, follows, before_fork, accept_loop-follows}

-- A handler that a server installs for one run of it: its function, and what is reported if that
-- fails.
pub record Handling : Type 0 where
  pub signal : Signal
  pub function : String
  pub reported : String

abbrev same_signal : Signal → Signal → Bool
same_signal Signal.sigint Signal.sigint = true
same_signal Signal.sigchld Signal.sigchld = true
same_signal Signal.sigpipe Signal.sigpipe = true
same_signal _ _ = false

same_signal_refl : (s : Signal) → same_signal s s ≡ true
same_signal_refl Signal.sigint = refl
same_signal_refl Signal.sigchld = refl
same_signal_refl Signal.sigpipe = refl

pub data Start : Type 0 where
  start : Start
  made named : (fd : ℕ) → Start  -- behind `socket`, behind `bind`
  armed : (fd : ℕ) → List Handling → Start  -- behind `listen`, with handlers to install

-- The socket is made, bound to the port and set to listen, then the handlers are installed, in this
-- order; a call that fails is reported and ends the process with status 1; and then the accept loop
-- follows. In front of that loop a run may only wait.
module _ (port backlog : ℕ) (handlers : List Handling) (early : Bool) where
  unfoldable pub boots : Outcome (Unit {0}) → Start → Trace → Bool
  boots o s [] = settled o idle
  boots o start (e ∷ es) = elim e.call [
    | Call.socket Kind.stream ↦ elim e.reply [
      | done fd _ ↦ boots o (made fd) es
      | fail _ ↦ follows early 0 o dying es
    ]
    | _ ↦ false
  ]
  boots o (made fd) (e ∷ es) = elim e.call [
    | Call.bind d addr ↦
        (d == fd)
        && ((addr.port == htons port) && elim e.reply [
          | done _ _ ↦ boots o (named fd) es
          | fail _ ↦ follows early 0 o dying es
        ])
    | _ ↦ false
  ]
  boots o (named fd) (e ∷ es) = elim e.call [
    | Call.listen d n ↦
        (d == fd)
        && ((n == backlog) && elim e.reply [
          | done _ _ ↦ boots o (armed fd handlers) es
          | fail _ ↦ follows early 0 o dying es
        ])
    | _ ↦ false
  ]
  boots o (armed fd []) (e ∷ es) = follows early fd o idle (e ∷ es)
  boots o (armed fd (h ∷ hs)) (e ∷ es) = elim e.call [
    | Call.sigaction sig (Handler.handler _) true ↦ same_signal sig h.signal && elim e.reply [
      | done _ _ ↦ boots o (armed fd hs) es
      | fail _ ↦ follows early 0 o dying es
    ]
    | _ ↦ false
  ]

  -- A server that keeps to this order, to its end.
  abbrev pub Boots : Result (Unit {0}) → Type 0
  Boots r = (boots r.outcome start r.trace ≡ true) × Endless r.outcome

  -- A `main` that exits behind its accept loop, or a function that ends with it.
  abbrev pub with_exit : Bool → M (Unit {0}) → M (Unit {0})
  with_exit true m = do m; exit 0
  with_exit false m = m

  armed-follows :
      (fd : ℕ) (o : Outcome (Unit {0})) (t : Trace)
      → follows early fd o idle t ≡ true
      → boots o (armed fd []) t ≡ true
  unfolding boots follows
  armed-follows fd o [] h = h
  armed-follows fd o (_ ∷ _) h = h

  exit_case :
      (fd : ℕ) (o : Outcome (Unit {0})) (t : Trace) (rest : List Reply)
      → follows early fd o idle t ≡ true
      → Endless o
      → let r = continue o t rest (λ (_ : Unit {0}). exit {A = Unit {0}} 0) in
        (boots r.outcome (armed fd []) r.trace ≡ true) × Endless r.outcome
  exit_case fd (ok _) t rest f e = absurd e
  exit_case fd (exited n) t rest f e = (armed-follows fd (exited n) t f, tt)
  exit_case fd blocked t rest f e = (armed-follows fd blocked t f, tt)
  exit_case fd fault t rest f e = (armed-follows fd fault t f, tt)
  exit_case fd spins t rest f e = (armed-follows fd spins t f, tt)

  armed_case :
      (exits : Bool) (fd : ℕ) (m : M (Unit {0})) (rs : List Reply)
      → follows early fd (m rs).outcome idle (m rs).trace ≡ true
      → Endless (m rs).outcome
      → let r = with_exit exits m rs in
        (boots r.outcome (armed fd []) r.trace ≡ true) × Endless r.outcome
  armed_case true fd m rs f e = exit_case fd (m rs).outcome (m rs).trace (m rs).rest f e
  armed_case false fd m rs f e = (armed-follows fd (m rs).outcome (m rs).trace f, e)

  module _ (exits : Bool) (serve : ℕ → M (Unit {0})) where
    -- A server behind its `listen`.
    abbrev pub arm : List Handling → (listenfd : ℕ) → M (Unit {0})
    arm [] listenfd = with_exit exits (accept_loop listenfd (before_fork early) serve)
    arm (h ∷ hs) listenfd = do
      need h.reported (Call.sigaction h.signal (Handler.handler h.function) true)
      arm hs listenfd

    abbrev pub server : M (Unit {0})
    server = open_listener port backlog >>= arm handlers

    arm-boots :
        (hs : List Handling) (fd : ℕ) (rs : List Reply)
        → (boots (arm hs fd rs).outcome (armed fd hs) (arm hs fd rs).trace ≡ true)
          × Endless (arm hs fd rs).outcome
    unfolding boots need follows
    arm-boots [] fd rs =
        let (f, e) = accept_loop-follows fd serve early rs in
        armed_case exits fd (accept_loop fd (before_fork early) serve) rs f e
    arm-boots (h ∷ hs) fd [] = (refl, tt)
    arm-boots (h ∷ hs) fd (fail e ∷ rs) = (rw (same_signal_refl h.signal) refl, tt)
    arm-boots (h ∷ hs) fd (done n l ∷ rs) =
        let (f, e) = arm-boots hs fd rs in (rw (same_signal_refl h.signal) f, e)

    pub server-Boots : (rs : List Reply) → Boots (server rs)
    unfolding open_listener boots follows
    server-Boots [] = (refl, tt)
    server-Boots (fail e ∷ rs) = (refl, tt)
    server-Boots (done fd l ∷ []) = (refl, tt)
    server-Boots (done fd l ∷ fail e ∷ rs) = (rw (==_refl fd, ==_refl (htons port)), tt)
    server-Boots (done fd l ∷ done n l' ∷ []) = (rw (==_refl fd, ==_refl (htons port)), tt)
    server-Boots (done fd l ∷ done n l' ∷ fail e ∷ rs) =
        (rw (==_refl fd, ==_refl (htons port), ==_refl backlog), tt)
    server-Boots (done fd l ∷ done n l' ∷ done n' l'' ∷ rs) =
        let (f, e) = arm-boots handlers fd rs in
        (rw (==_refl fd, ==_refl (htons port), ==_refl backlog) f, e)
