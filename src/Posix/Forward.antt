-- ===== src/Posix/Forward.antt =====
-- Programs that hand on what they read from one descriptor to another, with calls between that do
-- neither.
use course_code.Posix.Finish.{Complete, Complete-append}
use course_code.Base.{ℕ, String, ◌≡◌, refl, List, [], ◌∷◌, ◌++◌, arith, zero, suc}
use course_code.Posix.Call.{Bytes, Reply, done, fail, Call, Trace, Event}
use course_code.Posix.Run.{
  Result, Outcome, ok, exited, blocked, fault, spins, M, sys, pure, ◌>>=◌, continue, exit,
}
use course_code.Posix.Io.{gather-append, call, result, gather}
use course_code.Posix.Relay.{Fits, Fits-append, relayed}
use course_code.Posix.Relay.{relayed-append}
use course_code.Posix.Connection.{joined}
use course_code.Posix.Program.{need, write_or_die}

module _ (taken : Event → List Bytes) (given : Event → Bytes) where
  -- What the run gave out is what it took in: all of it if the run
  -- returned, a front part if it exited with status 1 or still waits.
  pub record Passed {A : Type 0} (r : Result A) : Type 0 where
    pub fits : Fits r.outcome (gather given r.trace) (joined (gather taken r.trace))

  pub record Forwards {A : Type 0} (m : M A) : Type 0 where
    pub passed : (rs : List Reply) → Passed (m rs)

  ok_case :
      {B : Type 0} (o : Outcome B) (xs ys : Trace)
      → gather given xs ≡ joined (gather taken xs)
      → Fits o (gather given ys) (joined (gather taken ys))
      → Fits o (gather given (xs ++ ys)) (joined (gather taken (xs ++ ys)))
  ok_case o xs ys p h =
      rw
        (
          gather-append (given) xs ys,
          gather-append (taken) xs ys,
          relayed-append (λ buf. buf) (gather taken xs) (gather taken ys),
        )
        (Fits-append o (gather given ys) (joined (gather taken ys)) p h)

  bind_case :
      {A B : Type 0} (o : Outcome A) (t : Trace) (rest : List Reply) (f : A → M B)
      → Fits o (gather given t) (joined (gather taken t))
      → ((a : A) → Passed (f a rest))
      → let r = continue o t rest f in
        Fits r.outcome (gather given r.trace) (joined (gather taken r.trace))
  bind_case (ok a) t rest f h g = ok_case (f a rest).outcome t (f a rest).trace h (g a).fits
  bind_case (exited _) t rest f h g = h
  bind_case blocked t rest f h g = h
  bind_case fault t rest f h g = h
  bind_case spins t rest f h g = h

  -- The same of a program that exits with status 0 behind all of it.
  pub record Ends {A : Type 0} (m : M A) : Type 0 where
    pub ends :
        (rs : List Reply)
        → let r = m rs in Complete r.outcome (gather given r.trace) (joined (gather taken r.trace))

  end_case :
      {A B : Type 0} (o : Outcome A) (t : Trace) (rest : List Reply) (f : A → M B)
      → Fits o (gather given t) (joined (gather taken t))
      → ((a : A) → Ends (f a))
      → let r = continue o t rest f in
        Complete r.outcome (gather given r.trace) (joined (gather taken r.trace))
  end_case (ok a) t rest f h g =
      rw
        (
          gather-append given t (f a rest).trace,
          gather-append taken t (f a rest).trace,
          relayed-append (λ buf. buf) (gather taken t) (gather taken (f a rest).trace),
        )
        (Complete-append (f a rest).outcome _ _ h ((g a).ends rest))
  end_case (exited zero) t rest f (one, h) g = absurd (omega arith)
  end_case (exited (suc n)) t rest f (one, h) g = (omega arith, h)
  end_case blocked t rest f h g = h
  end_case fault t rest f h g = h
  end_case spins t rest f h g = h

  -- A call that neither reads from the one nor writes to the other.
  pub record Apart (c : Call) : Type 0 where
    pub deaf : (r : Reply) → taken (record { call = c; reply = r }) ≡ []
    pub mute : (r : Reply) → given (record { call = c; reply = r }) ≡ []

  sys_case : (c : Call) → Apart c → (rs : List Reply) → Passed (sys c rs)
  unfolding relayed
  sys_case c a [] = record { fits = ([], refl) }
  sys_case c a (r ∷ rs) = record { fits = rw (a.deaf r, a.mute r) refl }

  need_case :
      (c : Call) (str : String)
      → Apart c
      → Apart (Call.perror str)
      → (rs : List Reply) → Passed (need str c rs)
  unfolding need relayed
  need_case c str a m [] = record { fits = ([], refl) }
  need_case c str a m (done n l ∷ rs) = record {
    fits = rw (a.deaf (done n l), a.mute (done n l)) refl;
  }
  need_case c str a m (fail e ∷ rs) = record {
    fits =
        rw (a.deaf (fail e), a.mute (fail e), m.deaf (done 0 []), m.mute (done 0 []))
          (refl, ([], refl));
  }

  write_case :
      (str : String) (fd : ℕ) (bs : Bytes) (rs : List Reply)
      → Apart (Call.write fd bs)
      → Apart (Call.perror str)
      → Passed (write_or_die str fd bs rs)
  unfolding write_or_die relayed
  write_case str fd bs [] a m = record { fits = ([], refl) }
  write_case str fd bs (done n l ∷ rs) a m = record {
    fits = rw (a.deaf (done n l), a.mute (done n l)) refl;
  }
  write_case str fd bs (fail e ∷ rs) a m = record {
    fits =
        rw (a.deaf (fail e), a.mute (fail e), m.deaf (done 0 []), m.mute (done 0 []))
          (refl, ([], refl));
  }

module _ {taken : Event → List Bytes} {given : Event → Bytes} where
  infixl 5 ◌then◌
  pub ◌then◌ :
      {A B : Type 0} {m : M A} {f : A → M B}
      → Forwards taken given m
      → ((a : A) → Forwards taken given (f a))
      → Forwards taken given (m >>= f)
  ◌then◌ {m = m} {f = f} h g = record {
    passed = λ rs. record {
      fits =
          bind_case taken given (m rs).outcome (m rs).trace (m rs).rest f (h.passed rs).fits
            (λ a. (g a).passed (m rs).rest);
    };
  }

  infixl 5 ◌at_end◌
  pub ◌at_end◌ :
      {A B : Type 0} {m : M A} {f : A → M B}
      → Forwards taken given m
      → ((a : A) → Ends taken given (f a))
      → Ends taken given (m >>= f)
  ◌at_end◌ {m = m} {f = f} h g = record {
    ends = λ rs.
        end_case taken given (m rs).outcome (m rs).trace (m rs).rest f (h.passed rs).fits
          (λ a. g a);
  }

  pub exit-Ends : {A : Type 0} → Ends taken given {A = A} (exit 0)
  unfolding relayed
  exit-Ends = record { ends = λ rs. refl }

  pub pure-Forwards : {A : Type 0} (a : A) → Forwards taken given (pure a)
  unfolding relayed
  pure-Forwards a = record { passed = λ rs. record { fits = refl } }

  pub sys-Forwards : (c : Call) → Apart taken given c → Forwards taken given (sys c)
  sys-Forwards c a = record { passed = sys_case taken given c a }

  pub call-Forwards : (c : Call) → Apart taken given c → Forwards taken given (call c)
  call-Forwards c a = sys-Forwards c a then (λ r. pure-Forwards (result r))

  pub need-Forwards :
      (c : Call) (str : String)
      → Apart taken given c
      → Apart taken given (Call.perror str)
      → Forwards taken given (need str c)
  need-Forwards c str a m = record { passed = need_case taken given c str a m }

  pub write-Forwards :
      (str : String) (fd : ℕ) (bs : Bytes)
      → Apart taken given (Call.write fd bs)
      → Apart taken given (Call.perror str)
      → Forwards taken given (write_or_die str fd bs)
  write-Forwards str fd bs a m = record { passed = λ rs. write_case taken given str fd bs rs a m }
