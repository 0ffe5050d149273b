-- ===== src/Posix/Sends.antt =====
-- Programs by what they put out: parts that return, and parts that end in `exit(0)`.
use course_code.Base.{zero, suc, ◌≡◌, refl, ◌∙◌, List, [], ◌∷◌, ◌++◌, append-nil, arith, String}
use course_code.Posix.Call.{Reply, done, fail, Call, Event, Trace}
use course_code.Posix.Run.{
  Outcome, ok, exited, blocked, fault, spins, M, sys, emit, exit, pure, ◌>>=◌, continue,
}
use course_code.Posix.Io.{gather, gather-append, call}
use course_code.Posix.Relay.{Fits, Fits-append, IsPrefix, IsPrefix-more}
use course_code.Posix.Finish.{Complete, Complete-append}
use course_code.Posix.Program.{need}

IsPrefix-of_empty : {X : Type 0} (made wanted : List X) → IsPrefix made [] → IsPrefix made wanted
IsPrefix-of_empty [] wanted h = (wanted, refl)
IsPrefix-of_empty (b ∷ bs) wanted (tail, e) = absurd (cc)

empty-of_prefix : {X : Type 0} (made : List X) → IsPrefix made [] → made ≡ []
empty-of_prefix [] h = refl
empty-of_prefix (b ∷ bs) (tail, e) = absurd (cc)

IsPrefix-self : {X : Type 0} (made wanted : List X) → made ≡ wanted → IsPrefix made wanted
IsPrefix-self made wanted e = ([], append-nil made ∙ e)

-- What comes behind puts nothing out.
Complete-behind :
    {A X : Type 0} (o : Outcome A) (made more wanted : List X)
    → made ≡ wanted
    → Complete o more []
    → Complete o (made ++ more) wanted
Complete-behind (ok _) made more wanted e h = absurd h
Complete-behind (exited zero) made more wanted e h = rw (h, append-nil made) e
Complete-behind (exited (suc n)) made more wanted e (one, h) =
    (one, rw (empty-of_prefix more h, append-nil made) (IsPrefix-self made wanted e))
Complete-behind blocked made more wanted e h =
    rw (empty-of_prefix more h, append-nil made) (IsPrefix-self made wanted e)
Complete-behind fault made more wanted e h = absurd h
Complete-behind spins made more wanted e h = absurd h

module _ {X : Type 0} (out : Event → List X) where
  -- All of `wanted` goes out by the time the program returns.
  pub record Sends {A : Type 0} (wanted : List X) (m : M A) : Type 0 where
    pub fits : (rs : List Reply) → Fits (m rs).outcome (gather out (m rs).trace) wanted

  -- The same of a program that exits with status 0.
  pub record Completes {A : Type 0} (wanted : List X) (m : M A) : Type 0 where
    pub complete : (rs : List Reply) → Complete (m rs).outcome (gather out (m rs).trace) wanted

  pub Completes-exit : {A : Type 0} → Completes {A = A} [] (exit 0)
  Completes-exit = record { complete = λ rs. refl }

  pub Sends-pure : {A : Type 0} (a : A) → Sends [] (pure a)
  Sends-pure a = record { fits = λ rs. refl }

  front_case :
      {A B : Type 0} (o : Outcome A) (t : Trace) (rest : List Reply) (f : A → M B) (wanted : List X)
      → Fits o (gather out t) []
      → ((a : A) → Complete (f a rest).outcome (gather out (f a rest).trace) wanted)
      → let r = continue o t rest f in Complete r.outcome (gather out r.trace) wanted
  front_case (ok a) t rest f wanted h g = rw (gather-append out t (f a rest).trace, h) (g a)
  front_case (exited zero) t rest f wanted (one, h) g = absurd (omega arith)
  front_case (exited (suc n)) t rest f wanted (one, h) g =
      (omega arith, IsPrefix-of_empty (gather out t) wanted h)
  front_case blocked t rest f wanted h g = IsPrefix-of_empty (gather out t) wanted h
  front_case fault t rest f wanted h g = absurd h
  front_case spins t rest f wanted h g = absurd h

  back_case :
      {A B : Type 0} (o : Outcome A) (t : Trace) (rest : List Reply) (f : A → M B) (wanted : List X)
      → Fits o (gather out t) wanted
      → ((a : A) → Complete (f a rest).outcome (gather out (f a rest).trace) [])
      → let r = continue o t rest f in Complete r.outcome (gather out r.trace) wanted
  back_case (ok a) t rest f wanted h g = rw (gather-append out t (f a rest).trace) (
      Complete-behind (f a rest).outcome (gather out t) (gather out (f a rest).trace) wanted h
        (g a))
  back_case (exited zero) t rest f wanted (one, h) g = absurd (omega arith)
  back_case (exited (suc n)) t rest f wanted (one, h) g = (omega arith, h)
  back_case blocked t rest f wanted h g = h
  back_case fault t rest f wanted h g = absurd h
  back_case spins t rest f wanted h g = absurd h

  next_case :
      {A B : Type 0} (o : Outcome A) (t : Trace) (rest : List Reply) (f : A → M B)
      (first wanted : List X)
      → Fits o (gather out t) first
      → ((a : A) → Sends wanted (f a))
      → let r = continue o t rest f in Fits r.outcome (gather out r.trace) (first ++ wanted)
  next_case (ok a) t rest f first wanted h g =
      rw (gather-append out t (f a rest).trace)
        (Fits-append (f a rest).outcome (gather out (f a rest).trace) wanted h ((g a).fits rest))
  next_case (exited n) t rest f first wanted (one, h) g =
      (one, IsPrefix-more (gather out t) first wanted h)
  next_case blocked t rest f first wanted h g = IsPrefix-more (gather out t) first wanted h
  next_case fault t rest f first wanted h g = h
  next_case spins t rest f first wanted h g = h

  lastly_case :
      {A B : Type 0} (o : Outcome A) (t : Trace) (rest : List Reply) (f : A → M B)
      (first wanted : List X)
      → Fits o (gather out t) first
      → ((a : A) → Completes wanted (f a))
      → let r = continue o t rest f in Complete r.outcome (gather out r.trace) (first ++ wanted)
  lastly_case (ok a) t rest f first wanted h g = rw (gather-append out t (f a rest).trace) (
      Complete-append (f a rest).outcome (gather out (f a rest).trace) wanted h
        ((g a).complete rest))
  lastly_case (exited zero) t rest f first wanted (one, h) g = absurd (omega arith)
  lastly_case (exited (suc n)) t rest f first wanted (one, h) g =
      (omega arith, IsPrefix-more (gather out t) first wanted h)
  lastly_case blocked t rest f first wanted h g = IsPrefix-more (gather out t) first wanted h
  lastly_case fault t rest f first wanted h g = h
  lastly_case spins t rest f first wanted h g = h

module _ {X : Type 0} {out : Event → List X} where
  -- One part behind another.
  infixl 5 ◌next◌ ◌lastly◌
  pub ◌next◌ :
      {A B : Type 0} {m : M A} {f : A → M B} {first wanted : List X}
      → Sends out first m
      → ((a : A) → Sends out wanted (f a))
      → Sends out (first ++ wanted) (m >>= f)
  ◌next◌ {m = m} {f = f} {first = first} {wanted = wanted} s g = record {
    fits = λ rs.
        next_case out (m rs).outcome (m rs).trace (m rs).rest f first wanted (s.fits rs) (λ a. g a);
  }

  pub ◌lastly◌ :
      {A B : Type 0} {m : M A} {f : A → M B} {first wanted : List X}
      → Sends out first m
      → ((a : A) → Completes out wanted (f a))
      → Completes out (first ++ wanted) (m >>= f)
  ◌lastly◌ {m = m} {f = f} {first = first} {wanted = wanted} s g = record {
    complete = λ rs.
        lastly_case out (m rs).outcome (m rs).trace (m rs).rest f first wanted (s.fits rs)
          (λ a. g a);
  }

  -- A part that puts nothing out, with what follows.
  infixl 5 ◌quietly◌
  pub ◌quietly◌ :
      {A B : Type 0} {m : M A} {f : A → M B} {wanted : List X}
      → Sends out [] m
      → ((a : A) → Completes out wanted (f a))
      → Completes out wanted (m >>= f)
  ◌quietly◌ {m = m} {f = f} {wanted = wanted} s c = record {
    complete = λ rs.
        front_case out (m rs).outcome (m rs).trace (m rs).rest f wanted (s.fits rs)
          (λ a. (c a).complete (m rs).rest);
  }

  -- The part that puts out all that is wanted.
  infixl 5 ◌at_last◌
  pub ◌at_last◌ :
      {A B : Type 0} {m : M A} {f : A → M B} {wanted : List X}
      → Sends out wanted m
      → ((a : A) → Completes out [] (f a))
      → Completes out wanted (m >>= f)
  ◌at_last◌ {m = m} {f = f} {wanted = wanted} s c = record {
    complete = λ rs.
        back_case out (m rs).outcome (m rs).trace (m rs).rest f wanted (s.fits rs)
          (λ a. (c a).complete (m rs).rest);
  }

sys_case :
    {X : Type 0} (out : Event → List X) (c : Call) (rs : List Reply)
    → ((r : Reply) → out (record { call = c; reply = r }) ≡ [])
    → Fits (sys c rs).outcome (gather out (sys c rs).trace) []
sys_case out c [] silent = ([], refl)
sys_case out c (r ∷ rs) silent = rw (silent r)

call_case :
    {X : Type 0} (out : Event → List X) (c : Call) (rs : List Reply)
    → ((r : Reply) → out (record { call = c; reply = r }) ≡ [])
    → Fits (call c rs).outcome (gather out (call c rs).trace) []
call_case out c [] silent = ([], refl)
call_case out c (r ∷ rs) silent = rw (silent r)

need_case :
    {X : Type 0} (out : Event → List X) (str : String) (c : Call) (rs : List Reply)
    → ((r : Reply) → out (record { call = c; reply = r }) ≡ [])
    → out (record { call = Call.perror str; reply = done 0 [] }) ≡ []
    → Fits (need str c rs).outcome (gather out (need str c rs).trace) []
unfolding need
need_case out str c [] silent mute = ([], refl)
need_case out str c (done n l ∷ rs) silent mute = rw (silent (done n l))
need_case out str c (fail e ∷ rs) silent mute = rw (silent (fail e), mute) (refl, ([], refl))

module _ {X : Type 0} {out : Event → List X} (c : Call)
    (silent : (r : Reply) → out (record { call = c; reply = r }) ≡ []) where
  pub Sends-sys : Sends out [] (sys c)
  Sends-sys = record { fits = λ rs. sys_case out c rs silent }

  pub Sends-call : Sends out [] (call c)
  Sends-call = record { fits = λ rs. call_case out c rs silent }

  pub Sends-emit : Sends out [] (emit c)
  Sends-emit = record { fits = λ rs. rw (silent (done 0 [])) }

  pub Sends-need :
      (str : String)
      → out (record { call = Call.perror str; reply = done 0 [] }) ≡ []
      → Sends out [] (need str c)
  Sends-need str mute = record { fits = λ rs. need_case out str c rs silent mute }
