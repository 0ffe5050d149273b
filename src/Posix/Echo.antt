-- ===== src/Posix/Echo.antt =====
-- Loops around a reading loop: a service that starts to read again at the end of its input.
pub mod Staying
use course_code.Base.{
  ℕ, suc, inl, inr, List-cases, ◌≤◌, ◌<◌, ◌≡◌, refl, List, [], ◌∷◌, ◌++◌, append-nil, arith, length,
  take, String,
}
use course_code.Posix.Call.{Bytes, Reply, done, fail, Call, Event, Trace}
use course_code.Posix.Run.{
  Result, Outcome, ok, exited, blocked, fault, spins, M, pure, ◌>>=◌, continue,
}
use course_code.Posix.Io.{
  read, taken, got, pieces, ==_refl, gather, gather-append, chunks, chunks_by,
}
use course_code.Posix.Loop.{
  Next, again, resume, forever, forever_rule, Ended, at_eof, on_error, read_round, while_read,
}
use course_code.Posix.Relay.{
  IsPrefix, relayed, relayed-append, KeepsUp, KeepsUp-append, KeepsUp-IsPrefix, Hands, Emits,
  while_taken-Passes,
}
use course_code.Posix.Program.{handle_err, write_unchecked}
use course_code.Posix.Echo.Staying.{Shrinks, while_taken-Shrinks}
pub use course_code.Posix.Echo.Staying.{Stays, Stays-bind, write_unchecked-Stays}

-- A run that does not come back.
abbrev pub Endless : {A : Type 0} → Outcome A → Type 0
Endless (ok _) = ⊥
Endless (exited _) = Unit
Endless blocked = Unit
Endless fault = Unit
Endless spins = Unit

-- How a service ends that hands on `f` of each piece: with status 1 behind all of them, or waiting
-- behind all but a part of the last one.
abbrev pub Serving :
    {X : Type 0} → Outcome (Unit {0}) → (Bytes → List X) → List X → List Bytes → Type 0
Serving (ok _) f made cs = ⊥
Serving (exited n) f made cs = (n ≡ 1) × (made ≡ relayed f cs)
Serving blocked f made cs = KeepsUp f made cs
Serving fault f made cs = ⊥
Serving spins f made cs = ⊥

-- A service that hands on `f` of what it reads from `fd`, for ever.
abbrev pub Serves :
    {X : Type 0} → (Event → List X) → (fd : ℕ) → (Bytes → List X) → Result (Unit {0}) → Type 0
Serves out fd f r = Serving r.outcome f (gather out r.trace) (chunks fd r.trace)

Serving-append :
    {X : Type 0} (o : Outcome (Unit {0})) (f : Bytes → List X) (first made : List X)
    (ds cs : List Bytes)
    → first ≡ relayed f ds
    → Serving o f made cs
    → Serving o f (first ++ made) (ds ++ cs)
Serving-append (ok _) f first made ds cs p h = h
Serving-append (exited n) f first made ds cs p (one, h) =
    (one, rw (p, h, relayed-append f ds cs) refl)
Serving-append blocked f first made ds cs p h = KeepsUp-append f first made ds cs p h
Serving-append fault f first made ds cs p h = h
Serving-append spins f first made ds cs p h = h

-- Whatever the service is doing, it has put out a front part of what it is to put out.
pub Serving-IsPrefix :
    {X : Type 0} (o : Outcome (Unit {0})) (f : Bytes → List X) (made : List X) (cs : List Bytes)
    → Serving o f made cs
    → IsPrefix made (relayed f cs)
Serving-IsPrefix (ok _) f made cs h = absurd h
Serving-IsPrefix (exited n) f made cs (one, h) = ([], rw (append-nil made) h)
Serving-IsPrefix blocked f made cs h = KeepsUp-IsPrefix f made cs h
Serving-IsPrefix fault f made cs h = absurd h
Serving-IsPrefix spins f made cs h = absurd h

-- `for ( ; ; ) { while ((n = read(...)) > 0) ...; if (n < 0) handle_err(str); }`
abbrev pub again_at_eof : {S : Type 0} → String → M (S × Ended) → M (Next (Unit {0}) (Unit {0}))
again_at_eof str m = do (_, n) ← m; elim n [ at_eof ↦ pure (again tt) | on_error ↦ handle_err str ]

module _ {X : Type 0} (out : Event → List X) (fd : ℕ) {S : Type 0} (count : ℕ) (f : Bytes → List X)
    (body : S → Bytes → M S)
    (emits : (s : S) (buf : Bytes) (rs : List Reply) → Emits out fd rs (f buf) (body s buf rs))
    (stays : (s : S) (buf : Bytes) (rs : List Reply) → Stays (body s buf rs).outcome)
    (mute : (str : String) → out (record { call = Call.perror str; reply = done 0 [] }) ≡ []) where
  outer_case :
      (str : String) (rs : List Reply) (k : Unit {0} → M (Unit {0}))
      → ((s' : Unit {0}) (rs' : List Reply) → length rs' < length rs → Serves out fd f (k s' rs'))
      → (o : Outcome (S × Ended)) (t : Trace) (rest : List Reply)
      → Hands o f (gather out t) (chunks fd t)
      → Shrinks (length rs) o rest
      → Serves out fd f (
          (again_at_eof str (λ (_ : List Reply). record { outcome = o; trace = t; rest = rest })
              >>= resume k)
            rs)
  outer_case str rs k ih (ok (s, at_eof)) t rest fits less =
      rw
        (
          append-nil t,
          gather-append out t (k tt rest).trace,
          gather-append (chunks_by fd) t (k tt rest).trace,
        )
        (Serving-append (k tt rest).outcome f _ _ _ _ fits (ih tt rest less))
  outer_case str rs k ih (ok (s, on_error)) t rest fits less = (
    refl,
    rw
        (
          gather-append out t,
          gather-append (chunks_by fd) t,
          mute str,
          append-nil (gather out t),
          append-nil (chunks fd t),
        )
        fits,
  )
  outer_case str rs k ih (exited m) t rest fits less = absurd less
  outer_case str rs k ih blocked t rest fits less = fits
  outer_case str rs k ih fault t rest fits less = absurd fits
  outer_case str rs k ih spins t rest fits less = absurd fits

  module _ (c : Call) (silent : (r : Reply) → out (record { call = c; reply = r }) ≡ [])
      (heard : (r : Reply)
        → chunks_by fd (record { call = c; reply = r }) ≡ pieces (got count r)) where
    -- Whatever the kernel answers, the service hands on `f` of each piece that it takes, in order,
    -- and neither the end of the input nor anything else makes it return.
    pub taken_again-Serves :
        (str : String) (s : S) (rs : List Reply)
        → Serves out fd f
            (forever (λ (_ : Unit {0}). again_at_eof str (while_read (taken count c) body s)) tt rs)
    taken_again-Serves str s =
        forever_rule (λ (_ : Unit {0}). again_at_eof str (while_read (taken count c) body s))
          (λ _ _ r. Serves out fd f r)
          (λ _ rs k ih.
            outer_case str rs k ih _ _ _
              (while_taken-Passes out fd count f body emits c silent heard s rs)
              (while_taken-Shrinks out fd count f body emits stays c s rs))
          tt

module _ (out : Event → Bytes) (fd : ℕ) {S : Type 0} (count : ℕ) (f : Bytes → Bytes)
    (body : S → Bytes → M S)
    (emits : (s : S) (buf : Bytes) (rs : List Reply) → Emits out fd rs (f buf) (body s buf rs))
    (stays : (s : S) (buf : Bytes) (rs : List Reply) → Stays (body s buf rs).outcome)
    (silent : (r : Reply) → out (record { call = Call.read fd count; reply = r }) ≡ [])
    (mute : (str : String) → out (record { call = Call.perror str; reply = done 0 [] }) ≡ []) where
  -- The same of a service that reads.
  pub again_at_eof-Serves :
      (str : String) (s : S) (rs : List Reply)
      → Serves out fd f
          (forever (λ (_ : Unit {0}). again_at_eof str (while_read (read fd count) body s)) tt rs)
  again_at_eof-Serves =
      taken_again-Serves out fd count f body emits stays mute (Call.read fd count) silent
        (λ r. rw (==_refl fd) refl)
