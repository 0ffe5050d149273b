-- ===== src/Posix/Loop.antt =====
-- Loops that end when their body says so. Fuel bounds the rounds by the answers that are left; the
-- rule below needs no other bound, since each round takes an answer.
use course_code.Base.{ℕ, zero, suc, ◌<◌, ◌≤◌, List, [], ◌∷◌, ◌++◌, length, arith, ◌≡◌, append-nil}
use course_code.Posix.Call.{Bytes, Reply, Trace}
use course_code.Posix.Io.{Got, chunk, eof, failed}
use course_code.Posix.Run.{Result, ok, spins, M, finish, pure, ◌>>=◌}

-- What a round of a loop says: go on with new values of the variables, or leave the loop.
pub data Next (S A : Type 0) : Type 0 where
  again : S → Next S A
  leave : A → Next S A

module _ {S A : Type 0} where
  abbrev pub resume : (S → M A) → Next S A → M A
  resume k (again s) = k s
  resume k (leave a) = pure a

  loop : ℕ → (S → M (Next S A)) → S → M A
  loop zero body s rs = finish spins rs
  loop (suc fuel) body s rs = (body s >>= resume (loop fuel body)) rs

  -- `for ( ; ; )`, with the variables that the rounds hand on.
  unfoldable pub forever : (S → M (Next S A)) → S → M A
  unfolding loop
  forever body s rs = loop (suc (length rs)) body s rs

  -- A loop that its first round leaves.
  pub forever-leave :
      (body : S → M (Next S A)) (s : S) (a : A) (t : Trace) (rest rs : List Reply)
      → body s rs ≡ record { outcome = ok (leave a); trace = t; rest = rest }
      → forever body s rs ≡ record { outcome = ok a; trace = t; rest = rest }
  unfolding forever loop
  forever-leave body s a t rest rs e = rw (forever, loop, e, append-nil t)

  -- A loop that is left behind `n` rounds.
  pub data Rounds (body : S → M (Next S A))
      : (n : ℕ) (s : S) (rs : List Reply) (a : A) (t : Trace) (rest : List Reply) → Type 0 where
    last_round :
        {s : S} {rs : List Reply} {a : A} {t : Trace} {rest : List Reply}
        → body s rs ≡ record { outcome = ok (leave a); trace = t; rest = rest }
        → Rounds body 1 s rs a (t ++ []) rest
    one_more :
        {n : ℕ} {s s' : S} {rs middle : List Reply} {a : A} {t t' : Trace} {rest : List Reply}
        → body s rs ≡ record { outcome = ok (again s'); trace = t; rest = middle }
        → Rounds body n s' middle a t' rest
        → Rounds body (suc n) s rs a (t ++ t') rest

  loop-Rounds :
      (body : S → M (Next S A)) (fuel n : ℕ) (s : S) (rs : List Reply) (a : A) (t : Trace)
      (rest : List Reply)
      → Rounds body n s rs a t rest
      → n ≤ fuel
      → loop fuel body s rs ≡ record { outcome = ok a; trace = t; rest = rest }
  unfolding loop
  loop-Rounds body zero n s rs a t rest (last_round e) h = absurd (omega arith)
  loop-Rounds body zero n s rs a t rest (one_more e r) h = absurd (omega arith)
  loop-Rounds body (suc fuel) n s rs a t rest (last_round e) h = rw (loop, e)
  loop-Rounds body (suc fuel) n s rs a t rest
        (one_more {n = k} {s' = s'} {middle = middle} {t' = t'} e r) h =
      rw (loop, e, loop-Rounds body fuel k s' middle a t' rest r (omega arith))

  pub forever-Rounds :
      (body : S → M (Next S A)) (n : ℕ) (s : S) (rs : List Reply) (a : A) (t : Trace)
      (rest : List Reply)
      → Rounds body n s rs a t rest
      → n ≤ suc (length rs)
      → forever body s rs ≡ record { outcome = ok a; trace = t; rest = rest }
  unfolding forever
  forever-Rounds body n s rs a t rest r h = loop-Rounds body (suc (length rs)) n s rs a t rest r h

  -- The rule for loops: the rounds that follow run on fewer answers, and the claim holds of them.
  module _ (body : S → M (Next S A)) (R : S → List Reply → Result A → Type 0)
      (round : (s : S) (rs : List Reply) (k : S → M A)
        → ((s' : S) (rs' : List Reply) → length rs' < length rs → R s' rs' (k s' rs'))
        → R s rs ((body s >>= resume k) rs)) where
    loop_rule :
        (fuel : ℕ) (s : S) (rs : List Reply) → length rs < fuel → R s rs (loop fuel body s rs)
    unfolding loop
    loop_rule zero s rs h = absurd (omega arith)
    loop_rule (suc fuel) s rs h =
        round s rs (loop fuel body) (λ s' rs' lt. loop_rule fuel s' rs' (omega arith))

    pub forever_rule : (s : S) (rs : List Reply) → R s rs (forever body s rs)
    unfolding forever
    forever_rule s rs = loop_rule (suc (length rs)) s rs (omega arith)

  -- The same for a claim that needs no bound and holds of a loop out of fuel.
  module _ (body : S → M (Next S A)) (R : Result A → Type 0)
      (no_fuel : (rs : List Reply) → R (finish spins rs))
      (round : (s : S) (rs : List Reply) (k : S → M A)
        → ((s' : S) (rs' : List Reply) → R (k s' rs'))
        → R ((body s >>= resume k) rs)) where
    loop_any : (fuel : ℕ) (s : S) (rs : List Reply) → R (loop fuel body s rs)
    unfolding loop
    loop_any zero s rs = no_fuel rs
    loop_any (suc fuel) s rs = round s rs (loop fuel body) (loop_any fuel)

    pub forever_any : (s : S) (rs : List Reply) → R (forever body s rs)
    unfolding forever
    forever_any s rs = loop_any (suc (length rs)) s rs

-- How a `while ((n = read(...)) > 0)` ends: `n` is 0 or -1.
pub data Ended : Type 0 where
  at_eof on_error : Ended

module _ {S : Type 0} where
  abbrev pub read_round : M Got → (S → Bytes → M S) → S → M (Next S (S × Ended))
  read_round reader body s = do
    g ← reader
    elim g [
      | chunk b bs ↦ (do s' ← body s (b ∷ bs); pure (again s'))
      | eof ↦ pure (leave (s, at_eof))
      | failed ↦ pure (leave (s, on_error))
    ]

  -- The body is given the variables that it changes and the bytes of this round.
  unfoldable pub while_read : M Got → (S → Bytes → M S) → S → M (S × Ended)
  while_read reader body = forever (read_round reader body)

-- `for (int i = 0; i < n; i++)` where the body does not look at `i`.
unfoldable pub times : ℕ → M (Unit {0}) → M (Unit {0})
times zero body = pure tt
times (suc n) body = body >>= λ _. times n body

-- The same where the rounds hand a value on.
unfoldable pub iterate : {S : Type 0} → ℕ → (S → M S) → S → M S
iterate zero body s = pure s
iterate (suc n) body s = body s >>= iterate n body
