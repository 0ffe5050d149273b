-- ===== src/Posix/Relay.antt =====
-- A loop that reads and hands on: what went out is a function of what came in, piece by piece.
pub mod Pieces
use course_code.Base.{
  ℕ, zero, replicate, drop, take-append-drop, inl, inr, List-cases, suc, ◌≤◌, ◌<◌, ◌≡◌, refl, List,
  [], ◌∷◌, ◌++◌, append_assoc, append-nil, arith, length, take,
}
use course_code.Posix.Call.{Bytes, Reply, done, fail, Call, Event, Trace}
use course_code.Posix.Run.{
  Result, Outcome, ok, exited, blocked, fault, spins, M, pure, ◌>>=◌, continue,
}
use course_code.Posix.Io.{
  read, taken, got, pieces, gather, gather-append, chunks, chunks_by, ==_refl,
}
use course_code.Posix.Loop.{Next, again, resume, forever_rule, Ended, read_round, while_read, times}
unfoldable pub use course_code.Posix.Relay.Pieces.{relayed}
pub use course_code.Posix.Relay.Pieces.{
  IsPrefix, Fits, relayed-append, KeepsUp, Hands, KeepsUp-IsPrefix, Hands-Fits, KeepsUp-all,
  KeepsUp-one, KeepsUp-append, Hands-append, IsPrefix-take, IsPrefix-append, IsPrefix-more,
  Fits-append,
}

module _ {X : Type 0} (out : Event → List X) (fd : ℕ) where
  -- A run that puts out `wanted` and reads nothing.
  pub record Emits {A : Type 0} (rs : List Reply) (wanted : List X) (r : Result A) : Type 0 where
    pub fits : Fits r.outcome (gather out r.trace) wanted
    pub quiet : chunks fd r.trace ≡ []
    pub shorter : length r.rest ≤ length rs

  -- All that the run puts out is `f` of what it reads.
  abbrev pub Relays : {A : Type 0} → (Bytes → List X) → Result A → Type 0
  Relays f r = Fits r.outcome (gather out r.trace) (relayed f (chunks fd r.trace))

  -- The same, piece by piece: a run that does not go on has handed on all but a part of the last one.
  abbrev pub Passes : {A : Type 0} → (Bytes → List X) → Result A → Type 0
  Passes f r = Hands r.outcome f (gather out r.trace) (chunks fd r.trace)

  Emits-continue :
      {A B : Type 0} (rs : List Reply) {first second : List X} (o : Outcome A) (t : Trace)
      (rest : List Reply) (g : A → M B)
      → Emits rs first (record { outcome = o; trace = t; rest = rest })
      → ((a : A) → Emits rest second (g a rest))
      → Emits rs (first ++ second) (continue o t rest g)
  Emits-continue rs (ok a) t rest g em next = record {
    fits =
        rw (gather-append out t (g a rest).trace)
          (Fits-append (g a rest).outcome _ _ em.fits (next a).fits);
    quiet = rw (gather-append (chunks_by fd) t (g a rest).trace, em.quiet) (next a).quiet;
    shorter = omega (arith, em.shorter, (next a).shorter);
  }
  Emits-continue rs {first} {second} (exited n) t rest g em next = record {
    fits = (em.fits.0, IsPrefix-more (gather out t) first second em.fits.1);
    quiet = em.quiet;
    shorter = em.shorter;
  }
  Emits-continue rs {first} {second} blocked t rest g em next = record {
    fits = IsPrefix-more (gather out t) first second em.fits;
    quiet = em.quiet;
    shorter = em.shorter;
  }
  Emits-continue rs fault t rest g em next = absurd em.fits
  Emits-continue rs spins t rest g em next = absurd em.fits

  -- One thing after another.
  pub Emits-bind :
      {A B : Type 0} (rs : List Reply) {first second : List X} (m : M A) (g : A → M B)
      → Emits rs first (m rs)
      → ((a : A) (rs' : List Reply) → Emits rs' second (g a rs'))
      → Emits rs (first ++ second) ((m >>= g) rs)
  Emits-bind rs m g em next = Emits-continue rs _ _ _ g em (λ a. next a _)

  Relays-after :
      {A B : Type 0} (f : Bytes → List X) (b : B) (o : Outcome A) (t : Trace) (rest : List Reply)
      → Relays f (record { outcome = o; trace = t; rest = rest })
      → Relays f (continue o t rest (λ _. pure b))
  Relays-after f b (ok a) t rest h = rw (append-nil t) h
  Relays-after f b (exited n) t rest h = h
  Relays-after f b blocked t rest h = h
  Relays-after f b fault t rest h = h
  Relays-after f b spins t rest h = h

  -- A function that returns once its loop is over.
  pub Relays-then :
      {A B : Type 0} (f : Bytes → List X) (b : B) (m : M A) (rs : List Reply)
      → Relays f (m rs)
      → Relays f ((m >>= λ _. pure b) rs)
  Relays-then f b m rs = Relays-after f b _ _ _

  module _ {S : Type 0} (count : ℕ) (f : Bytes → List X) (body : S → Bytes → M S)
      (emits : (s : S) (buf : Bytes) (rs : List Reply) → Emits rs (f buf) (body s buf rs))
      (c : Call) (silent : (r : Reply) → out (record { call = c; reply = r }) ≡ [])
      (heard : (r : Reply)
        → chunks_by fd (record { call = c; reply = r }) ≡ pieces (got count r)) where
    abbrev Rest : Type 0
    Rest = S → M (S × Ended)

    -- A round behind its `read`.
    abbrev handed : ℕ → List ℕ → Rest → M S → M (S × Ended)
    handed n l k m rs =
        let r = (m >>= λ s'. pure {A = Next S (S × Ended)} (again s')) rs in
        continue r.outcome (record { call = c; reply = done n l } ∷ r.trace) r.rest (resume k)

    -- The round goes on after its `read`, and the rounds behind it keep the relation.
    after_body :
        (n : ℕ) (l : List ℕ) (k : Rest) (rs : List Reply) (b : ℕ) (bs : Bytes)
        → take count l ≡ b ∷ bs
        → ((s' : S) (rs' : List Reply) → length rs' < suc (length rs) → Passes f (k s' rs'))
        → (o : Outcome S) (t : Trace) (rest : List Reply)
        → Emits rs (f (b ∷ bs)) (record { outcome = o; trace = t; rest = rest })
        → Passes f (handed n l k (λ _. record { outcome = o; trace = t; rest = rest }) rs)
    unfolding relayed
    after_body n l k rs b bs e ih (ok s') t rest em =
        rw
          (
            silent (done n l),
            heard (done n l),
            e,
            append-nil t,
            gather-append out t (k s' rest).trace,
            gather-append (chunks_by fd) t (k s' rest).trace,
            em.quiet,
          )
          (Hands-append (k s' rest).outcome f _ _ ((b ∷ bs) ∷ []) _
            (rw (append-nil (f (b ∷ bs))) em.fits) (ih s' rest (omega (arith, em.shorter))))
    after_body n l k rs b bs e ih (exited m) t rest em =
        rw (silent (done n l), heard (done n l), e, em.quiet)
          (em.fits.0, KeepsUp-one f _ (b ∷ bs) em.fits.1)
    after_body n l k rs b bs e ih blocked t rest em =
        rw (silent (done n l), heard (done n l), e, em.quiet) (KeepsUp-one f _ (b ∷ bs) em.fits)
    after_body n l k rs b bs e ih fault t rest em = absurd em.fits
    after_body n l k rs b bs e ih spins t rest em = absurd em.fits

    round :
        (s : S) (rs : List Reply) (k : Rest)
        → ((s' : S) (rs' : List Reply) → length rs' < length rs → Passes f (k s' rs'))
        → Passes f ((read_round (taken count c) body s >>= resume k) rs)
    unfolding relayed
    round s [] k ih = KeepsUp-all f [] [] refl
    round s (fail e ∷ rs) k ih = rw (silent (fail e), heard (fail e))
    round s (done n l ∷ rs) k ih = elim (List-cases (take count l)) [
      | inl e ↦ rw (e, silent (done n l), heard (done n l), e)
      | inr (b, bs, e) ↦ rw e (after_body n l k rs b bs e ih _ _ _ (emits s (b ∷ bs) rs))
    ]

    pub while_taken-Passes :
        (s : S) (rs : List Reply) → Passes f (while_read (taken count c) body s rs)
    unfolding while_read
    while_taken-Passes = forever_rule (read_round (taken count c) body) (λ _ _ r. Passes f r) round

    -- What the loop puts out is `f` of what it took, on every list of answers.
    pub while_taken-Relays :
        (s : S) (rs : List Reply) → Relays f (while_read (taken count c) body s rs)
    while_taken-Relays s rs =
        let r = while_read (taken count c) body s rs in
        Hands-Fits r.outcome f (gather out r.trace) (chunks fd r.trace) (while_taken-Passes s rs)

  module _ {S : Type 0} (count : ℕ) (f : Bytes → List X) (body : S → Bytes → M S)
      (emits : (s : S) (buf : Bytes) (rs : List Reply) → Emits rs (f buf) (body s buf rs))
      (silent : (r : Reply) → out (record { call = Call.read fd count; reply = r }) ≡ []) where
    -- What the loop puts out is `f` of what it read, on every list of answers.
    pub while_read-Relays :
        (s : S) (rs : List Reply) → Relays f (while_read (read fd count) body s rs)
    while_read-Relays =
        while_taken-Relays count f body emits (Call.read fd count) silent
          (λ r. rw (==_refl fd) refl)

    -- The same of a function that returns once the loop is over.
    pub loop-Relays :
        {B : Type 0} (s : S) (b : B) (rs : List Reply)
        → Relays f ((while_read (read fd count) body s >>= λ _. pure b) rs)
    loop-Relays s b rs =
        Relays-then f b (while_read (read fd count) body s) rs (while_read-Relays s rs)

  -- `n` rounds put out `n` copies.
  pub Emits-times :
      (n : ℕ) (buf : List X) (m : M (Unit {0}))
      → ((rs : List Reply) → Emits rs buf (m rs))
      → (rs : List Reply) → Emits rs (relayed (λ _. buf) (replicate n [])) (times n m rs)
  unfolding times relayed
  Emits-times zero buf m em rs = record { fits = refl; quiet = refl; shorter = omega arith }
  Emits-times (suc n) buf m em rs =
      Emits-bind rs m (λ _. times n m) (em rs) (λ _ rs'. Emits-times n buf m em rs')
