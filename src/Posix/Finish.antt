-- ===== src/Posix/Finish.antt =====
-- Programs that exit with status 0 when their loop is over.
use course_code.Base.{ℕ, zero, suc, ◌≤◌, ◌≡◌, List, [], ◌++◌, append-nil, arith}
use course_code.Posix.Call.{Bytes, Reply, Call, Event, Trace}
use course_code.Posix.Run.{Result, Outcome, ok, exited, blocked, fault, spins, M, ◌>>=◌, continue}
use course_code.Posix.Io.{gather, gather-append, read, chunks, chunks_by}
use course_code.Posix.Loop.{Ended, while_read}
use course_code.Posix.Relay.{
  Fits, Fits-append, IsPrefix, Relays, relayed, Emits, IsPrefix-append, while_read-Relays,
}

-- A run that is over: with status 0 if all of `wanted` went out, with status 1 or waiting if a
-- front part did.
abbrev pub Complete : {A X : Type 0} → Outcome A → List X → List X → Type 0
Complete (ok _) made wanted = ⊥
Complete (exited zero) made wanted = made ≡ wanted
Complete (exited (suc n)) made wanted = (n ≡ 0) × IsPrefix made wanted
Complete blocked made wanted = IsPrefix made wanted
Complete fault made wanted = ⊥
Complete spins made wanted = ⊥

-- Exits with one of the statuses, or waits.
abbrev pub Stops : {A : Type 0} → Outcome A → Type 0
Stops (ok _) = ⊥
Stops (exited n) = n ≤ 1
Stops blocked = Unit
Stops fault = ⊥
Stops spins = ⊥

IsPrefix-of_eq : {X : Type 0} (made wanted : List X) → made ≡ wanted → IsPrefix made wanted
IsPrefix-of_eq made wanted p = ([], rw (append-nil made) p)

Complete-of_fits :
    {B X : Type 0} (o : Outcome B) (made wanted : List X)
    → Stops o
    → made ≡ wanted
    → Complete o made wanted
Complete-of_fits (exited zero) made wanted h p = p
Complete-of_fits (exited (suc n)) made wanted h p = (omega arith, IsPrefix-of_eq made wanted p)
Complete-of_fits blocked made wanted h p = IsPrefix-of_eq made wanted p
Complete-of_fits (ok _) made wanted h p = absurd h
Complete-of_fits fault made wanted h p = absurd h
Complete-of_fits spins made wanted h p = absurd h

pub Complete-of_success :
    {A X : Type 0} (o : Outcome A) (made wanted : List X)
    → o ≡ exited 0
    → Complete o made wanted
    → made ≡ wanted
Complete-of_success (exited zero) made wanted e h = h
Complete-of_success (exited (suc n)) made wanted e h = absurd (cc)
Complete-of_success (ok _) made wanted e h = absurd h
Complete-of_success blocked made wanted e h = absurd (cc)
Complete-of_success fault made wanted e h = absurd h
Complete-of_success spins made wanted e h = absurd h

-- What came before went out in full.
pub Complete-append :
    {A X : Type 0} (o : Outcome A) {first front : List X} (made wanted : List X)
    → first ≡ front
    → Complete o made wanted
    → Complete o (first ++ made) (front ++ wanted)
Complete-append (ok _) made wanted p h = absurd h
Complete-append (exited zero) made wanted p h = rw (p, h)
Complete-append (exited (suc n)) made wanted p (one, h) = (one, IsPrefix-append made wanted p h)
Complete-append blocked made wanted p h = IsPrefix-append made wanted p h
Complete-append fault made wanted p h = h
Complete-append spins made wanted p h = h

module _ (out : Event → Bytes) (fd : ℕ) where
  -- All that the run puts out is `f` of what it reads, and it exits with status 0 only if it put
  -- out all of it.
  abbrev pub Finishes : {A : Type 0} → (Bytes → Bytes) → Result A → Type 0
  Finishes f r = Complete r.outcome (gather out r.trace) (relayed f (chunks fd r.trace))

  -- What comes behind the loop puts nothing out, reads nothing, and exits.
  pub record Closes {A : Type 0} (r : Result A) : Type 0 where
    pub mute : gather out r.trace ≡ []
    pub deaf : chunks fd r.trace ≡ []
    pub stops : Stops r.outcome

  Closes-case :
      {A B : Type 0} (f : Bytes → Bytes) (o : Outcome A) (t : Trace) (rest : List Reply)
      (g : A → M B)
      → Fits o (gather out t) (relayed f (chunks fd t))
      → ((a : A) (rs : List Reply) → Closes (g a rs))
      → Finishes f (continue o t rest g)
  Closes-case f (ok a) t rest g fits closes =
      let c = closes a rest in
      rw
        (
          gather-append out t (g a rest).trace,
          gather-append (chunks_by fd) t (g a rest).trace,
          c.mute,
          c.deaf,
          append-nil (gather out t),
          append-nil (chunks fd t),
        )
        (Complete-of_fits (g a rest).outcome _ _ c.stops fits)
  Closes-case f (exited zero) t rest g (one, fits) closes = absurd (omega arith)
  Closes-case f (exited (suc n)) t rest g (one, fits) closes = (omega arith, fits)
  Closes-case f blocked t rest g fits closes = fits
  Closes-case f fault t rest g fits closes = absurd fits
  Closes-case f spins t rest g fits closes = absurd fits

  pub Finishes-of_Relays :
      {A B : Type 0} (f : Bytes → Bytes) (m : M A) (g : A → M B) (rs : List Reply)
      → Relays out fd f (m rs)
      → ((a : A) (rs' : List Reply) → Closes (g a rs'))
      → Finishes f ((m >>= g) rs)
  Finishes-of_Relays f m g rs = Closes-case f _ _ _ g

  -- A reading loop with what comes behind it.
  pub while_read-Finishes :
      {S B : Type 0} (count : ℕ) (f : Bytes → Bytes) (body : S → Bytes → M S) (s : S)
      (g : S × Ended → M B) (rs : List Reply)
      → ((s : S) (buf : Bytes) (rs : List Reply) → Emits out fd rs (f buf) (body s buf rs))
      → ((r : Reply) → out (record { call = Call.read fd count; reply = r }) ≡ [])
      → ((a : S × Ended) (rs' : List Reply) → Closes (g a rs'))
      → Finishes f ((while_read (read fd count) body s >>= g) rs)
  while_read-Finishes count f body s g rs emits silent =
      Finishes-of_Relays f (while_read (read fd count) body s) g rs
        (while_read-Relays out fd count f body emits silent s rs)

  quiet_case :
      {A B : Type 0} (f : Bytes → Bytes) (o : Outcome A) (t : Trace) (rest : List Reply)
      (g : A → M B)
      → Fits o (gather out t) (relayed f (chunks fd t))
      → ((a : A) (rs : List Reply) → Emits out fd rs [] (g a rs))
      → Relays out fd f (continue o t rest g)
  quiet_case f (ok a) t rest g fits quiet =
      let e = quiet a rest in
      rw
        (
          gather-append out t (g a rest).trace,
          gather-append (chunks_by fd) t (g a rest).trace,
          e.quiet,
          append-nil (chunks fd t),
          ← append-nil (relayed f (chunks fd t)),
        )
        (Fits-append (g a rest).outcome _ _ fits e.fits)
  quiet_case f (exited n) t rest g fits quiet = fits
  quiet_case f blocked t rest g fits quiet = fits
  quiet_case f fault t rest g fits quiet = absurd fits
  quiet_case f spins t rest g fits quiet = absurd fits

  -- What comes behind puts nothing out and reads nothing.
  pub Relays-quiet :
      {A B : Type 0} (f : Bytes → Bytes) (m : M A) (g : A → M B) (rs : List Reply)
      → Relays out fd f (m rs)
      → ((a : A) (rs' : List Reply) → Emits out fd rs' [] (g a rs'))
      → Relays out fd f ((m >>= g) rs)
  Relays-quiet f m g rs = quiet_case f _ _ _ g
