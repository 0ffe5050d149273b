-- ===== src/Posix/Echo/Staying.antt =====
-- Reading loops that do not exit, and take an answer.
use course_code.Base.{ℕ, suc, inl, inr, List-cases, ◌≤◌, ◌<◌, List, [], ◌∷◌, arith, length, take}
use course_code.Posix.Call.{Bytes, Reply, done, fail, Call, Event, Trace}
use course_code.Posix.Run.{Outcome, ok, exited, blocked, fault, spins, M, pure, ◌>>=◌, continue}
use course_code.Posix.Io.{taken}
use course_code.Posix.Loop.{Next, again, resume, forever_rule, Ended, read_round, while_read}
use course_code.Posix.Relay.{Emits}
use course_code.Posix.Program.{write_unchecked}

-- A run that returns has taken an answer, and it does not exit.
abbrev pub Shrinks : {A : Type 0} → ℕ → Outcome A → List Reply → Type 0
Shrinks n (ok _) rest = length rest < n
Shrinks n (exited _) rest = ⊥
Shrinks n blocked rest = Unit
Shrinks n fault rest = Unit
Shrinks n spins rest = Unit

Shrinks-le :
    {A : Type 0} (o : Outcome A) (rest : List Reply) (m n : ℕ)
    → m ≤ n
    → Shrinks m o rest
    → Shrinks n o rest
Shrinks-le (ok _) rest m n le h = omega arith
Shrinks-le (exited _) rest m n le h = absurd h
Shrinks-le blocked rest m n le h = tt
Shrinks-le fault rest m n le h = tt
Shrinks-le spins rest m n le h = tt

-- A run that does not exit.
abbrev pub Stays : {A : Type 0} → Outcome A → Type 0
Stays (exited _) = ⊥
Stays (ok _) = Unit
Stays blocked = Unit
Stays fault = Unit
Stays spins = Unit

Stays-continue :
    {A B : Type 0} (o : Outcome A) (t : Trace) (rest : List Reply) (g : A → M B)
    → Stays o
    → ((a : A) → Stays (g a rest).outcome)
    → Stays (continue o t rest g).outcome
Stays-continue (ok a) t rest g h later = later a
Stays-continue (exited _) t rest g h later = absurd h
Stays-continue blocked t rest g h later = tt
Stays-continue fault t rest g h later = tt
Stays-continue spins t rest g h later = tt

pub Stays-bind :
    {A B : Type 0} (m : M A) (g : A → M B) (rs : List Reply)
    → Stays (m rs).outcome
    → ((a : A) (rs' : List Reply) → Stays (g a rs').outcome)
    → Stays ((m >>= g) rs).outcome
Stays-bind m g rs h later = Stays-continue (m rs).outcome _ _ g h (λ a. later a _)

pub write_unchecked-Stays :
    (fd : ℕ) (buf : Bytes) (rs : List Reply) → Stays (write_unchecked fd buf rs).outcome
unfolding write_unchecked
write_unchecked-Stays fd buf [] = tt
write_unchecked-Stays fd buf (r ∷ rs) = tt

module _ {X : Type 0} (out : Event → List X) (fd : ℕ) {S : Type 0} (count : ℕ) (f : Bytes → List X)
    (body : S → Bytes → M S)
    (emits : (s : S) (buf : Bytes) (rs : List Reply) → Emits out fd rs (f buf) (body s buf rs))
    (stays : (s : S) (buf : Bytes) (rs : List Reply) → Stays (body s buf rs).outcome)
    (c : Call) where
  abbrev Rest : Type 0
  Rest = S → M (S × Ended)

  after_body :
      (k : Rest) (rs : List Reply) (e : Event)
      → ((s' : S) (rs' : List Reply)
          → length rs' < suc (length rs)
          → Shrinks (length rs') (k s' rs').outcome (k s' rs').rest)
      → (o : Outcome S) (t : Trace) (rest : List Reply) → length rest ≤ length rs
      → Stays o
      → let x =
          ((λ (_ : List Reply). record { outcome = o; trace = t; rest = rest }) >>= λ s'.
          pure {A = Next S (S × Ended)} (again s'))
            rs in
        let y = continue x.outcome (e ∷ x.trace) x.rest (resume k) in
        Shrinks (suc (length rs)) y.outcome y.rest
  after_body k rs e ih (ok s') t rest le stay =
      Shrinks-le (k s' rest).outcome (k s' rest).rest (length rest) (suc (length rs)) (omega arith)
        (ih s' rest (omega arith))
  after_body k rs e ih (exited m) t rest le stay = absurd stay
  after_body k rs e ih blocked t rest le stay = tt
  after_body k rs e ih fault t rest le stay = tt
  after_body k rs e ih spins t rest le stay = tt

  round :
      (s : S) (rs : List Reply) (k : Rest)
      → ((s' : S) (rs' : List Reply)
          → length rs' < length rs
          → Shrinks (length rs') (k s' rs').outcome (k s' rs').rest)
      → let y = (read_round (taken count c) body s >>= resume k) rs in
        Shrinks (length rs) y.outcome y.rest
  round s [] k ih = tt
  round s (fail e ∷ rs) k ih = omega arith
  round s (done n l ∷ rs) k ih = elim (List-cases (take count l)) [
    | inl e ↦ rw e (omega arith)
    | inr (b, bs, e) ↦
        rw e (after_body k rs _ ih _ _ _ (emits s (b ∷ bs) rs).shorter (stays s (b ∷ bs) rs))
  ]

  pub while_taken-Shrinks :
      (s : S) (rs : List Reply)
      → Shrinks
          (length rs)
          (while_read (taken count c) body s rs).outcome
          (while_read (taken count c) body s rs).rest
  unfolding while_read
  while_taken-Shrinks =
      forever_rule (read_round (taken count c) body)
        (λ _ rs r. Shrinks (length rs) r.outcome r.rest) round
