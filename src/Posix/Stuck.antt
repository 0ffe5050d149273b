-- ===== src/Posix/Stuck.antt =====
-- Programs that may give up with status 1, and programs that never come through.
use course_code.Base.{ℕ, String, ◌<◌, ◌≡◌, refl, List, [], ◌∷◌, length, arith}
use course_code.Posix.Call.{Bytes, Reply, done, fail, Errno, Call, Trace}
use course_code.Posix.Run.{
  Outcome, ok, exited, blocked, fault, spins, M, sys, pure, ◌>>=◌, continue,
}
use course_code.Posix.Loop.{resume, forever_rule}
use course_code.Posix.Program.{need, write_or_die}
use course_code.Posix.FileLock.{FileLock, lock_round, lock_wait}

-- A run that has not come through: it waits, gave up, or ran out of the memory.
abbrev pub Stuck : {A : Type 0} → Outcome A → Type 0
Stuck (ok _) = ⊥
Stuck (exited n) = n ≡ 1
Stuck blocked = Unit
Stuck fault = Unit
Stuck spins = ⊥

-- The parts that may come through.
abbrev Calm : {A : Type 0} → Outcome A → Type 0
Calm (ok _) = Unit
Calm o = Stuck o

behind_case :
    {A B : Type 0} (o : Outcome A) (t : Trace) (rest : List Reply) (f : A → M B)
    → Calm o
    → ((a : A) → Stuck (f a rest).outcome)
    → Stuck (continue o t rest f).outcome
behind_case (ok a) t rest f h g = g a
behind_case (exited n) t rest f h g = h
behind_case blocked t rest f h g = tt
behind_case fault t rest f h g = tt
behind_case spins t rest f h g = h

still_case :
    {A B : Type 0} (o : Outcome A) (t : Trace) (rest : List Reply) (f : A → M B)
    → Stuck o
    → Stuck (continue o t rest f).outcome
still_case (ok a) t rest f h = absurd h
still_case (exited n) t rest f h = h
still_case blocked t rest f h = tt
still_case fault t rest f h = tt
still_case spins t rest f h = h

then_case :
    {A B : Type 0} (o : Outcome A) (t : Trace) (rest : List Reply) (f : A → M B)
    → Calm o
    → ((a : A) → Calm (f a rest).outcome)
    → Calm (continue o t rest f).outcome
then_case (ok a) t rest f h g = g a
then_case (exited n) t rest f h g = h
then_case blocked t rest f h g = tt
then_case fault t rest f h g = tt
then_case spins t rest f h g = h

pub record Tame {A : Type 0} (m : M A) : Type 0 where
  pub calm : (rs : List Reply) → Calm (m rs).outcome

pub Tame-bind :
    {A B : Type 0} {m : M A} (f : A → M B) → Tame m → ((a : A) → Tame (f a)) → Tame (m >>= f)
Tame-bind {m = m} f h n = record {
  calm = λ rs.
      then_case (m rs).outcome (m rs).trace (m rs).rest f (h.calm rs) (λ a. (n a).calm (m rs).rest);
}

-- A program that comes through on no list of answers.
pub record Never {A : Type 0} (m : M A) : Type 0 where
  pub stuck : (rs : List Reply) → Stuck (m rs).outcome

pub Never-first : {A B : Type 0} {m : M A} (f : A → M B) → Never m → Never (m >>= f)
Never-first {m = m} f n = record {
  stuck = λ rs. still_case (m rs).outcome (m rs).trace (m rs).rest f (n.stuck rs);
}

pub Never-behind :
    {A B : Type 0} {m : M A} (f : A → M B) → Tame m → ((a : A) → Never (f a)) → Never (m >>= f)
Never-behind {m = m} f h n = record {
  stuck = λ rs.
      behind_case (m rs).outcome (m rs).trace (m rs).rest f (h.calm rs)
        (λ a. (n a).stuck (m rs).rest);
}

pub pure-Tame : {A : Type 0} (a : A) → Tame (pure a)
pure-Tame a = record { calm = λ rs. tt }

need_case : (str : String) (c : Call) (rs : List Reply) → Calm (need str c rs).outcome
unfolding need
need_case str c [] = tt
need_case str c (done n l ∷ rs) = tt
need_case str c (fail e ∷ rs) = refl

pub need-Tame : (str : String) (c : Call) → Tame (need str c)
need-Tame str c = record { calm = need_case str c }

write_case :
    (str : String) (fd : ℕ) (buf : Bytes) (rs : List Reply)
    → Calm (write_or_die str fd buf rs).outcome
unfolding write_or_die
write_case str fd buf [] = tt
write_case str fd buf (done n l ∷ rs) = tt
write_case str fd buf (fail e ∷ rs) = refl

pub write_or_die-Tame : (str : String) (fd : ℕ) (buf : Bytes) → Tame (write_or_die str fd buf)
write_or_die-Tame str fd buf = record { calm = write_case str fd buf }

sys_case : (c : Call) (rs : List Reply) → Calm (sys c rs).outcome
sys_case c [] = tt
sys_case c (r ∷ rs) = tt

pub sys-Tame : (c : Call) → Tame (sys c)
sys-Tame c = record { calm = sys_case c }

lock_step :
    (str : String) (lock : FileLock) (s : Unit {0}) (rs : List Reply) (k : Unit {0} → M (Unit {0}))
    → ((s' : Unit {0}) (rs' : List Reply) → length rs' < length rs → Calm (k s' rs').outcome)
    → Calm ((lock_round str lock s >>= resume k) rs).outcome
unfolding lock_round
lock_step str lock s [] k ih = tt
lock_step str lock s (done n l ∷ rs) k ih = tt
lock_step str lock s (fail Errno.eintr ∷ rs) k ih = ih tt rs (omega arith)
lock_step str lock s (fail e ∷ rs) k ih = refl

lock_wait-case :
    (str : String) (lock : FileLock) (rs : List Reply) → Calm (lock_wait str lock rs).outcome
unfolding lock_wait
lock_wait-case str lock =
    forever_rule (lock_round str lock) (λ _ _ r. Calm r.outcome) (lock_step str lock) tt

pub lock_wait-Tame : (str : String) (lock : FileLock) → Tame (lock_wait str lock)
lock_wait-Tame str lock = record { calm = lock_wait-case str lock }
