-- ===== src/Posix/Run.antt =====
-- Programs as functions of the kernel's answers.
--
-- A process runs on the list of the answers that the kernel gives to its calls, in their order. A
-- list that ends before the process does is a process that waits in its next call. So a run of an
-- endless server is the family of its finite prefixes.
use course_code.Base.{ℕ, List, [], ◌∷◌, ◌++◌, String}
use course_code.Posix.Call.{Reply, done, Call, Arg, Trace}

pub data Outcome (A : Type 0) : Type 0 where
  ok : A → Outcome A  -- returns
  exited : ℕ → Outcome A  -- `exit` with that status
  blocked : Outcome A  -- waits for an answer
  fault : Outcome A  -- undefined behaviour
  spins : Outcome A  -- goes on for ever and makes no call

pub record Result (A : Type 0) : Type 0 where
  pub outcome : Outcome A
  pub trace : Trace
  pub rest : List Reply

abbrev pub M : Type 0 → Type 0
M A = List Reply → Result A

module _ {A : Type 0} where
  abbrev pub finish : Outcome A → M A
  finish o rs = record { outcome = o; trace = []; rest = rs }

  abbrev pub pure : A → M A
  pure a = finish (ok a)

  abbrev pub exit : ℕ → M A
  exit n = finish (exited n)

-- A call waits for an answer.
abbrev pub sys : Call → M Reply
sys c [] = finish blocked []
sys c (r ∷ rs) = record { outcome = ok r; trace = record { call = c; reply = r } ∷ []; rest = rs }

-- An output of the C library: its result is read by no program.
abbrev pub emit : Call → M (Unit {0})
emit c rs = record {
  outcome = ok tt;
  trace = record { call = c; reply = done 0 [] } ∷ [];
  rest = rs;
}

abbrev pub printf : String → List Arg → M (Unit {0})
printf s l = emit (Call.printf s l)

abbrev pub fprintf_stderr : String → List Arg → M (Unit {0})
fprintf_stderr s l = emit (Call.fprintf_stderr s l)

abbrev pub perror : String → M (Unit {0})
perror s = emit (Call.perror s)

-- The trace of what came before stands in front.
abbrev pub after : {B : Type 0} → Trace → Result B → Result B
after es r = record { outcome = r.outcome; trace = es ++ r.trace; rest = r.rest }

module _ {A B : Type 0} where
  abbrev pub continue : Outcome A → Trace → List Reply → (A → M B) → Result B
  continue (ok a) es rs f = after es (f a rs)
  continue (exited n) es rs f = record { outcome = exited n; trace = es; rest = rs }
  continue blocked es rs f = record { outcome = blocked; trace = es; rest = rs }
  continue fault es rs f = record { outcome = fault; trace = es; rest = rs }
  continue spins es rs f = record { outcome = spins; trace = es; rest = rs }

  infixl 5 ◌>>=◌ ◌>>◌
  abbrev pub ◌>>=◌ : M A → (A → M B) → M B
  ◌>>=◌ m f rs = let r = m rs in continue r.outcome r.trace r.rest f

  abbrev pub ◌>>◌ : M A → M B → M B
  m >> k = m >>= λ _. k

-- A statement with no value.
abbrev pub stmt : M (Unit {0}) → M (Unit {0})
stmt m = m
