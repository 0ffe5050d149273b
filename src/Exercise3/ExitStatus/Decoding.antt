-- ===== src/Exercise3/ExitStatus/Decoding.antt =====
-- What `pr_exit` says of a status.
use course_code.Base.{
  ℕ, ◌+◌, ◌*◌, ◌<◌, ◌≤◌, ◌≡◌, refl, true, false, List, [], ◌∷◌, arith, ◌==◌, ltb, ◌/◌, ◌%◌,
}
use course_code.Posix.Call.{Reply, Arg, Call, done}
use course_code.Posix.Run.{ok}
use course_code.Exercise3.ExitStatus.{pr_exit}

-- How a child ended, or stopped.
pub data Fate : Type 0 where
  exit_code signal core stop : ℕ → Fate
  continue : Fate

-- The status that `waitpid` stores for it: the code above eight bits of 0; the signal, with 128
-- more if there is a core; the signal above 0x7f; 0xffff.
abbrev pub encode : Fate → ℕ
encode (exit_code n) = n * 256
encode (signal n) = n
encode (core n) = n + 128
encode (stop n) = n * 256 + 127
encode continue = 65535

-- An exit code is a byte; signals are the numbers from 1 to 126.
abbrev pub Real : Fate → Type 0
Real (exit_code n) = n < 256
Real (signal n) = (1 ≤ n) × (n < 127)
Real (core n) = (1 ≤ n) × (n < 127)
Real (stop n) = (1 ≤ n) × (n < 127)
Real continue = Unit

abbrev pub line : Fate → Call
line (exit_code n) = Call.printf "normally exited, status=%d\n" (Arg.int n ∷ [])
line (signal n) = Call.printf "killed by signal %d\n" (Arg.int n ∷ [])
line (core n) = Call.printf "killed by signal %d\n" (Arg.int n ∷ [])
line (stop n) = Call.printf "stopped by signal %d\n" (Arg.int n ∷ [])
line continue = Call.printf "continued\n" []

-- For every exit code, every signal with or without a core, every stop and a continuation,
-- `pr_exit` returns and prints the one line that names it, with its number.
pub pr_exit-encode :
    (fate : Fate) (rs : List Reply)
    → Real fate
    → pr_exit (encode fate) rs ≡ record {
      outcome = ok tt;
      trace = record { call = line fate; reply = done 0 [] } ∷ [];
      rest = rs;
    }
unfolding pr_exit
pr_exit-encode (exit_code n) rs h =
    let low : (n * 256 % 128 == 0) ≡ true = ground arith in
    let code : n * 256 / 256 % 256 ≡ n = ground arith in rw (low, code)
pr_exit-encode (signal n) rs h =
    let nonzero : (n % 128 == 0) ≡ false = ground arith in
    let above : ltb 1 (n % 128 + 1) ≡ true = ground arith in
    let below : ltb (n % 128 + 1) 128 ≡ true = ground arith in
    let number : n % 128 ≡ n = ground arith in rw (nonzero, above, below, number)
pr_exit-encode (core n) rs h =
    let nonzero : ((n + 128) % 128 == 0) ≡ false = ground arith in
    let above : ltb 1 ((n + 128) % 128 + 1) ≡ true = ground arith in
    let below : ltb ((n + 128) % 128 + 1) 128 ≡ true = ground arith in
    let number : (n + 128) % 128 ≡ n = ground arith in rw (nonzero, above, below, number)
pr_exit-encode (stop n) rs h =
    let low : (n * 256 + 127) % 128 ≡ 127 = ground arith in
    let byte : (n * 256 + 127) % 256 ≡ 127 = ground arith in
    let number : (n * 256 + 127) / 256 % 256 ≡ n = ground arith in rw (low, byte, number)
pr_exit-encode continue rs h = refl
