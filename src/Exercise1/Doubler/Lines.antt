-- ===== src/Exercise1/Doubler/Lines.antt =====
-- Which lines the doubler finds, and what it puts out.
use course_code.Base.{
  ℕ, zero, suc, ◌+◌, ◌-◌, ◌≤◌, ◌<◌, ◌≡◌, refl, ◌≢◌, inl, inr, Bool-cases, none, some, List, [], ◌∷◌,
  ◌++◌, ap, arith, length, ◌==◌, append-nil, length-append, ◌⊎◌,
}
use course_code.Posix.Call.{Bytes, Call, Reply, Event, done, fail}
use course_code.Posix.Io.{gather}
use course_code.Posix.Loop.{times}
use course_code.Posix.Relay.{Fits, relayed, Emits, Emits-bind, Emits-times}
use course_code.Exercise1.Doubler.{
  split_line, fgets, cut, put, max_line, double_lines, double_print,
}

-- A newline only at the end.
abbrev pub Whole : Bytes → Type 0
Whole [] = Unit
Whole (c ∷ []) = Unit
Whole (c ∷ d ∷ s) = (c ≢ b'\n') × Whole (d ∷ s)

Whole-cons : (c : ℕ) (s : Bytes) → c ≢ b'\n' → Whole s → Whole (c ∷ s)
Whole-cons c [] ne h = tt
Whole-cons c (d ∷ s) ne h = (ne, h)

abbrev pub last_of : Bytes → ℕ
last_of [] = 0
last_of (c ∷ []) = c
last_of (c ∷ d ∷ s) = last_of (d ∷ s)

last_of-cons : (c : ℕ) (s : Bytes) → last_of s ≡ b'\n' → last_of (c ∷ s) ≡ b'\n'
last_of-cons c [] e = absurd (omega (arith, e))
last_of-cons c (d ∷ s) e = e

-- A line with what is behind it: it is cut off at a newline, at `n` bytes, or at the end.
abbrev pub Line : (n : ℕ) → (line more : Bytes) → Type 0
Line n line more =
    Whole line × (length line ≤ n) × ((last_of line ≡ b'\n') ⊎ ((length line ≡ n) ⊎ (more ≡ [])))

Line-cons :
    (n c : ℕ) (line more : Bytes) → c ≢ b'\n' → Line n line more → Line (suc n) (c ∷ line) more
Line-cons n c line more ne (whole, size, inl e) =
    (Whole-cons c line ne whole, omega arith, inl (last_of-cons c line e))
Line-cons n c line more ne (whole, size, inr (inl e)) =
    (Whole-cons c line ne whole, omega arith, inr (inl (omega arith)))
Line-cons n c line more ne (whole, size, inr (inr e)) =
    (Whole-cons c line ne whole, omega arith, inr (inr e))

split_line_lem :
    (n : ℕ) (s : Bytes)
    → ((split_line n s).0 ++ (split_line n s).1 ≡ s) × Line n (split_line n s).0 (split_line n s).1
unfolding split_line
split_line_lem zero s = (refl, (tt, omega arith, inr (inl refl)))
split_line_lem (suc n) [] = (refl, (tt, omega arith, inr (inr refl)))
split_line_lem (suc n) (c ∷ s) = elim (Bool-cases (c == b'\n')) [
  | inl e ↦ rw e (refl, (tt, omega arith, inl (ground arith)))
  | inr e ↦
      let (join, line) = split_line_lem n s in
      rw e (
        ap (λ l. c ∷ l) join,
        Line-cons n c (split_line n s).0 (split_line n s).1 (ground arith) line,
      )
]

split_line-le : (n : ℕ) (s : Bytes) → length (split_line n s).1 ≤ length s
split_line-le n s =
    let (join, line) = split_line_lem n s in
    let size = length-append (split_line n s).0 (split_line n s).1 in
    let all = ap length join in omega (arith, size, all)

-- It takes a byte.
split_line-shorter : (n c : ℕ) (s : Bytes) → 1 ≤ n → length (split_line n (c ∷ s)).1 ≤ length s
unfolding split_line
split_line-shorter zero c s h = absurd (omega arith)
split_line-shorter (suc n) c s h = elim (Bool-cases (c == b'\n')) [
  | inl e ↦ rw e (omega arith)
  | inr e ↦ rw e (split_line-le n s)
]

enough_fuel :
    (n c : ℕ) (s : Bytes) (fuel : ℕ)
    → 1 ≤ n
    → suc (length s) < suc fuel
    → length (split_line n (c ∷ s)).1 < fuel
enough_fuel n c s fuel some_bytes h =
    let shorter = split_line-shorter n c s some_bytes in omega (arith, h, shorter)

-- The lines of a stream.
unfoldable pub lines : (fuel : ℕ) → (stream : Bytes) → List Bytes
unfolding fgets
lines zero s = []
lines (suc fuel) s = elim (fgets s) [ none ↦ [] | some (line, more) ↦ line ∷ lines fuel more ]

abbrev pub joined : List Bytes → Bytes
joined [] = []
joined (l ∷ ls) = l ++ joined ls

abbrev pub Lines : (n : ℕ) → List Bytes → Type 0
Lines n [] = Unit
Lines n (l ∷ ls) = Line n l (joined ls) × Lines n ls

lines_lem :
    (fuel : ℕ) (s : Bytes)
    → length s < fuel
    → (joined (lines fuel s) ≡ s) × Lines (max_line - 1) (lines fuel s)
unfolding lines fgets
lines_lem zero s h = absurd (omega arith)
lines_lem (suc fuel) [] h = (refl, tt)
lines_lem (suc fuel) (c ∷ s) h =
    let (join, line) = split_line_lem (max_line - 1) (c ∷ s) in
    let (rest, all) =
      lines_lem fuel (split_line (max_line - 1) (c ∷ s)).1
        (enough_fuel (max_line - 1) c s fuel (omega arith) h) in
    (rw rest join, (rw rest line, all))

abbrev pub put_by : Event → Bytes
put_by e = elim e.call [ Call.fputs_stdout bs ↦ bs | _ ↦ [] ]

put-Emits : (buf : Bytes) (rs : List Reply) → Emits put_by 0 rs (cut buf) (put buf rs)
unfolding put
put-Emits buf [] = record { fits = (cut buf, refl); quiet = refl; shorter = omega arith }
put-Emits buf (done n l ∷ rs) = record {
  fits = append-nil (cut buf);
  quiet = refl;
  shorter = omega arith;
}
put-Emits buf (fail e ∷ rs) = record {
  fits = (refl, ([], rw (append-nil (cut buf), append-nil (cut buf))));
  quiet = refl;
  shorter = omega arith;
}

twice-Emits :
    (buf : Bytes) (rs : List Reply) → Emits put_by 0 rs (cut buf ++ cut buf) (times 2 (put buf) rs)
unfolding relayed
twice-Emits buf rs =
    let e = Emits-times put_by 0 2 (cut buf) (put buf) (put-Emits buf) rs in
    rw (append-nil (cut buf)) at e

double_lines-Emits :
    (fuel : ℕ) (s : Bytes) (rs : List Reply)
    → length s < fuel
    → Emits put_by 0 rs (relayed (λ l. cut l ++ cut l) (lines fuel s)) (double_lines fuel s rs)
unfolding double_lines lines fgets relayed
double_lines-Emits zero s rs h = absurd (omega arith)
double_lines-Emits (suc fuel) [] rs h = record { fits = refl; quiet = refl; shorter = omega arith }
double_lines-Emits (suc fuel) (c ∷ s) rs h =
    let line = (split_line (max_line - 1) (c ∷ s)).0 in
    let more = (split_line (max_line - 1) (c ∷ s)).1 in
    Emits-bind put_by 0 rs (times 2 (put line)) (λ _. double_lines fuel more) (twice-Emits line rs)
      (λ _ rs'.
        double_lines-Emits fuel more rs' (enough_fuel (max_line - 1) c s fuel (omega arith) h))

-- The stream is taken apart into lines, which make it again: each is cut off behind its only
-- newline, at 4095 bytes or at the end of the stream. On every list of answers the doubler puts out
-- each line twice, in order, up to the first zero in it: all of them, if it returns; a front part, if
-- `fputs` failed and it exits with status 1, or if it still waits.
pub double_print-Lines :
    (s : Bytes) (rs : List Reply)
    → let ls = lines (length s + 1) s in
      let r = double_print s rs in
      (joined ls ≡ s)
      × Lines (max_line - 1) ls
      × Fits r.outcome (gather put_by r.trace) (relayed (λ l. cut l ++ cut l) ls)
unfolding double_print
double_print-Lines s rs =
    let (join, all) = lines_lem (length s + 1) s (omega arith) in
    (join, all, (double_lines-Emits (length s + 1) s rs (omega arith)).fits)
