-- ===== src/Exercise1/Options/Reading.antt =====
-- One file copied by question-4.c and question-5.c where every call succeeds.
use course_code.Base.{
  ℕ, suc, ◌-◌, ◌≤◌, ◌≡◌, refl, true, List, [], ◌∷◌, ◌++◌, append-nil, arith, length, take,
  take-of_le, min, ◌==◌,
}
use course_code.Posix.Call.{Bytes, Reply, done, Trace, Call}
use course_code.Posix.Run.{ok, M}
use course_code.Posix.Io.{sent, sent_by, gather-append, read}
use course_code.Posix.Loop.{
  Next, again, Rounds, last_round, one_more, forever-Rounds, Ended, at_eof, read_round, while_read,
}
use course_code.Exercise1.Options.{buff_size, write_exact, print}

-- The answers while a file is copied: pieces of one byte or more that fit the buffer, each with a
-- `write` that takes all of it, and the end of the file.
pub data Reads : (content : Bytes) → (rs : List Reply) → Type 0 where
  at_end : (n : ℕ) → Reads [] (done n [] ∷ [])
  piece :
      {content : Bytes} {rs : List Reply} (n k b : ℕ) (bs l : List ℕ)
      → length (b ∷ bs) ≤ buff_size
      → length (b ∷ bs) ≤ k
      → Reads content rs
      → Reads ((b ∷ bs) ++ content) (done n (b ∷ bs) ∷ done k l ∷ rs)

module _ (file : ℕ) where
  abbrev round : Unit {0} → M (Next (Unit {0}) (Unit {0} × Ended))
  round = read_round (read file buff_size) (λ _ buf. write_exact buf)

  -- The rounds of the loop on such answers.
  record Passes (content : Bytes) (rs rest : List Reply) : Type 0 where
    count : ℕ
    trace : Trace
    rounds : Rounds round count tt rs (tt, at_eof) trace rest
    few : count ≤ length rs
    all : sent 1 trace ≡ content

  piece_round :
      (n k b : ℕ) (bs l : List ℕ) (rs : List Reply)
      → length (b ∷ bs) ≤ buff_size
      → length (b ∷ bs) ≤ k
      → round tt (done n (b ∷ bs) ∷ done k l ∷ rs) ≡ record {
        outcome = ok (again tt);
        trace =
            record { call = Call.read file buff_size; reply = done n (b ∷ bs) }
            ∷ record { call = Call.write 1 (b ∷ bs); reply = done k l }
            ∷ [];
        rest = rs;
      }
  unfolding write_exact
  piece_round n k b bs l rs fits whole =
      let kept : take (buff_size - 1) bs ≡ bs = take-of_le (buff_size - 1) bs (omega arith) in
      let taken : (min k (length (b ∷ bs)) == length (b ∷ bs)) ≡ true = ground arith in
      rw (kept, taken) refl

  passes :
      (content : Bytes) (rs rest : List Reply) → Reads content rs → Passes content (rs ++ rest) rest
  passes content rs rest (at_end n) = record {
    count = 1;
    trace = _;
    rounds = last_round refl;
    few = omega arith;
    all = refl;
  }
  passes content rs rest (piece {content = content'} {rs = rs'} n k b bs l fits whole more) =
      let p = passes content' rs' rest more in
      record {
        count = suc p.count;
        trace = _;
        rounds = one_more (piece_round n k b bs l (rs' ++ rest) fits whole) p.rounds;
        few = omega (arith, p.few);
        all = rw (take-of_le k (b ∷ bs) whole, p.all) refl;
      }

-- The run returns at `rest`, and `content` went out.
pub record Gives (m : M (Unit {0})) (rs rest : List Reply) (content : Bytes) : Type 0 where
  pub trace : Trace
  pub runs : m rs ≡ record { outcome = ok tt; trace = trace; rest = rest }
  pub all : sent 1 trace ≡ content

pub print-Gives :
    (file : ℕ) (content : Bytes) (rs rest : List Reply) (slept : Reply)
    → Reads content rs
    → Gives (print file) (rs ++ (slept ∷ rest)) rest content
unfolding print while_read
print-Gives file content rs rest slept h =
    let p = passes file content rs (slept ∷ rest) h in
    let e =
      forever-Rounds (round file) p.count tt (rs ++ (slept ∷ rest)) (tt, at_eof) p.trace
        (slept ∷ rest) p.rounds (omega (arith, p.few)) in
    record {
      trace = p.trace ++ (record { call = Call.sleep 10; reply = slept } ∷ []);
      runs = rw e refl;
      all =
          rw
            (
              gather-append (sent_by 1) p.trace
                  (record { call = Call.sleep 10; reply = slept } ∷ []),
              append-nil (sent 1 p.trace),
            )
            p.all;
    }
