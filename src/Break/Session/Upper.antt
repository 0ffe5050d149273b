-- ===== src/Break/Session/Upper.antt =====
-- The command E, whose line comes in two pieces.
use course_code.Base.{
  Option, some, ℕ, zero, suc, ◌+◌, ◌-◌, ◌≤◌, ◌<◌, ◌≡◌, sym, ◌≢◌, true, false, List, [], ◌∷◌, ◌++◌,
  length, take, drop, arith, ltb, ◌==◌, length-append, get_or-front, take-of_le, take-length_append,
  append_assoc, append-nil,
}
use course_code.Posix.Call.{Bytes, Call, Reply, done}
use course_code.Posix.Run.{ok}
use course_code.Posix.Libc.{splice}
use course_code.Posix.Io.{asked, ==_refl}
use course_code.Posix.Loop.{forever-leave, leave}
use course_code.Posix.Program.{write_or_die}
use course_code.Break.Session.{
  Session, Surroundings, max_line, last_byte, more_round, upper_prefix, shout, echo_upper,
}

module _ (sockfd : ℕ) (piece : Bytes) (b : ℕ) (bs stale : Bytes) where
  -- What came together.
  abbrev line : Bytes
  line = piece ++ (b ∷ bs)

  abbrev before : Session
  before = record { buf = piece ++ stale; ptr = length piece; byte = some (length piece) }

  abbrev behind : Session
  behind = record {
    buf = splice (piece ++ stale) (length piece) (b ∷ bs);
    ptr = length piece + suc (length bs);
    byte = some (length piece + suc (length bs));
  }

  more_round-newline :
      (m : ℕ) (rs : List Reply)
      → length line < max_line
      → last_byte (b ∷ bs) ≡ b'\n'
      → more_round sockfd before (done m (b ∷ bs) ∷ rs) ≡ record {
        outcome = ok (leave behind);
        trace =
            record { call = Call.read sockfd (max_line - length piece); reply = done m (b ∷ bs) }
            ∷ [];
        rest = rs;
      }
  unfolding more_round
  more_round-newline m rs h e =
      let size = length-append piece (b ∷ bs) in
      let room : ltb (length piece) max_line ≡ true = ground arith in
      let all = take-of_le (max_line - length piece) (b ∷ bs) (omega arith) in
      let inside : ltb max_line (length piece + suc (length bs)) ≡ false = ground arith in
      rw (more_round, room, all, inside, e)

-- The change of the bytes in front stays within them.
pub take-upper_prefix :
    (k : ℕ) (text more : Bytes)
    → k ≤ length text
    → take (length text) (upper_prefix k (text ++ more)) ≡ upper_prefix k text
take-upper_prefix zero text more h = take-length_append text more
take-upper_prefix (suc k) [] more h = absurd (omega arith)
take-upper_prefix (suc k) (c ∷ text) more h = rw (take-upper_prefix k text more (omega arith))

module _ (sockfd : ℕ) (piece : Bytes) (b : ℕ) (bs stale : Bytes) where
  abbrev text : Bytes
  text = piece ++ (b ∷ bs)

  -- The answer, behind the second piece.
  shout-asked :
      (m : ℕ) (l : List ℕ) (rs : List Reply)
      → length text < max_line
      → asked sockfd (shout sockfd (behind sockfd piece b bs stale) (done m l ∷ rs)).trace
        ≡ upper_prefix (length text - 1) text
  unfolding shout write_or_die
  shout-asked m l rs h =
      let size : length piece + suc (length bs) ≡ length text =
        sym (length-append piece (b ∷ bs)) in
      let inside : ltb max_line (length text) ≡ false = ground arith in
      let upper =
        take-upper_prefix (length text - 1) text (drop (length text) (piece ++ stale))
          (omega arith) in
      let upper' = (rw append_assoc at upper) in
      rw (
        shout,
        size,
        take-length_append piece stale,
        inside,
        upper',
        ==_refl sockfd,
        append-nil (upper_prefix (length text - 1) text),
      )

  -- Where `ptr` is at the start of the buffer, the line comes in two pieces, of which the second ends
  -- it, and is shorter than the buffer: the answer to the command E is the line with `toupper` of
  -- all its bytes but the last, whatever stood behind the first piece and in `byte`.
  pub echo_upper-line :
      (w : Surroundings) (n m k : ℕ) (l l' : List ℕ) (rs : List Reply) (byte : Option ℕ)
      → sockfd ≢ 1
      → 1 ≤ length piece
      → last_byte piece ≢ b'\n'
      → last_byte (b ∷ bs) ≡ b'\n'
      → length text < max_line
      → asked sockfd
          (echo_upper w sockfd
            (length piece)
            (record { buf = piece ++ stale; ptr = 0; byte = byte })
            (done n l ∷ done m (b ∷ bs) ∷ done k l' ∷ rs)).trace
        ≡ upper_prefix (length text - 1) text
  unfolding echo_upper
  echo_upper-line w n m k l l' rs byte ne some_bytes open_line newline h =
      let other : (1 == sockfd) ≡ false = ground arith in
      let front = get_or-front piece stale (length piece - 1) 0 (omega arith) in
      let unfinished : (last_byte piece == b'\n') ≡ false = ground arith in
      let zero_plus : 0 + length piece ≡ length piece = omega arith in
      let round = more_round-newline sockfd piece b bs stale m (done k l' ∷ rs) h newline in
      let left =
        forever-leave (more_round sockfd) (before sockfd piece b bs stale)
          (behind sockfd piece b bs stale) _ _ _ round in
      rw (echo_upper, other, front, unfinished, zero_plus, left) (shout-asked k l' rs h)
