-- ===== src/Posix/Writes.antt =====
-- What the writes of the programs put out.
use course_code.Base.{ℕ, refl, List, [], ◌∷◌, append-nil, String, arith}
use course_code.Posix.Call.{Bytes, Reply, done, fail}
use course_code.Posix.Io.{asked_by, ==_refl}
use course_code.Posix.Relay.{Emits}
use course_code.Posix.Program.{write_or_die, write_unchecked}

module _ (src dst : ℕ) (buf : Bytes) where
  -- The whole of `buf` is handed to `write`.
  pub write_unchecked-Emits :
      (rs : List Reply) → Emits (asked_by dst) src rs buf (write_unchecked dst buf rs)
  unfolding write_unchecked
  write_unchecked-Emits [] = record { fits = (buf, refl); quiet = refl; shorter = omega arith }
  write_unchecked-Emits (done n l ∷ rs) = record {
    fits = rw (==_refl dst) (append-nil buf);
    quiet = refl;
    shorter = omega arith;
  }
  write_unchecked-Emits (fail e ∷ rs) = record {
    fits = rw (==_refl dst) (append-nil buf);
    quiet = refl;
    shorter = omega arith;
  }

  -- The same where a failed `write` ends the program.
  pub write_or_die-Emits :
      (str : String) (rs : List Reply)
      → Emits (asked_by dst) src rs buf (write_or_die str dst buf rs)
  unfolding write_or_die
  write_or_die-Emits str [] = record { fits = (buf, refl); quiet = refl; shorter = omega arith }
  write_or_die-Emits str (done n l ∷ rs) = record {
    fits = rw (==_refl dst) (append-nil buf);
    quiet = refl;
    shorter = omega arith;
  }
  write_or_die-Emits str (fail e ∷ rs) = record {
    fits = (refl, ([], rw (==_refl dst, append-nil buf, append-nil buf)));
    quiet = refl;
    shorter = omega arith;
  }
