-- ===== src/Exercise1/Options/Copies.antt =====
-- What question-4.c and question-5.c write of a file.
use course_code.Base.{
  ℕ, refl, ◌≡◌, List, [], ◌∷◌, append-nil, arith, inl, inr, Bool-cases, length, min, false, ◌==◌,
  take, take-of_le,
}
use course_code.Posix.Call.{Bytes, Reply, done, fail, Call}
use course_code.Posix.Run.{pure, ◌>>◌}
use course_code.Posix.Io.{sent_by, read, call}
use course_code.Posix.Relay.{Emits, Relays, IsPrefix-take, while_read-Relays}
use course_code.Posix.Loop.{while_read}
use course_code.Posix.Finish.{Relays-quiet}
use course_code.Exercise1.Options.{buff_size, write_exact, print}

module _ (file : ℕ) where
  -- The message goes to the standard error, so nothing more goes out.
  short-Emits :
      (buf : Bytes) (n : ℕ) (l : List ℕ) (rs : List Reply)
      → (min n (length buf) == length buf) ≡ false
      → Emits (sent_by 1) file (done n l ∷ rs) buf (write_exact buf (done n l ∷ rs))
  unfolding write_exact
  short-Emits buf n l [] e = rw e (record {
    fits = rw (append-nil (take n buf)) (IsPrefix-take n buf);
    quiet = refl;
    shorter = omega arith;
  })
  short-Emits buf n l (done m k ∷ rs) e = rw e (record {
    fits = (refl, rw (append-nil (take n buf)) (IsPrefix-take n buf));
    quiet = refl;
    shorter = omega arith;
  })
  short-Emits buf n l (fail r ∷ rs) e = rw e (record {
    fits = (refl, rw (append-nil (take n buf)) (IsPrefix-take n buf));
    quiet = refl;
    shorter = omega arith;
  })

  write_exact-Emits :
      (buf : Bytes) (rs : List Reply) → Emits (sent_by 1) file rs buf (write_exact buf rs)
  unfolding write_exact
  write_exact-Emits buf [] = record { fits = (buf, refl); quiet = refl; shorter = omega arith }
  write_exact-Emits buf (fail e ∷ []) = record {
    fits = (buf, refl);
    quiet = refl;
    shorter = omega arith;
  }
  write_exact-Emits buf (fail e ∷ done n l ∷ rs) = record {
    fits = (refl, (buf, refl));
    quiet = refl;
    shorter = omega arith;
  }
  write_exact-Emits buf (fail e ∷ fail e' ∷ rs) = record {
    fits = (refl, (buf, refl));
    quiet = refl;
    shorter = omega arith;
  }
  write_exact-Emits buf (done n l ∷ rs) = elim (Bool-cases (min n (length buf) == length buf)) [
    | inl all ↦ rw all (record {
      fits = rw (append-nil (take n buf)) (take-of_le n buf (ground arith));
      quiet = refl;
      shorter = omega arith;
    })
    | inr part ↦ short-Emits buf n l rs part
  ]

  wait-Emits :
      (rs : List Reply) → Emits (sent_by 1) file rs [] ((call (Call.sleep 10) >> pure tt) rs)
  wait-Emits [] = record { fits = ([], refl); quiet = refl; shorter = omega arith }
  wait-Emits (r ∷ rs) = record { fits = refl; quiet = refl; shorter = omega arith }

  -- On every list of answers `print` puts each piece of the file on the standard output, once and
  -- in order: all of it, if it returns; a front part, if it exits with status 1 since a `write`
  -- failed or fell short, or if it still waits.
  pub print-Relays : (rs : List Reply) → Relays (sent_by 1) file (λ buf. buf) (print file rs)
  unfolding print
  print-Relays rs =
      Relays-quiet (sent_by 1) file (λ buf. buf)
        (while_read (read file buff_size) (λ _ buf. write_exact buf) tt)
        (λ _. call (Call.sleep 10) >> pure tt) rs
        (while_read-Relays (sent_by 1) file buff_size (λ buf. buf) (λ _ buf. write_exact buf)
          (λ _. write_exact-Emits) (λ r. refl) tt rs)
        (λ _. wait-Emits)
