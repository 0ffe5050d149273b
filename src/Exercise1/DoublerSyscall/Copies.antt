-- ===== src/Exercise1/DoublerSyscall/Copies.antt =====
-- What doubler-syscall.c writes.
use course_code.Base.{
  ℕ, refl, inl, inr, Bool-cases, List, [], ◌∷◌, ◌++◌, append-nil, arith, length, min, ◌==◌,
  take-of_le, take,
}
use course_code.Posix.Call.{Bytes, Reply, done, fail}
use course_code.Posix.Io.{sent_by}
use course_code.Posix.Relay.{Emits, Relays, relayed, Emits-times, loop-Relays, IsPrefix-take}
use course_code.Posix.Loop.{times}
use course_code.Exercise1.DoublerSyscall.{buff_size, write_once, short, double_print}

-- What goes out of `write_once`: all of `buf`, or it gives up.
write_once-Emits :
    (file : ℕ) (buf : Bytes) (rs : List Reply) → Emits (sent_by 1) file rs buf (write_once buf rs)
unfolding write_once short
write_once-Emits file buf [] = record { fits = (buf, refl); quiet = refl; shorter = omega arith }
write_once-Emits file buf (fail e ∷ rs) = record {
  fits = (refl, (buf, refl));
  quiet = refl;
  shorter = omega arith;
}
write_once-Emits file buf (done n l ∷ rs) = elim (Bool-cases (min n (length buf) == length buf)) [
  | inl all ↦ rw all record {
    fits = rw (append-nil (take n buf)) (take-of_le n buf (ground arith));
    quiet = refl;
    shorter = omega arith;
  }
  | inr part ↦ rw part record {
    fits = (refl, rw (append-nil (take n buf)) (IsPrefix-take n buf));
    quiet = refl;
    shorter = omega arith;
  }
]

write_twice-Emits :
    (file : ℕ) (buf : Bytes) (rs : List Reply)
    → Emits (sent_by 1) file rs (buf ++ buf) (times 2 (write_once buf) rs)
unfolding relayed
write_twice-Emits file buf rs =
    let e = Emits-times (sent_by 1) file 2 buf (write_once buf) (write_once-Emits file buf) rs in
    rw (append-nil buf) at e

-- On every list of the kernel's answers `double_print` puts each piece that it reads on the
-- standard output twice, in order: all of it, if it returns; a front part, if a `write` falls short
-- and it exits with status 1, or if it still waits. It never runs into undefined behaviour.
pub double_print-Relays :
    (file : ℕ) (rs : List Reply)
    → Relays (sent_by 1) file (λ buf. buf ++ buf) (double_print file rs)
unfolding double_print
double_print-Relays file =
    loop-Relays (sent_by 1) file buff_size (λ buf. buf ++ buf) (λ _ buf. times 2 (write_once buf))
      (λ _. write_twice-Emits file) (λ r. refl) tt tt
