-- ===== src/Exercise1/Agreement.antt =====
-- network-programming-2013/exercise1/doubler.c and doubler-syscall.c: where the two doublers agree.
use course_code.Base.{
  ℕ, ◌+◌, ◌<◌, ◌≡◌, refl, false, List, [], ◌∷◌, ◌++◌, length, All, arith, ◌==◌, ap, ◌∙◌, sym,
}
use course_code.Posix.Call.{Bytes, Reply}
use course_code.Posix.Run.{Outcome, ok, exited, blocked, fault, spins}
use course_code.Posix.Io.{gather, chunks, sent}
use course_code.Posix.Relay.{Fits, relayed}
use course_code.Exercise1.Doubler as Doubler
use course_code.Exercise1.Doubler.{cut}
use course_code.Exercise1.Doubler.Lines.{lines, joined, put_by, double_print-Lines}
use course_code.Exercise1.DoublerSyscall as DoublerSyscall
use course_code.Exercise1.DoublerSyscall.Copies.{double_print-Relays}

-- No byte is zero.
abbrev pub NonZero : Bytes → Type 0
NonZero = All (λ c. 0 < c)

NonZero-front : (xs ys : Bytes) → NonZero (xs ++ ys) → NonZero xs
NonZero-front [] ys h = tt
NonZero-front (x ∷ xs) ys (first, h) = (first, NonZero-front xs ys h)

NonZero-back : (xs ys : Bytes) → NonZero (xs ++ ys) → NonZero ys
NonZero-back [] ys h = h
NonZero-back (x ∷ xs) ys (first, h) = NonZero-back xs ys h

cut-NonZero : (s : Bytes) → NonZero s → cut s ≡ s
unfolding cut
cut-NonZero [] h = refl
cut-NonZero (c ∷ s) (first, h) =
    let nonzero : (c == 0) ≡ false = ground arith in rw nonzero (ap (λ l. c ∷ l) (cut-NonZero s h))

relayed-cut :
    (ls : List Bytes)
    → NonZero (joined ls)
    → relayed (λ l. cut l ++ cut l) ls ≡ relayed (λ l. l ++ l) ls
unfolding relayed
relayed-cut [] h = refl
relayed-cut (l ∷ ls) h =
    rw
      (cut-NonZero l (NonZero-front l (joined ls) h), relayed-cut ls (NonZero-back l (joined ls) h))

Fits-of_return :
    {A : Type 0} (o : Outcome A) (a : A) (made wanted : Bytes)
    → o ≡ ok a
    → Fits o made wanted
    → made ≡ wanted
Fits-of_return (ok _) a made wanted e h = h
Fits-of_return (exited n) a made wanted e h = absurd (cc)
Fits-of_return blocked a made wanted e h = absurd (cc)
Fits-of_return fault a made wanted e h = absurd h
Fits-of_return spins a made wanted e h = absurd h

-- For an input without zero bytes: where each `read` of doubler-syscall.c returns one line of the
-- input, as a terminal gives it, and both doublers return, what doubler.c hands to `fputs` is what
-- doubler-syscall.c moves to the standard output.
pub doublers-agree :
    (input : Bytes) (file : ℕ) (rs rs' : List Reply)
    → let stdio = Doubler.double_print input rs in
      let direct = DoublerSyscall.double_print file rs' in
      NonZero input
      → chunks file direct.trace ≡ lines (length input + 1) input
      → stdio.outcome ≡ ok tt
      → direct.outcome ≡ ok tt
      → gather put_by stdio.trace ≡ sent 1 direct.trace
doublers-agree input file rs rs' nonzero by_line returns returns' =
    let (join, all, fits) = double_print-Lines input rs in
    let out = Fits-of_return (Doubler.double_print input rs).outcome tt _ _ returns fits in
    let out' =
      Fits-of_return (DoublerSyscall.double_print file rs').outcome tt _ _ returns'
        (double_print-Relays file rs') in
    out ∙ relayed-cut (lines (length input + 1) input) (rw join nonzero) ∙ sym (rw by_line at out')
