-- ===== src/Exercise6/Capacity/Counting.antt =====
-- The size that q2-pipe.c and q2-tcp-client.c show.
use course_code.Base.{
  ℕ, suc, ◌+◌, ◌<◌, ◌≤◌, ◌≡◌, refl, ltb, inl, inr, Bool-cases, List, [], ◌∷◌, length, arith, ◌==◌,
  if◌then◌else◌,
}
use course_code.Posix.Call.{Bytes, Call, Arg, Errno, Reply, done, fail, Event}
use course_code.Posix.Run.{Result, Outcome, ok, exited, blocked, fault, spins, M, ◌>>=◌}
use course_code.Posix.Io.{gather, ==_refl}
use course_code.Posix.Loop.{resume, forever_rule}
use course_code.Exercise6.Capacity.{fill_round, fill, stop}

abbrev pub shown_by : Event → List Arg
shown_by e = elim e.call [ Call.printf _ l ↦ l | _ ↦ [] ]

-- The writes to `fd` that were accepted, and the reasons of those that were not.
abbrev pub accepted_by : ℕ → Event → List Bytes
accepted_by fd e = elim e.call [
  | Call.write d bs ↦ if d == fd then elim e.reply [ done _ _ ↦ bs ∷ [] | fail _ ↦ [] ] else []
  | _ ↦ []
]

abbrev pub refused_by : ℕ → Event → List Errno
refused_by fd e = elim e.call [
  | Call.write d bs ↦ if d == fd then elim e.reply [ done _ _ ↦ [] | fail e ↦ e ∷ [] ] else []
  | _ ↦ []
]

-- What is shown, by what the first refused write said.
abbrev pub Shows : (size : ℕ) → List Errno → List Arg → Type 0
Shows size (Errno.ewouldblock ∷ _) shown = shown ≡ Arg.int size ∷ []
Shows size _ shown = shown ≡ []

-- Undefined only where the sum is out of the range of an `int`.
abbrev pub Held : {A : Type 0} → (size : ℕ) → Outcome A → Type 0
Held size fault = 2147483648 ≤ size
Held size spins = ⊥
Held size (ok _) = Unit
Held size (exited _) = Unit
Held size blocked = Unit

abbrev pub Reports : (fd sum : ℕ) → {A : Type 0} → Result A → Type 0
Reports fd sum r =
    Shows (sum + length (gather (accepted_by fd) r.trace)) (gather (refused_by fd) r.trace)
      (gather shown_by r.trace)
    × Held (sum + length (gather (accepted_by fd) r.trace)) r.outcome

module _ (garbage : Bytes) (fd : ℕ) where
  round :
      (sum : ℕ) (rs : List Reply) (k : ℕ → M (Unit {0}))
      → ((sum' : ℕ) (rs' : List Reply) → length rs' < length rs → Reports fd sum' (k sum' rs'))
      → Reports fd sum ((fill_round garbage fd sum >>= resume k) rs)
  unfolding fill_round stop
  round sum [] k ih = (refl, tt)
  round sum (fail e ∷ rs) k ih = (refl, tt)
  round sum (done n l ∷ []) k ih = (refl, tt)
  round sum (done n l ∷ done m l' ∷ rs) k ih = elim (Bool-cases (ltb (sum + 1) 2147483648)) [
    | inl t ↦
        let later = gather (accepted_by fd) (k (sum + 1) rs).trace in
        let one_more : sum + suc (length later) ≡ sum + 1 + length later = omega arith in
        rw (t, ==_refl fd, one_more) (ih (sum + 1) rs (omega arith))
    | inr f ↦ let large : 2147483648 ≤ sum + 1 = ground arith in rw (f, ==_refl fd) (refl, large)
  ]
  round sum (done n l ∷ fail Errno.ewouldblock ∷ rs) k ih =
      let none_more : sum + 0 ≡ sum = omega arith in rw (==_refl fd, none_more) (refl, tt)
  round sum (done n l ∷ fail Errno.eintr ∷ rs) k ih = rw (==_refl fd) (refl, tt)
  round sum (done n l ∷ fail Errno.enoent ∷ rs) k ih = rw (==_refl fd) (refl, tt)
  round sum (done n l ∷ fail Errno.emsgsize ∷ rs) k ih = rw (==_refl fd) (refl, tt)
  round sum (done n l ∷ fail (Errno.other _) ∷ rs) k ih = rw (==_refl fd) (refl, tt)

  -- On every list of answers: if a write is refused since it would wait, the number of the writes
  -- that were accepted before it, of one byte each, is shown, and nothing else; otherwise nothing is
  -- shown. The run is undefined only if 2 ^ 31 writes or more were accepted, where the `int` that
  -- counts them overflows, and nothing is shown then either.
  pub fill-Reports : (rs : List Reply) → Reports fd 0 (fill garbage fd rs)
  unfolding fill
  fill-Reports [] = (refl, tt)
  fill-Reports (r ∷ []) = (refl, tt)
  fill-Reports (r ∷ r' ∷ rs) =
      forever_rule (fill_round garbage fd) (λ sum _ r. Reports fd sum r) round 0 rs
