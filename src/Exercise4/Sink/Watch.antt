-- ===== src/Exercise4/Sink/Watch.antt =====
-- The order in which a child of server.c reads, takes the time and reports it.
use course_code.Base.{
  ℕ, ◌≡◌, refl, Bool, true, false, ◌&&◌, Option, none, some, List, [], ◌∷◌, ◌++◌, ◌==◌,
  if◌then◌else◌, String,
}
use course_code.Base.Int.{ℤ, pos, negsuc}
use course_code.Posix.Call.{done, Arg, Call, Event, Trace}
use course_code.Posix.Run.{Result, Outcome, ok, exited, blocked, fault, spins}
use course_code.Posix.Io.{chunk, eof, failed, got, stored, ==_refl}
use course_code.Posix.Program.{elapsed}

-- Between two runs of input; behind the first piece of one; with the clock running since `start`;
-- behind the end of the input; behind the second reading of the time; before the report of an error,
-- behind it.
pub data Watch : Type 0 where
  idle starting dying dead : Watch
  running stopping : (start : List ℕ) → Watch
  reporting : (start end : List ℕ) → Watch

abbrev same_int : ℤ → ℤ → Bool
same_int (pos m) (pos n) = m == n
same_int (negsuc m) (negsuc n) = m == n
same_int _ _ = false

same_int_refl : (z : ℤ) → same_int z z ≡ true
same_int_refl (pos n) = ==_refl n
same_int_refl (negsuc n) = ==_refl n

-- Whether the arguments of a `printf` are the one duration.
abbrev says : List Arg → Arg → Bool
says (Arg.seconds a b ∷ []) (Arg.seconds c d) = same_int a c && same_int b d
says _ _ = false

-- Where a call may wait.
abbrev pub Waits : Watch → Type 0
Waits idle = Unit
Waits starting = Unit
Waits (running _) = Unit
Waits (stopping _) = Unit
Waits (reporting _ _) = ⊥
Waits dying = ⊥
Waits dead = ⊥

-- How a run may end: with status 1 behind the report of an error, or in a call that waits.
abbrev pub Closes : Outcome (Unit {0}) → Watch → Type 0
Closes (ok _) q = ⊥
Closes (exited n) q = (q ≡ dead) × (n ≡ 1)
Closes blocked q = Waits q
Closes fault q = ⊥
Closes spins q = ⊥

module _ (fd count : ℕ) where
  -- The calls that each of these allows; `none` is a breach.
  abbrev pub next : Watch → Event → Option Watch
  next idle e = elim e.call [
    | Call.read d _ ↦
        if d == fd
        then some (elim (got count e.reply) [ chunk _ _ ↦ starting | eof ↦ idle | failed ↦ dying ])
        else none
    | _ ↦ none
  ]
  next starting e = elim e.call [ Call.gettimeofday ↦ some (running (stored e.reply)) | _ ↦ none ]
  next (running s) e = elim e.call [
    | Call.read d _ ↦
        if d == fd
        then some
            (elim (got count e.reply) [ chunk _ _ ↦ running s | eof ↦ stopping s | failed ↦ dying ])
        else none
    | _ ↦ none
  ]
  next (stopping s) e = elim e.call [
    | Call.gettimeofday ↦ some (reporting s (stored e.reply))
    | _ ↦ none
  ]
  next (reporting s end) e = elim e.call [
    | Call.printf _ args ↦ if says args (elapsed s end) then some idle else none
    | _ ↦ none
  ]
  next dying e = elim e.call [ Call.perror _ ↦ some dead | _ ↦ none ]
  next dead e = none

  -- Where the calls of a trace lead.
  unfoldable pub watch : Watch → Trace → Option Watch
  watch w [] = some w
  watch w (e ∷ es) = elim (next w e) [ none ↦ none | some q ↦ watch q es ]

  pub report-step :
      (s end : List ℕ) (text : String)
      → next
          (reporting s end)
          (record { call = Call.printf text (elapsed s end ∷ []); reply = done 0 [] })
        ≡ some idle
  report-step s end text = rw (same_int_refl _, same_int_refl _) refl

  -- A run that keeps to this order, up to a phase in which it may end as it does.
  abbrev pub Timed : Watch → Result (Unit {0}) → Type 0
  Timed w r = (q : Watch) × (watch w r.trace ≡ some q) × Closes r.outcome q

  pub watch-step :
      (w q : Watch) (e : Event) (t : Trace) → next w e ≡ some q → watch w (e ∷ t) ≡ watch q t
  unfolding watch
  watch-step w q e t step = rw (watch, step)

  append_case :
      (o : Option Watch) (q : Watch) (xs ys : Trace)
      → ((p : Watch) → watch p xs ≡ some q → watch p (xs ++ ys) ≡ watch q ys)
      → elim o as (λ _. Option Watch) [ none ↦ none | some p ↦ watch p xs ] ≡ some q
      → elim o as (λ _. Option Watch) [ none ↦ none | some p ↦ watch p (xs ++ ys) ] ≡ watch q ys
  append_case none q xs ys ih h = absurd (cc)
  append_case (some p) q xs ys ih h = ih p h

  pub watch-append :
      (w q : Watch) (xs ys : Trace) → watch w xs ≡ some q → watch w (xs ++ ys) ≡ watch q ys
  unfolding watch
  watch-append w q [] ys h = let same : w ≡ q = cc in rw same refl
  watch-append w q (x ∷ xs) ys h = append_case (next w x) q xs ys (λ p. watch-append p q xs ys) h
