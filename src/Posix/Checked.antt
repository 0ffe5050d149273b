-- ===== src/Posix/Checked.antt =====
-- Whether a program notices the calls that fail.
use course_code.Base.{
  ℕ, zero, suc, ◌≡◌, refl, ◌∙◌, Bool, true, false, ◌&&◌, String, List, [], ◌∷◌, ◌++◌, inl, inr,
  Bool-cases,
}
use course_code.Posix.Call.{Bytes, Reply, done, fail, Errno, Call, Event, Trace}
use course_code.Posix.Run.{
  Result, Outcome, ok, exited, blocked, fault, spins, M, sys, after, exit, pure, emit, ◌>>=◌,
  continue,
}
use course_code.Posix.Io.{call, result}
use course_code.Posix.Program.{need, write_or_die}

-- `ignored` holds of the failures that a program passes over.
module _ (ignored : Event → Bool) where
  abbrev pub fine : Event → Bool
  fine e = elim e.reply [ done _ _ ↦ true | fail _ ↦ ignored e ]

  abbrev pub all_fine : Trace → Bool
  all_fine [] = true
  all_fine (e ∷ es) = fine e && all_fine es

abbrev pub is_message : Call → Bool
is_message c = elim c [ Call.perror _ ↦ true | Call.fprintf_stderr _ _ ↦ true | _ ↦ false ]

abbrev pub ends_in_message : Trace → Bool
ends_in_message [] = false
ends_in_message (e ∷ []) = is_message e.call
ends_in_message (e ∷ e' ∷ es) = ends_in_message (e' ∷ es)

module _ (ignored : Event → Bool) where
  -- A run that goes on, or exits with status 0, has had no failure but the ignored ones; with
  -- status 1 it had another, and its last call is a message.
  abbrev Judged : {A : Type 0} → Outcome A → Trace → Type 0
  Judged (ok _) t = all_fine ignored t ≡ true
  Judged (exited zero) t = all_fine ignored t ≡ true
  Judged (exited (suc n)) t = (n ≡ 0) × (all_fine ignored t ≡ false) × (ends_in_message t ≡ true)
  Judged blocked t = Unit
  Judged fault t = ⊥
  Judged spins t = ⊥

  abbrev pub Checks : {A : Type 0} → Result A → Type 0
  Checks r = Judged r.outcome r.trace

  all_fine-append :
      (xs ys : Trace)
      → all_fine ignored xs ≡ true
      → all_fine ignored (xs ++ ys) ≡ all_fine ignored ys
  all_fine-append [] ys h = refl
  all_fine-append (x ∷ xs) ys h = elim (Bool-cases (fine ignored x)) [
    | inl e ↦ let rest : all_fine ignored xs ≡ true = rw e at h in rw e (all_fine-append xs ys rest)
    | inr e ↦ let never : false ≡ true = rw e at h in absurd (cc)
  ]

  ends_in_message-append :
      (xs ys : Trace) → ends_in_message ys ≡ true → ends_in_message (xs ++ ys) ≡ true
  ends_in_message-append [] ys h = h
  ends_in_message-append (x ∷ []) [] h = absurd (cc)
  ends_in_message-append (x ∷ []) (y ∷ ys) h = h
  ends_in_message-append (x ∷ x' ∷ xs) ys h = ends_in_message-append (x' ∷ xs) ys h

  Judged-append :
      {A : Type 0} (o : Outcome A) (xs ys : Trace)
      → all_fine ignored xs ≡ true
      → Judged o ys
      → Judged o (xs ++ ys)
  Judged-append (ok _) xs ys h j = all_fine-append xs ys h ∙ j
  Judged-append (exited zero) xs ys h j = all_fine-append xs ys h ∙ j
  Judged-append (exited (suc n)) xs ys h (one, f, m) =
      (one, all_fine-append xs ys h ∙ f, ends_in_message-append xs ys m)
  Judged-append blocked xs ys h j = j
  Judged-append fault xs ys h j = j
  Judged-append spins xs ys h j = j

  -- Behind calls that were in order.
  pub Checks-behind :
      {A : Type 0} (es : Trace) (r : Result A)
      → all_fine ignored es ≡ true
      → Checks r
      → Checks (after es r)
  Checks-behind es r = Judged-append r.outcome es r.trace

  bind_case :
      {A B : Type 0} (o : Outcome A) (t : Trace) (rest : List Reply) (f : A → M B)
      → Judged o t
      → ((a : A) → Checks (f a rest))
      → Checks (continue o t rest f)
  bind_case (ok a) t rest f j g = Judged-append (f a rest).outcome t (f a rest).trace j (g a)
  bind_case (exited zero) t rest f j g = j
  bind_case (exited (suc n)) t rest f j g = j
  bind_case blocked t rest f j g = j
  bind_case fault t rest f j g = j
  bind_case spins t rest f j g = j

  need_case :
      (c : Call) (str : String) (rs : List Reply)
      → ((e : Errno) → ignored (record { call = c; reply = fail e }) ≡ false)
      → Checks (need str c rs)
  unfolding need
  need_case c str [] checked = tt
  need_case c str (done n l ∷ rs) checked = refl
  need_case c str (fail e ∷ rs) checked = (refl, rw (checked e), refl)

  sys_case :
      (c : Call) (rs : List Reply)
      → ((e : Errno) → ignored (record { call = c; reply = fail e }) ≡ true)
      → Checks (sys c rs)
  sys_case c [] passed = tt
  sys_case c (done n l ∷ rs) passed = refl
  sys_case c (fail e ∷ rs) passed = rw (passed e)

  write_case :
      (fd : ℕ) (buf : Bytes) (str : String) (rs : List Reply)
      → ((e : Errno) → ignored (record { call = Call.write fd buf; reply = fail e }) ≡ false)
      → Checks (write_or_die str fd buf rs)
  unfolding write_or_die
  write_case fd buf str [] checked = tt
  write_case fd buf str (done n l ∷ rs) checked = refl
  write_case fd buf str (fail e ∷ rs) checked = (refl, rw (checked e), refl)

-- A program whose runs all check.
pub record Careful (ignored : Event → Bool) {A : Type 0} (m : M A) : Type 0 where
  pub checks : (rs : List Reply) → Checks ignored (m rs)

module _ {ignored : Event → Bool} where
  -- One thing behind another.
  infixl 5 ◌then◌
  pub ◌then◌ :
      {A B : Type 0} {m : M A} {f : A → M B}
      → Careful ignored m
      → ((a : A) → Careful ignored (f a))
      → Careful ignored (m >>= f)
  ◌then◌ {m = m} {f = f} c d = record {
    checks = λ rs.
        bind_case ignored (m rs).outcome (m rs).trace (m rs).rest f (c.checks rs)
          (λ a. (d a).checks (m rs).rest);
  }

  pub pure-Careful : {A : Type 0} (a : A) → Careful ignored (pure a)
  pure-Careful a = record { checks = λ rs. refl }

  pub exit-Careful : {A : Type 0} → Careful ignored {A = A} (exit 0)
  exit-Careful = record { checks = λ rs. refl }

  pub emit-Careful : (c : Call) → Careful ignored (emit c)
  emit-Careful c = record { checks = λ rs. refl }

  module _ (c : Call) where
    pub need-Careful :
        (str : String)
        → ((e : Errno) → ignored (record { call = c; reply = fail e }) ≡ false)
        → Careful ignored (need str c)
    need-Careful str checked = record { checks = λ rs. need_case ignored c str rs checked }

    -- A call whose failures are all passed over.
    pub sys-Careful :
        ((e : Errno) → ignored (record { call = c; reply = fail e }) ≡ true)
        → Careful ignored (sys c)
    sys-Careful passed = record { checks = λ rs. sys_case ignored c rs passed }

    pub call-Careful :
        ((e : Errno) → ignored (record { call = c; reply = fail e }) ≡ true)
        → Careful ignored (call c)
    call-Careful passed = sys-Careful passed then (λ r. pure-Careful (result r))

  module _ (fd : ℕ) (buf : Bytes) where
    pub write_or_die-Careful :
        (str : String)
        → ((e : Errno) → ignored (record { call = Call.write fd buf; reply = fail e }) ≡ false)
        → Careful ignored (write_or_die str fd buf)
    write_or_die-Careful str checked = record {
      checks = λ rs. write_case ignored fd buf str rs checked;
    }
