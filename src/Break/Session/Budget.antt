-- ===== src/Break/Session/Budget.antt =====
-- Runs that are safe as long as the server sends no more than the buffer holds.
use course_code.Base.{
  ℕ, ◌+◌, ◌≤◌, ◌<◌, ◌≡◌, ◌≢◌, List, [], ◌∷◌, ◌++◌, All, get_or, length, arith, append-nil,
}
use course_code.Posix.Call.{Bytes, Reply, Call, Trace}
use course_code.Posix.Run.{
  Result, Outcome, ok, exited, blocked, fault, spins, M, sys, pure, ◌>>=◌, continue,
}
use course_code.Posix.Loop.{Next, again, leave, resume, forever, forever_rule}
use course_code.Posix.Io.{chunks, chunks_by, gather-append}
use course_code.Break.Session.{max_line}

-- The bytes of some pieces.
abbrev pub size : List Bytes → ℕ
size [] = 0
size (c ∷ cs) = length c + size cs

size-append : (xs ys : List Bytes) → size (xs ++ ys) ≡ size xs + size ys
size-append [] ys = omega arith
size-append (x ∷ xs) ys = omega (arith, size-append xs ys)

All-append : (P : Bytes → Type 0) (xs ys : List Bytes) → All P (xs ++ ys) → All P xs × All P ys
All-append P [] ys h = (tt, h)
All-append P (x ∷ xs) ys (p, h) = let (l, r) = All-append P xs ys h in ((p, l), r)

abbrev pub NotTransfer : Bytes → Type 0
NotTransfer piece = get_or piece 0 0 ≢ b'F'

module _ (sockfd : ℕ) where
  -- Behind `n` bytes: if all bytes fit into the buffer and no piece begins with F, there is no undefined
  -- behaviour, and what is returned fulfils `P`, as do the bytes that have come and the number of the
  -- answers that are left.
  abbrev pub Holds :
      {A : Type 0} → (P : (spent left : ℕ) → A → Type 0) → (spent left : ℕ) → Outcome A → Type 0
  Holds P k j (ok a) = P k j a
  Holds P k j (exited _) = Unit
  Holds P k j blocked = Unit
  Holds P k j fault = ⊥
  Holds P k j spins = ⊥

  abbrev pub Safe :
      {A : Type 0}
      → (n : ℕ) → (P : (spent left : ℕ) → A → Type 0) → Outcome A
      → Trace
      → List Reply
      → Type 0
  Safe n P o t rest =
      n + size (chunks sockfd t) ≤ max_line
      → All NotTransfer (chunks sockfd t)
      → Holds P (n + size (chunks sockfd t)) (length rest) o

  pub record Safely {A : Type 0} (n len : ℕ) (P : (spent left : ℕ) → A → Type 0) (m : M A)
      : Type 0 where
    pub runs :
        (rs : List Reply) → length rs ≤ len → Safe n P (m rs).outcome (m rs).trace (m rs).rest

  pub Holds-map :
      {A : Type 0} (P Q : (spent left : ℕ) → A → Type 0) (k j : ℕ) (o : Outcome A)
      → ((a : A) → P k j a → Q k j a)
      → Holds P k j o
      → Holds Q k j o
  Holds-map P Q k j (ok a) f h = f a h
  Holds-map P Q k j (exited _) f h = tt
  Holds-map P Q k j blocked f h = tt
  Holds-map P Q k j fault f h = h
  Holds-map P Q k j spins f h = h

  -- One part of a run behind another.
  Safe-append :
      {B : Type 0} (n : ℕ) (Q : (spent left : ℕ) → B → Type 0) (t : Trace) (r : Result B)
      → (n + size (chunks sockfd t) ≤ max_line
          → All NotTransfer (chunks sockfd t)
          → Safe (n + size (chunks sockfd t)) Q r.outcome r.trace r.rest)
      → Safe n Q r.outcome (t ++ r.trace) r.rest
  Safe-append n Q t r h room all =
      let split = gather-append (chunks_by sockfd) t r.trace in
      let sum = size-append (chunks sockfd t) (chunks sockfd r.trace) in
      let k = n + size (chunks sockfd t) in
      let whole : n + size (chunks sockfd t ++ chunks sockfd r.trace)
          ≡ k + size (chunks sockfd r.trace) =
        omega (arith, sum) in
      let room' : k + size (chunks sockfd r.trace) ≤ max_line = rw (split, whole) at room in
      let all' : All NotTransfer (chunks sockfd t ++ chunks sockfd r.trace) = rw split at all in
      let (one, two) = All-append NotTransfer (chunks sockfd t) (chunks sockfd r.trace) all' in
      rw (split, whole) (h (omega arith) one room' two)

  behind_case :
      {A B : Type 0} (n : ℕ) (P : (spent left : ℕ) → A → Type 0) (Q : (spent left : ℕ) → B → Type 0)
      (o : Outcome A) (t : Trace) (rest : List Reply) (f : A → M B)
      → Safe n P o t rest
      → ((a : A) (k j : ℕ) → P k j a → Safely k j Q (f a))
      → let r = continue o t rest f in Safe n Q r.outcome r.trace r.rest
  behind_case n P Q (ok a) t rest f h g = Safe-append n Q t (f a rest) (λ one two.
      (g a (n + size (chunks sockfd t)) (length rest) (h one two)).runs rest (omega arith))
  behind_case n P Q (exited _) t rest f h g = h
  behind_case n P Q blocked t rest f h g = h
  behind_case n P Q fault t rest f h g = h
  behind_case n P Q spins t rest f h g = h

  sys_case :
      (n len : ℕ) (c : Call)
      → ((r : Reply) → chunks_by sockfd (record { call = c; reply = r }) ≡ [])
      → (rs : List Reply) → length rs ≤ len
      → let r = sys c rs in Safe n (λ k j _. (n ≤ k) × (j ≤ len)) r.outcome r.trace r.rest
  sys_case n len c deaf [] le = λ room all. tt
  sys_case n len c deaf (r ∷ rs) le = λ room all. (omega arith, omega arith)

module _ {sockfd n len : ℕ} where
  infixl 5 ◌then◌
  pub ◌then◌ :
      {A B : Type 0} {P : (spent left : ℕ) → A → Type 0} {Q : (spent left : ℕ) → B → Type 0}
      {m : M A} {f : A → M B}
      → Safely sockfd n len P m
      → ((a : A) (k j : ℕ) → P k j a → Safely sockfd k j Q (f a))
      → Safely sockfd n len Q (m >>= f)
  ◌then◌ {P = P} {Q = Q} {m = m} {f = f} s g = record {
    runs = λ rs le.
        behind_case sockfd n P Q (m rs).outcome (m rs).trace (m rs).rest f (s.runs rs le) g;
  }

  pub pure-Safely :
      {A : Type 0} {P : (spent left : ℕ) → A → Type 0} (a : A)
      → ((k j : ℕ) → n ≤ k → j ≤ len → P k j a)
      → Safely sockfd n len P (pure a)
  pure-Safely a p = record { runs = λ rs le room all. p _ _ (omega arith) le }

  -- A call that takes nothing from the server.
  pub sys-Safely :
      (c : Call)
      → ((r : Reply) → chunks_by sockfd (record { call = c; reply = r }) ≡ [])
      → Safely sockfd n len (λ k j _. (n ≤ k) × (j ≤ len)) (sys c)
  sys-Safely c deaf = record { runs = sys_case sockfd n len c deaf }

-- What a round of a loop has to keep.
abbrev pub GoesOn :
    {S A : Type 0}
    → (Inv : ℕ → S → Type 0) → (Q : ℕ → A → Type 0) → (len : ℕ) → (spent left : ℕ) → Next S A
    → Type 0
GoesOn Inv Q len k j (again s) = Inv k s × (j < len)
GoesOn Inv Q len k j (leave a) = Q k a × (j ≤ len)

module _ (sockfd : ℕ) where
  module _ {S A : Type 0} (Inv : ℕ → S → Type 0) (Q : ℕ → A → Type 0) (body : S → M (Next S A))
      (keeps : (n len : ℕ) (s : S)
        → Inv n s
        → Safely sockfd n len (GoesOn Inv Q len) (body s)) where
    abbrev Looped : S → List Reply → Result A → Type 0
    Looped s rs r =
        (n : ℕ)
        → Inv n s
        → Safe sockfd n (λ k j a. Q k a × (j ≤ length rs)) r.outcome r.trace r.rest

    round_case :
        (n : ℕ) (rs : List Reply) (k : S → M A)
        → ((s' : S) (rs' : List Reply) → length rs' < length rs → Looped s' rs' (k s' rs'))
        → (o : Outcome (Next S A)) (t : Trace) (rest : List Reply)
        → Safe sockfd n (GoesOn Inv Q (length rs)) o t rest
        → let r = continue o t rest (resume k) in
          Safe sockfd n (λ k j a. Q k a × (j ≤ length rs)) r.outcome r.trace r.rest
    round_case n rs k ih (ok (again s)) t rest h =
        Safe-append sockfd n (λ k j a. Q k a × (j ≤ length rs)) t (k s rest)
          (λ one two room all.
            let (inv, lt) = h one two in
            Holds-map sockfd (λ k j a. Q k a × (j ≤ length rest)) (λ k j a. Q k a × (j ≤ length rs))
              _ _ (k s rest).outcome (λ a (q, le). (q, omega arith))
              (ih s rest lt (n + size (chunks sockfd t)) inv room all))
    round_case n rs k ih (ok (leave a)) t rest h = rw (append-nil t) h
    round_case n rs k ih (exited _) t rest h = h
    round_case n rs k ih blocked t rest h = h
    round_case n rs k ih fault t rest h = h
    round_case n rs k ih spins t rest h = h

    looped : (s : S) (rs : List Reply) → Looped s rs (forever body s rs)
    looped = forever_rule body Looped (λ s rs k ih n inv.
        round_case n rs k ih _ _ _ ((keeps n (length rs) s inv).runs rs (omega arith)))

    pub forever-Safely :
        (n len : ℕ) (s : S)
        → Inv n s
        → Safely sockfd n len (λ k j a. Q k a × (j ≤ len)) (forever body s)
    forever-Safely n len s inv = record {
      runs = λ rs le room all.
          Holds-map sockfd (λ k j a. Q k a × (j ≤ length rs)) (λ k j a. Q k a × (j ≤ len)) _ _
            (forever body s rs).outcome (λ a (q, less). (q, omega arith))
            (looped s rs n inv room all);
    }
