-- ===== src/Break/Session/Quiet.antt =====
-- Parts of the commands that are safe however much has come, and a `read` from the server.
use course_code.Base.{
  ℕ, suc, ◌+◌, ◌≤◌, ◌<◌, ◌≡◌, refl, inl, inr, List-cases, Option, none, some, String, List, [], ◌∷◌,
  take, length, length-take, arith, if◌then◌else◌,
}
use course_code.Posix.Call.{Bytes, Reply, done, fail, Call}
use course_code.Posix.Run.{M, sys, pure, ◌>>=◌}
use course_code.Posix.Libc.{codes}
use course_code.Posix.Io.{
  Got, chunk, eof, failed, read, accepted, write, call, result, chunks, chunks_by, ==_refl,
}
use course_code.Posix.Program.{handle_err, write_unchecked, write_or_die}
use course_code.Break.Session.{Surroundings, max_line, literal, file_path, send_path}
use course_code.Break.Session.Budget.{
  size, NotTransfer, Safe, Safely, ◌then◌, pure-Safely, sys-Safely, Holds-map,
}

taken-le : (c b : ℕ) (l bs : Bytes) → take c l ≡ b ∷ bs → suc (length bs) ≤ c
taken-le c b l bs e =
    let whole : length (take c l) ≡ suc (length bs) = rw e refl in
    omega (arith, whole, length-take c l)

module _ (sockfd : ℕ) where
  abbrev pub Step : (n len : ℕ) → {A : Type 0} → (spent left : ℕ) → A → Type 0
  Step n len k j _ = (n ≤ k) × (j ≤ len)

  -- A program that is safe however much has come.
  pub record Quiet {A : Type 0} (m : M A) : Type 0 where
    pub quiet : (n len : ℕ) → Safely sockfd n len (Step n len) m

module _ {sockfd : ℕ} where
  infixl 5 ◌first◌ ◌and◌
  pub ◌first◌ :
      {n len : ℕ} {A B : Type 0} {Q : (spent left : ℕ) → B → Type 0} {m : M A} {f : A → M B}
      → Quiet sockfd m
      → ((a : A) (k j : ℕ) → n ≤ k → j ≤ len → Safely sockfd k j Q (f a))
      → Safely sockfd n len Q (m >>= f)
  ◌first◌ {n} {len} q g = q.quiet n len then (λ a k j (more, less). g a k j more less)

  pub pure-Quiet : {A : Type 0} (a : A) → Quiet sockfd (pure a)
  pure-Quiet a = record { quiet = λ n len. pure-Safely a (λ k j more less. (more, less)) }

  pub ◌and◌ :
      {A B : Type 0} {m : M A} {f : A → M B}
      → Quiet sockfd m
      → ((a : A) → Quiet sockfd (f a))
      → Quiet sockfd (m >>= f)
  ◌and◌ {f = f} q g = record {
    quiet = λ n len. q first (λ a k j more less. record {
      runs = λ rs le room all.
          Holds-map sockfd (Step sockfd k j) (Step sockfd n len) _ _ (f a rs).outcome
            (λ b (up, down). (omega arith, omega arith)) (((g a).quiet k j).runs rs le room all);
    });
  }

  sys-Quiet :
      (c : Call)
      → ((r : Reply) → chunks_by sockfd (record { call = c; reply = r }) ≡ [])
      → Quiet sockfd (sys c)
  sys-Quiet c deaf = record { quiet = λ n len. sys-Safely c deaf }

  pub call-Quiet :
      (c : Call)
      → ((r : Reply) → chunks_by sockfd (record { call = c; reply = r }) ≡ [])
      → Quiet sockfd (call c)
  call-Quiet c deaf = sys-Quiet c deaf and (λ r. pure-Quiet (result r))

  write-Quiet : (fd : ℕ) (bs : Bytes) → Quiet sockfd (write fd bs)
  write-Quiet fd bs =
      sys-Quiet (Call.write fd bs) (λ r. refl) and (λ r. pure-Quiet (accepted (length bs) r))

  pub show-Quiet : (bs : Bytes) → Quiet sockfd (write_unchecked 1 bs)
  unfolding write_unchecked
  show-Quiet bs = write-Quiet 1 bs and (λ r. pure-Quiet tt)

  pub handle_err-Safely :
      {n len : ℕ} {A : Type 0} {P : (spent left : ℕ) → A → Type 0} (str : String)
      → Safely sockfd n len P (handle_err str)
  handle_err-Safely str = record { runs = λ rs le room all. tt }

  checked-Quiet :
      (str : String) (r : Option ℕ)
      → Quiet sockfd {A = Unit {0}} (elim r [ none ↦ handle_err str | some _ ↦ pure tt ])
  checked-Quiet str none = record { quiet = λ n len. handle_err-Safely str }
  checked-Quiet str (some _) = pure-Quiet tt

  pub tell-Quiet : (str : String) (bs : Bytes) → Quiet sockfd (write_or_die str sockfd bs)
  unfolding write_or_die
  tell-Quiet str bs = write-Quiet sockfd bs and (λ r. checked-Quiet str r)

  pub path-Quiet : (w : Surroundings) → Quiet sockfd (send_path w sockfd)
  unfolding send_path
  path-Quiet w =
      show-Quiet (literal w (codes "C received\n") 12)
      and (λ _. tell-Quiet "write error to server" file_path)

  -- A `read` from the server, and what follows.
  read_case :
      {B : Type 0} (n len count : ℕ) (Q : (spent left : ℕ) → B → Type 0) (f : Got → M B)
      → ((j : ℕ) → j < len → Safely sockfd n j Q (f eof))
      → ((j : ℕ) → j < len → Safely sockfd n j Q (f failed))
      → ((b : ℕ) (bs : Bytes) (j : ℕ)
          → suc (length bs) ≤ count
          → n + suc (length bs) ≤ max_line
          → NotTransfer (b ∷ bs)
          → j < len
          → Safely sockfd (n + suc (length bs)) j Q (f (chunk b bs)))
      → (rs : List Reply) → length rs ≤ len
      → let r = (read sockfd count >>= f) rs in Safe sockfd n Q r.outcome r.trace r.rest
  read_case n len count Q f at_end broken more [] le = λ room all. tt
  read_case n len count Q f at_end broken more (fail e ∷ rs) le =
      rw (==_refl sockfd) ((broken (length rs) (omega arith)).runs rs (omega arith))
  read_case n len count Q f at_end broken more (done m l ∷ rs) le =
      elim (List-cases (take count l)) [
        | inl e ↦ rw (e, ==_refl sockfd) ((at_end (length rs) (omega arith)).runs rs (omega arith))
        | inr (b, bs, e) ↦
            rw (e, ==_refl sockfd)
              (λ room (fair, all).
                let t = (f (chunk b bs) rs).trace in
                let sum : n + (suc (length bs) + size (chunks sockfd t))
                    ≡ n + suc (length bs) + size (chunks sockfd t) =
                  omega arith in
                let later =
                  more b bs (length rs) (taken-le count b l bs e) (omega arith) fair
                    (omega arith) in
                rw sum (later.runs rs (omega arith) (omega arith) all))
      ]

  pub read-Safely :
      {n len count : ℕ} {B : Type 0} {Q : (spent left : ℕ) → B → Type 0} {f : Got → M B}
      → ((j : ℕ) → j < len → Safely sockfd n j Q (f eof))
      → ((j : ℕ) → j < len → Safely sockfd n j Q (f failed))
      → ((b : ℕ) (bs : Bytes) (j : ℕ)
          → suc (length bs) ≤ count
          → n + suc (length bs) ≤ max_line
          → NotTransfer (b ∷ bs)
          → j < len
          → Safely sockfd (n + suc (length bs)) j Q (f (chunk b bs)))
      → Safely sockfd n len Q (read sockfd count >>= f)
  read-Safely {n} {len} {count} {Q = Q} {f = f} at_end broken more = record {
    runs = read_case n len count Q f at_end broken more;
  }
