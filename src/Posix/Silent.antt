-- ===== src/Posix/Silent.antt =====
-- Programs that have no part in some kind of event, whatever they end in.
use course_code.Base.{ℕ, String, ◌≡◌, refl, List, [], ◌∷◌, Option, none, some, length}
use course_code.Posix.Call.{Bytes, Reply, done, Call, Event, Trace}
use course_code.Posix.Run.{
  Result, Outcome, ok, exited, blocked, fault, spins, M, sys, pure, exit, ◌>>=◌, continue,
}
use course_code.Posix.Io.{
  Got, chunk, eof, failed, got, taken, gather, gather-append, call, result, write, accepted,
  sent_by, asked_by, chunks_by,
}
use course_code.Posix.Loop.{
  Next, again, leave, resume, forever, forever_any, Ended, at_eof, on_error, read_round, while_read,
}
use course_code.Posix.Program.{handle_err, need}

module _ {X : Type 0} (part : Event → List X) where
  pub record Silent {A : Type 0} (m : M A) : Type 0 where
    pub silent : (rs : List Reply) → gather part (m rs).trace ≡ []

  bind_case :
      {A B : Type 0} (o : Outcome A) (t : Trace) (rest : List Reply) (f : A → M B)
      → gather part t ≡ []
      → ((a : A) → Silent (f a))
      → gather part (continue o t rest f).trace ≡ []
  bind_case (ok a) t rest f h g = rw (gather-append part t (f a rest).trace, h) ((g a).silent rest)
  bind_case (exited _) t rest f h g = h
  bind_case blocked t rest f h g = h
  bind_case fault t rest f h g = h
  bind_case spins t rest f h g = h

  sys_case :
      (c : Call)
      → ((r : Reply) → part (record { call = c; reply = r }) ≡ [])
      → (rs : List Reply) → gather part (sys c rs).trace ≡ []
  sys_case c h [] = refl
  sys_case c h (r ∷ rs) = rw (h r) refl

module _ {X : Type 0} {part : Event → List X} where
  infixl 5 ◌then◌
  pub ◌then◌ :
      {A B : Type 0} {m : M A} {f : A → M B}
      → Silent part m
      → ((a : A) → Silent part (f a))
      → Silent part (m >>= f)
  ◌then◌ {m = m} {f = f} h g = record {
    silent =
        λ rs. bind_case part (m rs).outcome (m rs).trace (m rs).rest f (h.silent rs) (λ a. g a);
  }

  pub pure-Silent : {A : Type 0} (a : A) → Silent part (pure a)
  pure-Silent a = record { silent = λ rs. refl }

  pub exit-Silent : {A : Type 0} (n : ℕ) → Silent part {A = A} (exit n)
  exit-Silent n = record { silent = λ rs. refl }

  sys-Silent :
      (c : Call) → ((r : Reply) → part (record { call = c; reply = r }) ≡ []) → Silent part (sys c)
  sys-Silent c h = record { silent = sys_case part c h }

  pub call-Silent :
      (c : Call) → ((r : Reply) → part (record { call = c; reply = r }) ≡ []) → Silent part (call c)
  call-Silent c h = sys-Silent c h then (λ r. pure-Silent (result r))

  pub write-Silent :
      (fd : ℕ) (bs : Bytes)
      → ((r : Reply) → part (record { call = Call.write fd bs; reply = r }) ≡ [])
      → Silent part (write fd bs)
  write-Silent fd bs h =
      sys-Silent (Call.write fd bs) h then (λ r. pure-Silent (accepted (length bs) r))

  pub handle_err-Silent :
      {A : Type 0} (str : String)
      → part (record { call = Call.perror str; reply = done 0 [] }) ≡ []
      → Silent part {A = A} (handle_err str)
  handle_err-Silent str h = record { silent = λ rs. rw h refl }

  or_die :
      (str : String) (r : Option ℕ)
      → part (record { call = Call.perror str; reply = done 0 [] }) ≡ []
      → Silent part {A = ℕ} (elim r [ none ↦ handle_err str | some n ↦ pure n ])
  or_die str none h = handle_err-Silent str h
  or_die str (some n) h = pure-Silent n

  pub need-Silent :
      (str : String) (c : Call)
      → ((r : Reply) → part (record { call = c; reply = r }) ≡ [])
      → part (record { call = Call.perror str; reply = done 0 [] }) ≡ []
      → Silent part (need str c)
  unfolding need
  need-Silent str c h k = call-Silent c h then (λ r. or_die str r k)

  resume-Silent :
      {S A : Type 0} (k : S → M A) (n : Next S A)
      → ((s : S) → Silent part (k s))
      → Silent part (resume k n)
  resume-Silent k (again s) h = h s
  resume-Silent k (leave a) h = pure-Silent a

  pub forever-Silent :
      {S A : Type 0} (body : S → M (Next S A))
      → ((s : S) → Silent part (body s))
      → (s : S) → Silent part (forever body s)
  forever-Silent {A = A} body h s = record {
    silent =
        forever_any body (λ (r : Result A). gather part r.trace ≡ []) (λ rs. refl)
          (λ s' rs k ih.
            (h s' then (λ n. resume-Silent k n (λ s''. record { silent = ih s'' }))).silent rs)
          s;
  }

  round-Silent :
      {S : Type 0} (body : S → Bytes → M S) (s : S) (g : Got)
      → ((s' : S) (buf : Bytes) → Silent part (body s' buf))
      → Silent part {A = Next S (S × Ended)} (elim g [
        | chunk b bs ↦ (do s' ← body s (b ∷ bs); pure (again s'))
        | eof ↦ pure (leave (s, at_eof))
        | failed ↦ pure (leave (s, on_error))
      ])
  round-Silent body s (chunk b bs) h = h s (b ∷ bs) then (λ s'. pure-Silent (again s'))
  round-Silent body s eof h = pure-Silent (leave (s, at_eof))
  round-Silent body s failed h = pure-Silent (leave (s, on_error))

  pub while_read-Silent :
      {S : Type 0} (count : ℕ) (c : Call) (body : S → Bytes → M S)
      → ((r : Reply) → part (record { call = c; reply = r }) ≡ [])
      → ((s : S) (buf : Bytes) → Silent part (body s buf))
      → (s : S) → Silent part (while_read (taken count c) body s)
  unfolding while_read
  while_read-Silent count c body h g = forever-Silent (read_round (taken count c) body) (λ s.
      (sys-Silent c h then (λ r. pure-Silent (got count r)))
      then (λ got'. round-Silent body s got' g))

-- The calls that put a program's standard streams in place and execute another one.
pub record Preparing {X : Type 0} (part : Event → List X) : Type 0 where
  pub opening :
      (path : Bytes) (flags : String) (r : Reply)
      → part (record { call = Call.open_file path flags; reply = r }) ≡ []
  pub copying :
      (old new : ℕ) (r : Reply) → part (record { call = Call.dup2 old new; reply = r }) ≡ []
  pub closing : (fd : ℕ) (r : Reply) → part (record { call = Call.close fd; reply = r }) ≡ []
  pub executing :
      (path : Bytes) (args : List Bytes) (r : Reply)
      → part (record { call = Call.execve path args; reply = r }) ≡ []
  pub complaining :
      (str : String) → part (record { call = Call.perror str; reply = done 0 [] }) ≡ []

pub sent_by-Preparing : (fd : ℕ) → Preparing (sent_by fd)
sent_by-Preparing fd = record {
  opening = λ path flags r. refl;
  copying = λ old new r. refl;
  closing = λ fd' r. refl;
  executing = λ path args r. refl;
  complaining = λ str. refl;
}

pub asked_by-Preparing : (fd : ℕ) → Preparing (asked_by fd)
asked_by-Preparing fd = record {
  opening = λ path flags r. refl;
  copying = λ old new r. refl;
  closing = λ fd' r. refl;
  executing = λ path args r. refl;
  complaining = λ str. refl;
}

pub chunks_by-Preparing : (fd : ℕ) → Preparing (chunks_by fd)
chunks_by-Preparing fd = record {
  opening = λ path flags r. refl;
  copying = λ old new r. refl;
  closing = λ fd' r. refl;
  executing = λ path args r. refl;
  complaining = λ str. refl;
}
