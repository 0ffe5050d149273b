-- ===== src/Exercise1/Options/Printing.antt =====
-- The parts of question-4.c and question-5.c: what they read, what they put out, and their marks.
use course_code.Base.{
  ℕ, ◌≡◌, refl, ◌∙◌, none, some, List, [], ◌∷◌, ◌++◌, append-nil, ◌==◌, if◌then◌else◌, Option,
  length, Bool-cases, inl, inr,
}
use course_code.Posix.Call.{Bytes, Reply, Call, Event, Trace}
use course_code.Posix.Run.{pure, Outcome, ok, exited, blocked, fault, spins}
use course_code.Posix.Io.{==_refl, got, pieces, gather, chunks, chunks_by, sent_by}
use course_code.Posix.Libc.{codes, char_array}
use course_code.Posix.Relay.{Fits}
use course_code.Posix.Forward.{Forwards}
use course_code.Posix.Sends.{Sends}
use course_code.Posix.Silent.{
  Silent, ◌then◌, pure-Silent, exit-Silent, call-Silent, write-Silent, while_read-Silent,
}
use course_code.Exercise1.Options.{buff_size, err_buff_size, complain, write_exact, print}
use course_code.Exercise1.Options.Copies.{print-Relays}

-- What came in, from any descriptor.
abbrev pub taken_in : Event → List Bytes
taken_in e = elim e.call [
  | Call.read _ count ↦ pieces (got count e.reply)
  | Call.recvfrom _ count ↦ pieces (got count e.reply)
  | _ ↦ []
]

-- What came in from any other descriptor.
abbrev stray : ℕ → Event → List Bytes
stray file e = elim e.call [
  | Call.read d count ↦ if d == file then [] else pieces (got count e.reply)
  | Call.recvfrom d count ↦ if d == file then [] else pieces (got count e.reply)
  | _ ↦ []
]

-- A handler is installed, or a file is opened.
pub data Mark : Type 0 where
  installs : Mark
  opens : Bytes → Mark

abbrev pub marks : Event → List Mark
marks e = elim e.call [
  | Call.signal _ _ ↦ installs ∷ []
  | Call.sigaction _ _ _ ↦ installs ∷ []
  | Call.open_file path _ ↦ opens path ∷ []
  | _ ↦ []
]

module _ {X : Type 0} (part : Event → List X)
    (writing : (fd : ℕ) (bs : Bytes) (r : Reply)
      → part (record { call = Call.write fd bs; reply = r }) ≡ []) where
  complain-Silent : {A : Type 0} (err : Bytes) → Silent part {A = A} (complain err)
  complain-Silent err = write-Silent 2 err (writing 2 err) then (λ _. exit-Silent 1)

  exact-Silent :
      (n : ℕ) (r : Option ℕ)
      → Silent part {A = Unit {0}} (elim r [
        | none ↦ complain (char_array err_buff_size (codes "can't write to stdout\n"))
        | some m ↦
            if m == n
            then pure tt
            else complain (char_array err_buff_size (codes "can't write to stdout\n"))
      ])
  exact-Silent n none = complain-Silent _
  exact-Silent n (some m) = elim (Bool-cases (m == n)) [
    | inl e ↦ rw e (pure-Silent tt)
    | inr e ↦ rw e (complain-Silent _)
  ]

  write_exact-Silent : (buf : Bytes) → Silent part (write_exact buf)
  unfolding write_exact
  write_exact-Silent buf =
      write-Silent 1 buf (writing 1 buf) then (λ k. exact-Silent (length buf) k)

  print-Silent :
      (file : ℕ)
      → ((r : Reply) → part (record { call = Call.read file buff_size; reply = r }) ≡ [])
      → ((r : Reply) → part (record { call = Call.sleep 10; reply = r }) ≡ [])
      → Silent part (print file)
  unfolding print
  print-Silent file reading sleeping =
      while_read-Silent buff_size (Call.read file buff_size) (λ _ buf. write_exact buf) reading
        (λ _ buf. write_exact-Silent buf) tt
      then (λ _. call-Silent (Call.sleep 10) sleeping then (λ _. pure-Silent tt))

stray-taken_in :
    (file : ℕ) (c : Call) (r : Reply)
    → stray file (record { call = c; reply = r }) ≡ []
    → taken_in (record { call = c; reply = r }) ≡ chunks_by file (record { call = c; reply = r })
stray-taken_in file (Call.read d count) r h = elim (Bool-cases (d == file)) [
  | inl e ↦ rw e refl
  | inr e ↦ let none_else = rw e at h in rw e none_else
]
stray-taken_in file (Call.recvfrom d count) r h = elim (Bool-cases (d == file)) [
  | inl e ↦ rw e refl
  | inr e ↦ let none_else = rw e at h in rw e none_else
]
stray-taken_in file c r h = refl

append-empty : {X : Type 0} (xs ys : List X) → xs ++ ys ≡ [] → (xs ≡ []) × (ys ≡ [])
append-empty [] ys h = (refl, h)
append-empty (x ∷ xs) ys h = absurd (cc)

taken_in-of_one :
    (file : ℕ) (t : Trace) → gather (stray file) t ≡ [] → gather taken_in t ≡ chunks file t
taken_in-of_one file [] h = refl
taken_in-of_one file (e ∷ t) h =
    let (here, behind) = append-empty (stray file e) (gather (stray file) t) h in
    rw (stray-taken_in file e.call e.reply here, taken_in-of_one file t behind) refl

-- A program gives up the same way however much came of it.
Fits-nothing :
    {A X Y : Type 0} (o : Outcome A) (made wanted : List X) (nothing : List Y)
    → Fits o made wanted
    → nothing ≡ []
    → Fits o nothing []
Fits-nothing (ok _) made wanted nothing h e = e
Fits-nothing (exited n) made wanted nothing (one, h) e = (one, ([], append-nil nothing ∙ e))
Fits-nothing blocked made wanted nothing h e = ([], append-nil nothing ∙ e)
Fits-nothing fault made wanted nothing h e = h
Fits-nothing spins made wanted nothing h e = h

module _ (file : ℕ) where
  -- All that comes in goes out.
  pub print-Forwards : Forwards taken_in (sent_by 1) (print file)
  print-Forwards =
      let others =
        print-Silent (stray file) (λ fd bs r. refl) file (λ r. rw (==_refl file) refl)
          (λ r. refl) in
      record {
        passed = λ rs. record {
          fits =
              rw (taken_in-of_one file (print file rs).trace (others.silent rs))
                (print-Relays file rs);
        };
      }

  -- No file is opened, and no handler installed.
  pub print-Sends : Sends marks [] (print file)
  print-Sends = record {
    fits = λ rs.
        Fits-nothing (print file rs).outcome _ _ (gather marks (print file rs).trace)
          (print-Relays file rs)
          ((print-Silent marks (λ fd bs r. refl) file (λ r. refl) (λ r. refl)).silent rs);
  }
