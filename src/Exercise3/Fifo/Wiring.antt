-- ===== src/Exercise3/Fifo/Wiring.antt =====
-- The child of question-2.c puts the two FIFOs in place of its standard streams.
use course_code.Base.{
  ℕ, ◌≡◌, refl, ◌∙◌, ◌≢◌, ◌≤◌, Bool, false, String, inl, inr, List, [], ◌∷◌, arith, Bool-cases,
  ◌==◌,
}
use course_code.Base.Family.{update}
use course_code.Posix.Call.{Bytes, Reply, done, fail, Call, Event}
use course_code.Posix.Run.{M, exited, exit, ◌>>◌}
use course_code.Posix.Libc.{codes, str_eq}
use course_code.Posix.Io.{==_refl}
use course_code.Posix.Program.{need}
use course_code.Posix.Files.{
  File, inherited, opened, pipe_reads, pipe_writes, closed, Table, files, place, place-first,
  place-second, Wired, Wired-exit, Wired-front, Wired-bind,
}
use course_code.Exercise3.Fifo.{fifo1, fifo2, redirect, child}

-- The file with that path.
abbrev pub is_path : Bytes → File → Bool
is_path path (inherited _) = false
is_path path (opened p) = str_eq path p
is_path path pipe_reads = false
is_path path pipe_writes = false
is_path path closed = false

-- What `dup2` and `close` do: the target stands for the file, and the other descriptors, but for the
-- old one, for what they stood for.
abbrev Moved : (fd target : ℕ) → Table → Table → Type 0
Moved fd target table t = (t target ≡ table fd) × ((d : ℕ) → d ≢ fd → d ≢ target → t d ≡ table d)

moved :
    (fd target : ℕ) (table : Table)
    → fd ≢ target
    → Moved fd target table (update (update table target (table fd)) fd closed)
moved fd target table ne =
    let other : (fd == target) ≡ false = ground arith in
    (rw (other, ==_refl target) refl, λ d old new. ground (arith, old, new))

redirect-Wired :
    (Ends : Table → Type 0) (fd target : ℕ) (table : Table) (rs : List Reply)
    → fd ≢ target
    → let r = redirect fd target rs in Wired (Moved fd target table) Ends table r.outcome r.trace
unfolding redirect files
redirect-Wired Ends fd target table [] ne =
    let other : (fd == target) ≡ false = ground arith in rw (other) tt
redirect-Wired Ends fd target table (fail e ∷ rs) ne =
    let other : (fd == target) ≡ false = ground arith in rw (other) tt
redirect-Wired Ends fd target table (done n l ∷ []) ne =
    let other : (fd == target) ≡ false = ground arith in
    elim (Bool-cases (n == target)) [ inl e ↦ rw (other, e) tt | inr e ↦ rw (other, e) tt ]
redirect-Wired Ends fd target table (done n l ∷ r ∷ rs) ne =
    let other : (fd == target) ≡ false = ground arith in
    elim (Bool-cases (n == target)) [
      | inl e ↦ rw (other, e) (moved fd target table ne)
      | inr e ↦ rw (other, e) tt
    ]

-- The calls that are left once the FIFOs are in place.
execute-Wired :
    (Goes P : Table → Type 0) (table : Table) (rs : List Reply)
    → P table
    → let r =
        (need "child: exec converter error" (Call.execve (codes "converter") [])
            >> exit {A = Unit {0}} 0)
          rs in
      Wired Goes P table r.outcome r.trace
unfolding need files
execute-Wired Goes P table [] h = tt
execute-Wired Goes P table (fail e ∷ rs) h = tt
execute-Wired Goes P table (done n l ∷ rs) h = h

-- The two descriptors of the child, at which it opens the FIFOs.
module _ (rfd wfd : ℕ) (l l' : List ℕ) (rs : List Reply) (above : 2 ≤ rfd) (above' : 2 ≤ wfd)
    (differ : rfd ≢ wfd) where
  abbrev both_open : Table
  both_open = update (update inherited rfd (opened fifo1)) wfd (opened fifo2)

  -- Both FIFOs in place of the standard streams.
  abbrev InPlace : Table → Type 0
  InPlace t = (t 0 ≡ opened fifo1) × (t 1 ≡ opened fifo2)

  abbrev OneInPlace : Table → Type 0
  OneInPlace t = (t 0 ≡ opened fifo1) × (t wfd ≡ opened fifo2)

  first_moved : (t : Table) → Moved rfd 0 both_open t → OneInPlace t
  first_moved t (here, elsewhere) =
      let other : (wfd == rfd) ≡ false = ground arith in
      let moved_one : both_open rfd ≡ opened fifo1 = rw (other, ==_refl rfd) refl in
      let left_one : both_open wfd ≡ opened fifo2 = rw (==_refl wfd) refl in
      (here ∙ moved_one, elsewhere wfd (ground arith) (ground arith) ∙ left_one)

  second_moved : (t t' : Table) → OneInPlace t → Moved wfd 1 t t' → InPlace t'
  second_moved t t' (one, two) (here, elsewhere) =
      (elsewhere 0 (ground arith) (ground arith) ∙ one, here ∙ two)

  -- What the child does behind its two `open`s.
  abbrev behind_opens : M (Unit {0})
  behind_opens = do
    redirect rfd 0
    redirect wfd 1
    need "child: exec converter error" (Call.execve (codes "converter") [])
    exit 0

  behind_opens-Wired : let r = behind_opens rs in Wired InPlace InPlace both_open r.outcome r.trace
  behind_opens-Wired =
      Wired-bind (Moved rfd 0 both_open) InPlace InPlace both_open (redirect rfd 0) _ rs
        (redirect-Wired InPlace rfd 0 both_open rs (ground arith))
        (λ _ rs' t first.
          Wired-bind (Moved wfd 1 t) InPlace InPlace t (redirect wfd 1) _ rs'
            (redirect-Wired InPlace wfd 1 t rs' (ground arith))
            (λ _ rs'' t' second.
              execute-Wired InPlace InPlace t' rs''
                (second_moved t t' (first_moved t first) second)))

  abbrev opening : (path : Bytes) → (flags : String) → Reply → Event
  opening path flags r = record { call = Call.open_file path flags; reply = r }

  child-Wired :
      let r = child (done rfd l ∷ done wfd l' ∷ rs) in
      Wired InPlace InPlace inherited r.outcome r.trace
  unfolding child need files
  child-Wired =
      Wired-front InPlace InPlace inherited
        (opening fifo1 "O_RDONLY" (done rfd l) ∷ opening fifo2 "O_WRONLY" (done wfd l') ∷ [])
        (behind_opens rs).outcome (behind_opens rs).trace behind_opens-Wired

  -- A child that came to its `execve`, which succeeded, reaches the first FIFO at descriptor 0 and the
  -- second one at descriptor 1.
  pub child-place :
      let r = child (done rfd l ∷ done wfd l' ∷ rs) in
      r.outcome ≡ exited 0
      → (place (is_path fifo1) (files inherited r.trace) ≡ 0)
        × (place (is_path fifo2) (files inherited r.trace) ≡ 1)
  unfolding str_eq
  child-place success =
      let r = child (done rfd l ∷ done wfd l' ∷ rs) in
      let t = files inherited r.trace in
      let (one, two) = Wired-exit InPlace InPlace inherited r.outcome r.trace success child-Wired in
      (
        place-first (is_path fifo1) t (opened fifo1) one refl,
        place-second (is_path fifo2) t (opened fifo1) (opened fifo2) one two refl refl,
      )
