-- ===== src/Exercise3/ExitStatus/Wiring.antt =====
-- The child of question-1-pipe.c puts the pipe in place of its standard input.
use course_code.Base.{
  ℕ, zero, suc, ◌≡◌, refl, ◌≢◌, Bool, true, false, inl, inr, List, [], ◌∷◌, arith, Bool-cases, none,
  some, ◌==◌, if◌then◌else◌,
}
use course_code.Base.Family.{update}
use course_code.Posix.Call.{Reply, done, fail, Call}
use course_code.Posix.Run.{M, exited, pure, stmt, ◌>>=◌, ◌>>◌}
use course_code.Posix.Io.{call, ==_refl}
use course_code.Posix.Program.{handle_err}
use course_code.Posix.Files.{
  File, inherited, opened, pipe_reads, pipe_writes, closed, Table, files, place, place-first, Wired,
  Wired-exit, Wired-bind,
}
use course_code.Exercise3.ExitStatus.{exec_doubler, piped_child}

abbrev pub is_read_end : File → Bool
is_read_end (inherited _) = false
is_read_end (opened _) = false
is_read_end pipe_reads = true
is_read_end pipe_writes = false
is_read_end closed = false

-- The descriptors of a process that has made a pipe, and of its children.
abbrev pub with_pipe : (read_end write_end : ℕ) → Table
with_pipe read_end write_end = update (update inherited write_end pipe_writes) read_end pipe_reads

-- The pipe in place of the standard input.
abbrev InPlace : Table → Type 0
InPlace t = t 0 ≡ pipe_reads

exec_doubler-Wired :
    (table : Table) (rs : List Reply)
    → InPlace table
    → Wired InPlace InPlace table (exec_doubler rs).outcome (exec_doubler rs).trace
unfolding exec_doubler files
exec_doubler-Wired table [] h = tt
exec_doubler-Wired table (fail e ∷ rs) h = tt
exec_doubler-Wired table (done n l ∷ rs) h = h

-- The read end is moved to the standard input.
abbrev moving : (read_end : ℕ) → M (Unit {0})
moving read_end = do
  r ← call (Call.dup2 read_end 0)
  stmt (elim r [
    | some zero ↦ pure tt
    | some (suc _) ↦ handle_err "dup2 error"
    | none ↦ handle_err "dup2 error"
  ])
  call (Call.close read_end)
  pure tt

moving-Wired :
    (read_end : ℕ) (table : Table) (rs : List Reply)
    → read_end ≢ 0
    → table read_end ≡ pipe_reads
    → Wired InPlace InPlace table (moving read_end rs).outcome (moving read_end rs).trace
unfolding files
moving-Wired read_end table [] ne h = tt
moving-Wired read_end table (fail e ∷ rs) ne h = tt
moving-Wired read_end table (done zero l ∷ []) ne h = tt
moving-Wired read_end table (done zero l ∷ r ∷ rs) ne h =
    let other : (read_end == 0) ≡ false = ground arith in rw (other) h
moving-Wired read_end table (done (suc n) l ∷ rs) ne h = tt

module _ (read_end write_end : ℕ) (differ : read_end ≢ write_end) where
  abbrev without_write_end : Table
  without_write_end = update (with_pipe read_end write_end) write_end closed

  reads_still : without_write_end read_end ≡ pipe_reads
  reads_still =
      let other : (write_end == read_end) ≡ false = ground arith in
      rw (other, ==_refl read_end) refl

  close-Wired :
      (rs : List Reply)
      → let r = call (Call.close write_end) rs in
        Wired
          (λ t. t read_end ≡ pipe_reads)
          InPlace
          (with_pipe read_end write_end)
          r.outcome
          r.trace
  unfolding files
  close-Wired [] = tt
  close-Wired (r ∷ rs) = reads_still

  piped_child-Wired :
      (rs : List Reply)
      → let r = piped_child read_end write_end rs in
        Wired InPlace InPlace (with_pipe read_end write_end) r.outcome r.trace
  unfolding piped_child files
  piped_child-Wired rs =
      Wired-bind (λ t. t read_end ≡ pipe_reads) InPlace InPlace (with_pipe read_end write_end)
        (call (Call.close write_end)) _ rs (close-Wired rs)
        (λ _ rs' t still.
          Wired-bind InPlace InPlace InPlace t (if read_end == 0 then pure tt else moving read_end)
            (λ _. exec_doubler) rs'
            (elim (Bool-cases (read_end == 0)) [
              | inl e ↦
                  let lowest_one : read_end ≡ 0 = ground arith in rw e (rw lowest_one at still)
              | inr e ↦ rw e (moving-Wired read_end t rs' (ground arith) still)
            ])
            (λ _ rs'' t' placed. exec_doubler-Wired t' rs'' placed))

  -- A child that came to its `execve`, which succeeded, reaches the pipe at descriptor 0.
  pub piped_child-place :
      (rs : List Reply)
      → let r = piped_child read_end write_end rs in
        r.outcome ≡ exited 0 → place is_read_end (files (with_pipe read_end write_end) r.trace) ≡ 0
  piped_child-place rs success =
      let r = piped_child read_end write_end rs in
      place-first is_read_end (files (with_pipe read_end write_end) r.trace) pipe_reads
        (Wired-exit InPlace InPlace (with_pipe read_end write_end) r.outcome r.trace success
          (piped_child-Wired rs))
        refl
