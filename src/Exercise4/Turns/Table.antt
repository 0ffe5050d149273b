-- ===== src/Exercise4/Turns/Table.antt =====
-- The file that incr.c makes for its table.
use course_code.Base.{
  ℕ, zero, suc, ◌+◌, ◌≡◌, refl, ap, List, [], ◌∷◌, ◌++◌, replicate, append-nil, arith, none, some,
  get_or, if◌then◌else◌,
}
use course_code.Posix.Call.{Bytes, Reply, done, fail, Errno}
use course_code.Posix.Run.{pure, ◌>>=◌}
use course_code.Posix.Libc.{atoi}
use course_code.Posix.Io.{asked, asked_by}
use course_code.Posix.Program.{need, write_unchecked}
use course_code.Posix.FileLock.{lock_init}
use course_code.Posix.Relay.{Fits, Emits, Emits-bind, Emits-times, relayed}
use course_code.Posix.Writes.{write_unchecked-Emits}
use course_code.Exercise4.Turns.{size}
use course_code.Exercise4.Turns.Setup.{
  int_size, is_int, map_table, init_table, lock_name, my_lock_init, set_up,
}

relayed-zeros : (n : ℕ) → relayed {X = ℕ} (λ _. 0 ∷ []) (replicate n []) ≡ replicate n 0
unfolding relayed
relayed-zeros zero = refl
relayed-zeros (suc n) = ap (λ l. 0 ∷ l) (relayed-zeros n)

abbrev pub zeros : ℕ → Bytes
zeros n = replicate n 0

table_zeros : (n : ℕ) → (zeros int_size ++ zeros n) ++ [] ≡ zeros (n + int_size)
table_zeros n =
    let size_of : n + int_size ≡ suc (suc (suc (suc n))) = omega arith in
    rw (size_of, append-nil (zeros n))

module _ (fd : ℕ) where
  init_table-Emits :
      (cells : ℕ) (rs : List Reply)
      → Emits
          (asked_by fd)
          0
          rs
          (replicate int_size 0 ++ replicate cells 0)
          (init_table cells fd rs)
  unfolding init_table
  init_table-Emits cells rs = rw (← relayed-zeros cells) (
      Emits-bind (asked_by fd) 0 rs (write_unchecked fd (replicate int_size 0)) _
        (write_unchecked-Emits 0 fd (replicate int_size 0) rs)
        (λ _.
          Emits-times (asked_by fd) 0 cells (0 ∷ []) (write_unchecked fd (0 ∷ []))
            (write_unchecked-Emits 0 fd (0 ∷ []))))

  my_lock_init-Emits :
      (path : Bytes) (rs : List Reply) → Emits (asked_by fd) 0 rs [] (my_lock_init path rs)
  unfolding my_lock_init need lock_init
  my_lock_init-Emits path [] = record { fits = ([], refl); quiet = refl; shorter = omega arith }
  my_lock_init-Emits path (r ∷ []) = record {
    fits = ([], refl);
    quiet = refl;
    shorter = omega arith;
  }
  my_lock_init-Emits path (r ∷ done n l ∷ rs) = record {
    fits = refl;
    quiet = refl;
    shorter = omega arith;
  }
  my_lock_init-Emits path (r ∷ fail e ∷ rs) = record {
    fits = (refl, ([], refl));
    quiet = refl;
    shorter = omega arith;
  }

  pure-Emits : {A : Type 0} (a : A) (rs : List Reply) → Emits (asked_by fd) 0 rs [] (pure a rs)
  pure-Emits a rs = record { fits = refl; quiet = refl; shorter = omega arith }

  map_table-Emits :
      (path loops char : Bytes) (rs : List Reply)
      → Emits (asked_by fd) 0 rs [] (map_table fd path loops char rs)
  unfolding map_table need
  map_table-Emits path loops char [] = record {
    fits = ([], refl);
    quiet = refl;
    shorter = omega arith;
  }
  map_table-Emits path loops char (fail e ∷ rs) = record {
    fits = (refl, ([], refl));
    quiet = refl;
    shorter = omega arith;
  }
  map_table-Emits path loops char (done n l ∷ []) = record {
    fits = ([], refl);
    quiet = refl;
    shorter = omega arith;
  }
  map_table-Emits path loops char (done n l ∷ r ∷ rs) =
      let e =
        Emits-bind (asked_by fd) 0 rs (my_lock_init (lock_name path)) _
          (my_lock_init-Emits (lock_name path) rs)
          (λ lock rs'.
            pure-Emits
              (record {
                lock = lock;
                num_loop = if is_int loops then some (atoi loops) else none;
                c = get_or char 0 0;
              })
              rs') in
      record { fits = e.fits; quiet = e.quiet; shorter = omega (arith, e.shorter) }

  -- The table and what follows it, whatever its size.
  table-Fits :
      (path loops char : Bytes) (cells : ℕ) (rs : List Reply)
      → let r = (init_table cells fd >>= λ _. map_table fd path loops char) rs in
        Fits r.outcome (asked fd r.trace) (zeros (cells + int_size))
  table-Fits path loops char cells rs =
      rw (← table_zeros cells)
        (Emits-bind (asked_by fd) 0 rs (init_table cells fd) (λ _. map_table fd path loops char)
          (init_table-Emits cells rs) (λ _. map_table-Emits path loops char)).fits

module _ (program path loops char : Bytes) (e : Errno) (fd : ℕ) (l : List ℕ) (rs : List Reply) where
  -- Where `stat` fails and `open` gives `fd`: what incr.c hands to `write` is as many zeros as the
  -- mapping has bytes, those of the counter and of the SIZE places. It is all of them if the set-up is
  -- done, and a front part if it waits or has exited, with status 1.
  pub set_up-zeros :
      let r = set_up program (path ∷ loops ∷ char ∷ []) (fail e ∷ done fd l ∷ rs) in
      Fits r.outcome (asked fd r.trace) (zeros (size + int_size))
  unfolding set_up need
  set_up-zeros = table-Fits fd path loops char size rs
