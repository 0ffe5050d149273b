-- ===== src/Exercise2/PipeDoubler/Copies.antt =====
-- What goes through the pipe, and what its reader writes.
use course_code.Base.{ℕ, refl, none, some, String, List, [], ◌∷◌, ◌++◌, append-nil, arith}
use course_code.Posix.Call.{Bytes, Call, Reply, done, fail}
use course_code.Posix.Run.{M, stmt, exit, pure, ◌>>=◌, ◌>>◌}
use course_code.Posix.Io.{asked_by, call, ==_refl}
use course_code.Posix.Relay.{relayed, Emits, Emits-times, Relays, loop-Relays}
use course_code.Posix.Loop.{times}
use course_code.Posix.Finish.{Finishes, Closes, Finishes-of_Relays, while_read-Finishes}
use course_code.Exercise2.PipeDoubler.{max_line, write_or_quit, err_quit, doubler, parent, child}

write_or_quit-Emits :
    (src dst : ℕ) (buf : Bytes) (str : String) (rs : List Reply)
    → Emits (asked_by dst) src rs buf (write_or_quit str dst buf rs)
unfolding write_or_quit
write_or_quit-Emits src dst buf str [] = record {
  fits = (buf, refl);
  quiet = refl;
  shorter = omega arith;
}
write_or_quit-Emits src dst buf str (done n l ∷ rs) = record {
  fits = rw (==_refl dst) (append-nil buf);
  quiet = refl;
  shorter = omega arith;
}
write_or_quit-Emits src dst buf str (fail e ∷ rs) = record {
  fits = (refl, ([], rw (==_refl dst, append-nil buf, append-nil buf)));
  quiet = refl;
  shorter = omega arith;
}

twice-Emits :
    (fd : ℕ) (buf : Bytes) (rs : List Reply)
    → Emits
        (asked_by 1)
        fd
        rs
        (buf ++ buf)
        (times 2 (write_or_quit "write error to stdout" 1 buf) rs)
unfolding relayed
twice-Emits fd buf rs =
    let e =
      Emits-times (asked_by 1) fd 2 buf (write_or_quit "write error to stdout" 1 buf)
        (write_or_quit-Emits fd 1 buf "write error to stdout") rs in
    rw (append-nil buf) at e

doubler-Relays :
    (fd : ℕ) (rs : List Reply) → Relays (asked_by 1) fd (λ buf. buf ++ buf) (doubler fd rs)
unfolding doubler
doubler-Relays fd =
    loop-Relays (asked_by 1) fd max_line (λ buf. buf ++ buf)
      (λ _ buf. times 2 (write_or_quit "write error to stdout" 1 buf)) (λ _. twice-Emits fd)
      (λ r. refl) tt tt

-- The child hands each piece that comes through the pipe to `write` twice, in order, and exits with
-- status 0 only behind all of it.
pub child-Finishes :
    (read_end write_end : ℕ) (rs : List Reply)
    → Finishes (asked_by 1) read_end (λ buf. buf ++ buf) (child read_end write_end rs)
unfolding child relayed
child-Finishes read_end write_end [] = ([], refl)
child-Finishes read_end write_end (r ∷ rs) =
    Finishes-of_Relays (asked_by 1) read_end (λ buf. buf ++ buf) (doubler read_end) (λ _. exit 0) rs
      (doubler-Relays read_end rs)
      (λ _ rs'. record { mute = refl; deaf = refl; stops = omega arith })

-- Behind the loop of the parent.
abbrev parent_end : (pid write_end : ℕ) → M (Unit {0})
parent_end pid write_end = do
  call (Call.close write_end)
  r ← call (Call.wait_child pid)
  stmt (elim r [ none ↦ err_quit "waitpid error" | some _ ↦ pure tt ])
  exit 0

parent_end-Closes :
    (pid write_end : ℕ) (rs : List Reply)
    → Closes (asked_by write_end) 0 (parent_end pid write_end rs)
parent_end-Closes pid write_end [] = record { mute = refl; deaf = refl; stops = tt }
parent_end-Closes pid write_end (r ∷ []) = record { mute = refl; deaf = refl; stops = tt }
parent_end-Closes pid write_end (r ∷ done n l ∷ rs) = record {
  mute = refl;
  deaf = refl;
  stops = omega arith;
}
parent_end-Closes pid write_end (r ∷ fail e ∷ rs) = record {
  mute = refl;
  deaf = refl;
  stops = omega arith;
}

-- The parent hands each piece of its input to the pipe, once and in order; it exits with status 0
-- only behind all of it and behind the end of its child.
pub parent-Finishes :
    (pid read_end write_end : ℕ) (rs : List Reply)
    → Finishes (asked_by write_end) 0 (λ buf. buf) (parent pid read_end write_end rs)
unfolding parent relayed
parent-Finishes pid read_end write_end [] = ([], refl)
parent-Finishes pid read_end write_end (r ∷ rs) =
    while_read-Finishes (asked_by write_end) 0 max_line (λ buf. buf)
      (λ _ buf. write_or_quit "write error to pipe\n" write_end buf) tt
      (λ _. parent_end pid write_end) rs
      (λ _ buf. write_or_quit-Emits 0 write_end buf "write error to pipe\n") (λ r. refl)
      (λ _. parent_end-Closes pid write_end)
