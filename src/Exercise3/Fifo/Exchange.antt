-- ===== src/Exercise3/Fifo/Exchange.antt =====
-- What the parent of question-2.c hands on from its input and from its second FIFO.
use course_code.Base.{
  ℕ, String, ◌≡◌, refl, ◌≢◌, false, List, [], ◌∷◌, ◌++◌, append-nil, take, arith, ◌==◌,
}
use course_code.Posix.Call.{Bytes, Reply, done, fail, Call}
use course_code.Posix.Run.{M, pure}
use course_code.Posix.Io.{Got, chunk, eof, failed, got, ==_refl, chunks_by, asked_by}
use course_code.Posix.Relay.{relayed}
use course_code.Posix.Program.{write_or_die}
use course_code.Posix.Forward.{
  Passed, Forwards, Apart, ◌then◌, need-Forwards, write-Forwards, sys-Forwards, pure-Forwards,
}
use course_code.Exercise3.Fifo.{fifo1, fifo2, max_line, both_or_die, forward_once, exchange}

hand_on : (to_fd : ℕ) → String → Got → M (Unit {0})
hand_on to_fd str g = elim g [
  | chunk b bs ↦ write_or_die str to_fd (b ∷ bs)
  | eof ↦ pure tt
  | failed ↦ pure tt
]

module _ (src dst : ℕ) where
  message-Apart : (str : String) → Apart (chunks_by src) (asked_by dst) (Call.perror str)
  message-Apart str = record { deaf = λ r. refl; mute = λ r. refl }

  wait-Apart : (pid : ℕ) → Apart (chunks_by src) (asked_by dst) (Call.wait_child pid)
  wait-Apart pid = record { deaf = λ r. refl; mute = λ r. refl }

  close-Apart : (fd : ℕ) → Apart (chunks_by src) (asked_by dst) (Call.close fd)
  close-Apart fd = record { deaf = λ r. refl; mute = λ r. refl }

  unlink-Apart : (path : Bytes) → Apart (chunks_by src) (asked_by dst) (Call.unlink path)
  unlink-Apart path = record { deaf = λ r. refl; mute = λ r. refl }

  hand_on_elsewhere :
      (to_fd : ℕ) (str : String) (g : Got)
      → to_fd ≢ dst
      → Forwards (chunks_by src) (asked_by dst) {A = Unit {0}} (elim g [
        | chunk b bs ↦ write_or_die str to_fd (b ∷ bs)
        | eof ↦ pure tt
        | failed ↦ pure tt
      ])
  hand_on_elsewhere to_fd str (chunk b bs) ne =
      let other : (to_fd == dst) ≡ false = ground arith in
      write-Forwards str to_fd (b ∷ bs) (record { deaf = λ r. refl; mute = λ r. rw other refl })
        (message-Apart str)
  hand_on_elsewhere to_fd str eof ne = pure-Forwards tt
  hand_on_elsewhere to_fd str failed ne = pure-Forwards tt

  read-Apart : (fd : ℕ) → fd ≢ src → Apart (chunks_by src) (asked_by dst) (Call.read fd max_line)
  read-Apart fd ne =
      let other : (fd == src) ≡ false = ground arith in
      record { deaf = λ r. rw other refl; mute = λ r. refl }

  pub forward_elsewhere :
      (from_fd to_fd : ℕ) (str : String)
      → from_fd ≢ src
      → to_fd ≢ dst
      → Forwards (chunks_by src) (asked_by dst) (forward_once from_fd to_fd str)
  unfolding forward_once
  forward_elsewhere from_fd to_fd str ne ne' =
      (sys-Forwards (Call.read from_fd max_line) (read-Apart from_fd ne)
        then (λ r. pure-Forwards (got max_line r)))
      then (λ g. hand_on_elsewhere to_fd str g ne')

  forward_case :
      (str : String) (rs : List Reply)
      → Passed (chunks_by src) (asked_by dst) (forward_once src dst str rs)
  unfolding forward_once write_or_die relayed
  forward_case str [] = record { fits = ([], refl) }
  forward_case str (fail e ∷ rs) = record { fits = rw (==_refl src) refl }
  forward_case str (done n [] ∷ rs) = record { fits = rw (==_refl src) refl }
  forward_case str (done n (b ∷ l) ∷ []) = record { fits = (_, refl) }
  forward_case str (done n (b ∷ l) ∷ done k l' ∷ rs) = record {
    fits = rw (==_refl src, ==_refl dst) refl;
  }
  forward_case str (done n (b ∷ l) ∷ fail e ∷ rs) = record {
    fits = rw (==_refl src, ==_refl dst) (refl, ([], append-nil (b ∷ (take 1023 l ++ []))));
  }

  pub forward_here :
      (str : String) → Forwards (chunks_by src) (asked_by dst) (forward_once src dst str)
  forward_here str = record { passed = forward_case str }

  both-Forwards :
      (str : String) (c d : Call)
      → Apart (chunks_by src) (asked_by dst) c
      → Apart (chunks_by src) (asked_by dst) d
      → Forwards (chunks_by src) (asked_by dst) (both_or_die str c d)
  unfolding both_or_die
  both-Forwards str c d a a' =
      need-Forwards c str a (message-Apart str)
      then (λ _. need-Forwards d str a' (message-Apart str) then (λ _. pure-Forwards tt))

  -- One of its two reads hands on what it read.
  pub exchange-Forwards :
      (pid wfd rfd : ℕ)
      → Forwards (chunks_by src) (asked_by dst) (forward_once 0 wfd "parent: write error to fifo\n")
      → Forwards
          (chunks_by src)
          (asked_by dst)
          (forward_once rfd 1 "parent: write error to stdout\n")
      → Forwards (chunks_by src) (asked_by dst) (exchange pid wfd rfd)
  unfolding exchange
  exchange-Forwards pid wfd rfd h g = h then (λ _.
      need-Forwards (Call.wait_child pid) "parent: waitpid error" (wait-Apart pid)
        (message-Apart "parent: waitpid error")
      then (λ _. g then (λ _.
          both-Forwards "parent: close fifo error" (Call.close rfd) (Call.close wfd)
            (close-Apart rfd) (close-Apart wfd)
          then (λ _.
              both-Forwards "parent: unlink fifo error" (Call.unlink fifo1) (Call.unlink fifo2)
                (unlink-Apart fifo1) (unlink-Apart fifo2)))))
