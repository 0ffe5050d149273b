-- ===== src/Posix/FileLock.antt =====
-- The lock on a whole file that three programs have: exercise3/question-4.c and question-5.c and
-- exercise4/lock.c of network-programming-2013.
use course_code.Base.{ℕ, ◌<◌, ◌≡◌, refl, Bool, true, false, String, List, [], ◌∷◌, length, arith}
use course_code.Base.Int.{ℤ, pos, negsuc}
use course_code.Posix.Call.{Reply, done, fail, Errno, Call, Event, Flock, LockType}
use course_code.Posix.Run.{M, sys, pure, ◌>>=◌, ◌>>◌}
use course_code.Posix.Loop.{Next, again, leave, resume, forever, forever_rule}
use course_code.Posix.Program.{handle_err, need}
use course_code.Posix.Checked.{Checks, Checks-behind, Careful, ◌then◌, need-Careful, pure-Careful}

-- `lock_fd`, `lock_it` and `unlock_it`
pub record FileLock : Type 0 where
  pub lock_fd : ℕ
  pub lock_it : Flock
  pub unlock_it : Flock

abbrev pub whole_file : LockType → Flock
whole_file t = record { l_type = t; l_start = 0; l_len = 0 }

-- What `my_lock_init` sets.
abbrev pub file_lock : ℕ → FileLock
file_lock fd = record {
  lock_fd = fd;
  lock_it = whole_file LockType.wrlck;
  unlock_it = whole_file LockType.unlck;
}

-- `my_lock_init` of a descriptor; `str` is its message for one that is negative.
unfoldable pub lock_init : (str : String) → (fd : ℤ) → M FileLock
lock_init str (pos fd) = pure (file_lock fd)
lock_init str (negsuc _) = handle_err str

-- A call that a signal interrupts is made again.
unfoldable pub lock_round : (str : String) → FileLock → Unit {0} → M (Next (Unit {0}) (Unit {0}))
lock_round str lock _ = do
  rc ← sys (Call.set_lock_wait lock.lock_fd lock.lock_it)
  elim rc [
    | done _ _ ↦ pure (leave tt)
    | fail Errno.eintr ↦ pure (again tt)
    | fail _ ↦ handle_err str
  ]

unfoldable pub lock_wait : (str : String) → FileLock → M (Unit {0})
unfolding lock_round
lock_wait str lock = forever (lock_round str lock) tt

unfoldable pub lock_release : (str : String) → FileLock → M (Unit {0})
unfolding need
lock_release str lock = do need str (Call.set_lock_wait lock.lock_fd lock.unlock_it); pure tt

-- An interrupted call is passed over, and any other failure is not.
abbrev pub interrupted : Event → Bool
interrupted e = elim e.reply [ fail Errno.eintr ↦ true | _ ↦ false ]

abbrev pub lock_event : (fd : ℕ) → LockType → Reply → Event
lock_event fd t r = record { call = Call.set_lock_wait fd (whole_file t); reply = r }

-- Of the failures of `fcntl` a program passes over the interrupted waits only.
module _ (ignored : Event → Bool) (str : String) (fd : ℕ)
    (waits : (r : Reply)
      → ignored (lock_event fd LockType.wrlck r) ≡ interrupted (lock_event fd LockType.wrlck r))
    (releases : (e : Errno) → ignored (lock_event fd LockType.unlck (fail e)) ≡ false) where
  abbrev lock : FileLock
  lock = file_lock fd

  round :
      (s : Unit {0}) (rs : List Reply) (k : Unit {0} → M (Unit {0}))
      → ((s' : Unit {0}) (rs' : List Reply) → length rs' < length rs → Checks ignored (k s' rs'))
      → Checks ignored ((lock_round str lock s >>= resume k) rs)
  unfolding lock_round
  round s [] k ih = tt
  round s (done n l ∷ rs) k ih = refl
  round s (fail Errno.eintr ∷ rs) k ih =
      Checks-behind ignored (lock_event fd LockType.wrlck (fail Errno.eintr) ∷ []) (k tt rs)
        (rw (waits (fail Errno.eintr))) (ih tt rs (omega arith))
  round s (fail e ∷ rs) k ih = (refl, rw (waits (fail e)), refl)

  wait_case : (rs : List Reply) → Checks ignored (lock_wait str lock rs)
  unfolding lock_wait
  wait_case = forever_rule (lock_round str lock) (λ _ _ r. Checks ignored r) round tt

  pub lock_wait-Careful : Careful ignored (lock_wait str lock)
  lock_wait-Careful = record { checks = wait_case }

  pub lock_release-Careful : Careful ignored (lock_release str lock)
  unfolding lock_release
  lock_release-Careful =
      need-Careful (Call.set_lock_wait fd (whole_file LockType.unlck)) str releases
      then (λ _. pure-Careful tt)
