-- ===== src/Break/Session/Memory.antt =====
-- The commands stay within the buffer as long as the server sends no more than it holds.
use course_code.Base.{Option, none, some, ℕ, ◌≤◌}
use course_code.Posix.Call.{Call}
use course_code.Posix.Run.{Outcome, ok, exited, blocked, fault, spins}
use course_code.Posix.Loop.{Next}
use course_code.Break.Session.{Session, max_line}
use course_code.Break.Session.Budget.{GoesOn}

-- `byte` has been set, to a value in range.
abbrev pub SetInRange : Option ℕ → Type 0
SetInRange none = ⊥
SetInRange (some byte) = byte ≤ max_line

-- Behind `n` bytes from the server.
abbrev Inside : ℕ → Session → Type 0
Inside n s = (s.ptr ≤ n) × SetInRange s.byte

abbrev Answered : (top spent left : ℕ) → Next Session (Unit {0}) → Type 0
Answered = GoesOn Inside (λ _ _. Unit {0})

-- The outcomes without an access over the end of `buf` or to an unset `byte`, or a loop that makes no call.
abbrev pub InBounds : {A : Type 0} → Outcome A → Type 0
InBounds (ok _) = Unit
InBounds (exited _) = Unit
InBounds blocked = Unit
InBounds fault = ⊥
InBounds spins = ⊥
