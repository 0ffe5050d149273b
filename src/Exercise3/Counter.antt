-- ===== src/Exercise3/Counter.antt =====
-- network-programming-2013/exercise3/question-4.c: processes that add one to a counter in shared memory,
-- under a lock on its file.
--
-- The load and the store of `(*ptr)++` are steps of their own, and so is the `printf` behind them. The
-- processes are those that have opened and mapped the same file: the write of the zero in front of
-- the lock, and the unlinking of the file at the end, stand in Counter/Program.antt.
pub mod Sequence
pub mod StepsLeft
pub mod Numbers
pub mod Ending
pub mod Fairness
pub mod Program
pub mod Failures
use course_code.Base.{ℕ, ◌+◌, ◌%◌, Option, none, some, List, [], ◌∷◌, ltb, if◌then◌else◌}
use course_code.Base.Family.{update}

-- The 32 bits of an `int`: an increment behind the largest one wraps around.
abbrev pub int_bits : ℕ → ℕ
int_bits n = n % 4294967296

-- The mapped file, with the bits of the `int` that it holds, the owner of the lock, and the numbers that were printed, the last one first.
pub record Memory : Type 0 where
  pub owner : Option ℕ
  pub value : ℕ
  pub printed : List ℕ

-- Where a process stands behind `my_lock_init`.
pub data Stage : Type 0 where
  asking : Stage  -- in `my_lock_wait`
  sleeping : Stage  -- it has the lock, and has not read the counter
  loaded : (v : ℕ) → Stage
  stored : (v : ℕ) → Stage  -- before the number goes out
  leaving : Stage  -- before `my_lock_release`
  over : Stage

pub record Machine : Type 0 where
  pub memory : Memory
  pub stage : ℕ → Stage

-- An interrupted call is made again, and so is one that waits.
unfoldable pub my_lock_wait : (i : ℕ) → Memory → Memory × Stage
my_lock_wait i m = elim m.owner [
  | none ↦ (record m { owner = some i }, sleeping)
  | some _ ↦ (m, asking)
]

unfoldable pub my_lock_release : Memory → Memory × Stage
my_lock_release m = (record m { owner = none }, over)

-- The next step of process `i`.
unfoldable pub proceed : (i : ℕ) → Stage → Memory → Memory × Stage
unfolding my_lock_wait my_lock_release
proceed i asking m = my_lock_wait i m
proceed i sleeping m = (m, loaded m.value)
proceed i (loaded v) m = (record m { value = int_bits (v + 1) }, stored v)
proceed i (stored v) m = (record m { printed = v ∷ m.printed }, leaving)
proceed i leaving m = my_lock_release m
proceed i over m = (m, over)

-- A call of `fcntl` that fails ends the process, and the kernel frees its lock.
unfoldable pub fail_lock : Stage → Memory → Memory × Stage
fail_lock asking m = (m, over)
fail_lock leaving m = (record m { owner = none }, over)
fail_lock s m = (m, s)

pub data Move : Type 0 where
  go : (i : ℕ) → Move
  lock_fails : (i : ℕ) → Move

module _ (n : ℕ) where
  abbrev pub put_back : ℕ → Machine → Memory × Stage → Machine
  put_back i s r = record { memory = r.0; stage = update s.stage i r.1 }

  unfoldable pub move : Move → Machine → Machine
  unfolding proceed fail_lock
  move (go i) s = if ltb i n then put_back i s (proceed i (s.stage i) s.memory) else s
  move (lock_fails i) s = if ltb i n then put_back i s (fail_lock (s.stage i) s.memory) else s

  unfoldable pub moves : List Move → Machine → Machine
  unfolding move
  moves [] s = s
  moves (a ∷ l) s = moves l (move a s)

-- Every process is about to ask for the lock, and the counter holds `first`.
abbrev pub beginning : (first : ℕ) → Machine
beginning first = record {
  memory = record { owner = none; value = int_bits first; printed = [] };
  stage = λ i. asking;
}
