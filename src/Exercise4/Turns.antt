-- ===== src/Exercise4/Turns.antt =====
-- network-programming-2013/exercise4/incr.c and lock.c: processes that write their characters in
-- turns into a shared table, under a lock on a file.
--
-- The calls, the tests and the stores are the steps, and the processes take them in turns in any order.
-- One step may make more than one access to the shared memory: a test reads the counter and the table,
-- the store of a character reads the counter for its place, and `(*iptr)++` loads and stores. Each of
-- these stands between a granted lock and its release. The kernel grants the lock to a
-- process that asks for it while nobody holds it, and takes it back when a process ends.
pub mod Order
pub mod Limit
pub mod Authors
pub mod Alternation
pub mod Setup
pub mod Round
pub mod Completion
pub mod Table
pub mod Deadlock
use course_code.Base.{
  ℕ, zero, suc, ◌+◌, ◌-◌, ◌<◌, Bool, true, false, ◌&&◌, not, Option, none, some, List, [], ◌∷◌, leb,
  ltb, ◌==◌, if◌then◌else◌,
}
use course_code.Base.Family.{update}

-- `SIZE`, the bytes of the table.
abbrev pub size : ℕ
size = 100000

-- The mapped file, `*iptr` and `cptr`, with the owner of the lock.
pub record Shared : Type 0 where
  pub owner : Option ℕ
  pub counter : ℕ
  pub table : ℕ → ℕ

-- Where a process stands in the loop of `main`; `k` is the number of rounds left.
pub data Pc : Type 0 where
  head : (k : ℕ) → Pc  -- the test of the `for`
  wait : (k : ℕ) → Pc  -- in `my_lock_wait`, at the start of a round
  check : (k : ℕ) → Pc  -- before the test against SIZE
  full : Pc  -- before the release that ends the program
  test : (k : ℕ) → Pc  -- before the test of the last character
  yield : (k : ℕ) → Pc  -- before the release inside the inner loop
  retry : (k : ℕ) → Pc  -- in `my_lock_wait`, inside the inner loop
  put : (k : ℕ) → Pc  -- before the write to the table
  count : (k : ℕ) → Pc  -- before the increment
  unlock : (k : ℕ) → Pc  -- before the release at the end of a round
  ended : Pc

pub record System : Type 0 where
  pub mem : Shared
  pub pc : ℕ → Pc

-- `my_lock_wait` of process `i`: it goes on to `next` once it has the lock. An interrupted call is
-- made again.
unfoldable pub my_lock_wait : (i : ℕ) → (here next : Pc) → Shared → Shared × Pc
my_lock_wait i here next m = elim m.owner [
  | none ↦ (record m { owner = some i }, next)
  | some _ ↦ (m, here)
]

unfoldable pub my_lock_release : Shared → Shared
my_lock_release m = record m { owner = none }

-- The next step of process `i`, whose character is `c`.
unfoldable pub advance : (i c : ℕ) → Pc → Shared → Shared × Pc
unfolding my_lock_wait my_lock_release
advance i c (head zero) m = (m, ended)
advance i c (head (suc k)) m = (m, wait (suc k))
advance i c (wait k) m = my_lock_wait i (wait k) (check k) m
advance i c (check k) m = (m, if leb (size - 1) m.counter then full else test k)
advance i c full m = (my_lock_release m, ended)
advance i c (test k) m =
    (m, if (m.table (m.counter - 1) == c) && not (m.counter == 0) then yield k else put k)
advance i c (yield k) m = (my_lock_release m, retry k)
advance i c (retry k) m = my_lock_wait i (retry k) (test k) m
advance i c (put k) m = (record m { table = update m.table m.counter c }, count k)
advance i c (count k) m = (record m { counter = m.counter + 1 }, unlock k)
advance i c (unlock k) m = (my_lock_release m, head (k - 1))
advance i c ended m = (m, ended)

-- A failed `fcntl` ends the process, and the kernel frees its lock.
unfoldable pub give_up : Pc → Shared → Shared × Pc
give_up (wait k) m = (m, ended)
give_up (retry k) m = (m, ended)
give_up full m = (record m { owner = none }, ended)
give_up (yield k) m = (record m { owner = none }, ended)
give_up (unlock k) m = (record m { owner = none }, ended)
give_up p m = (m, p)

pub data Action : Type 0 where
  run : (i : ℕ) → Action
  lock_error : (i : ℕ) → Action

-- `n` processes, process `i` with the character `char i`.
module _ (n : ℕ) (char : ℕ → ℕ) where
  abbrev pub placed : ℕ → System → Shared × Pc → System
  placed i s r = record { mem = r.0; pc = update s.pc i r.1 }

  unfoldable pub step : Action → System → System
  unfolding advance give_up
  step (run i) s = if ltb i n then placed i s (advance i (char i) (s.pc i) s.mem) else s
  step (lock_error i) s = if ltb i n then placed i s (give_up (s.pc i) s.mem) else s

  unfoldable pub schedule : List Action → System → System
  unfolding step
  schedule [] s = s
  schedule (a ∷ l) s = schedule l (step a s)

-- The loops begin with a table of `first` characters and nobody in the lock.
abbrev pub initial : (first : ℕ) → (table : ℕ → ℕ) → (rounds : ℕ → ℕ) → System
initial first table rounds = record {
  mem = record { owner = none; counter = first; table = table };
  pc = λ i. head (rounds i);
}
