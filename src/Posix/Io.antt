-- ===== src/Posix/Io.antt =====
-- Reading and writing through descriptors, and what a trace says was moved.
use course_code.Base.{
  ℕ, ◌≡◌, refl, true, append_assoc, arith, Option, none, some, List, [], ◌∷◌, ◌++◌, min, length,
  take, ◌==◌, if◌then◌else◌,
}
use course_code.Posix.Call.{Bytes, Reply, done, fail, Call, Event, Trace}
use course_code.Posix.Run.{M, sys, pure, ◌>>=◌}

-- The result of `read` and `recvfrom`: a positive count with its bytes, 0, or -1.
pub data Got : Type 0 where
  chunk : ℕ → Bytes → Got  -- the first byte, and those behind it
  eof failed : Got

abbrev pub got_bytes : Bytes → Got
got_bytes [] = eof
got_bytes (b ∷ bs) = chunk b bs

-- No more than `count` bytes are stored, whatever the kernel holds.
abbrev pub got : ℕ → Reply → Got
got count (done _ bs) = got_bytes (take count bs)
got count (fail e) = failed

abbrev pub taken : (count : ℕ) → Call → M Got
taken count c = do r ← sys c; pure (got count r)

abbrev pub read : ℕ → ℕ → M Got
read fd count = taken count (Call.read fd count)

abbrev pub recvfrom : ℕ → ℕ → M Got
recvfrom fd count = taken count (Call.recvfrom fd count)

-- The result of a call: `none` is -1.
abbrev pub result : Reply → Option ℕ
result (done n _) = some n
result (fail _) = none

abbrev pub call : Call → M (Option ℕ)
call c = do r ← sys c; pure (result r)

-- `write` accepts no more than it is given.
abbrev pub accepted : ℕ → Reply → Option ℕ
accepted size (done n _) = some (min n size)
accepted size (fail _) = none

abbrev pub write : ℕ → Bytes → M (Option ℕ)
write fd bs = do r ← sys (Call.write fd bs); pure (accepted (length bs) r)

-- The bytes that a `write` moved.
abbrev pub moved : Bytes → Reply → Bytes
moved bs (done n _) = take n bs
moved bs (fail _) = []

-- The parts that the events of a trace yield, in order.
abbrev pub gather : {A : Type 0} → (Event → List A) → Trace → List A
gather f [] = []
gather f (e ∷ es) = f e ++ gather f es

-- What went out through a descriptor.
abbrev pub sent_by : ℕ → Event → Bytes
sent_by fd e = elim e.call [ Call.write d bs ↦ if d == fd then moved bs e.reply else [] | _ ↦ [] ]

abbrev pub sent : ℕ → Trace → Bytes
sent fd = gather (sent_by fd)

-- What the program asked to write, accepted or not.
abbrev pub asked_by : ℕ → Event → Bytes
asked_by fd e = elim e.call [ Call.write d bs ↦ if d == fd then bs else [] | _ ↦ [] ]

abbrev pub asked : ℕ → Trace → Bytes
asked fd = gather (asked_by fd)

-- What came in through a descriptor, one item for each call that returned data.
abbrev pub pieces : Got → List Bytes
pieces (chunk b bs) = (b ∷ bs) ∷ []
pieces eof = []
pieces failed = []

abbrev pub chunks_by : ℕ → Event → List Bytes
chunks_by fd e = elim e.call [
  | Call.read d count ↦ if d == fd then pieces (got count e.reply) else []
  | Call.recvfrom d count ↦ if d == fd then pieces (got count e.reply) else []
  | _ ↦ []
]

abbrev pub chunks : ℕ → Trace → List Bytes
chunks fd = gather (chunks_by fd)

pub gather-append :
    {A : Type 0} (f : Event → List A) (xs ys : Trace)
    → gather f (xs ++ ys) ≡ gather f xs ++ gather f ys
gather-append f [] ys = refl
gather-append f (x ∷ xs) ys = rw (gather-append f xs ys, append_assoc)

pub ==_refl : (n : ℕ) → (n == n) ≡ true
==_refl n = ground arith

-- The number that a call returned, where the program uses it whatever it is. A call that failed
-- gave -1, as the `int` of 32 bits that stands for it.
abbrev pub answer : Reply → ℕ
answer (done n _) = n
answer (fail _) = 4294967295

-- The numbers that a call stored.
abbrev pub stored : Reply → List ℕ
stored (done _ l) = l
stored (fail _) = []
