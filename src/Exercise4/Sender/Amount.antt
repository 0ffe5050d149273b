-- ===== src/Exercise4/Sender/Amount.antt =====
-- How many bytes the sending client hands to the kernel.
use native.Mathlib.Nat.{div-add-mod', mod-lt}
use course_code.Base.{ℕ, ◌+◌, ◌*◌, ◌/◌, ◌%◌, ◌^◌, ◌≤◌, ◌<◌, ◌≡◌, inl, inr, Bool-cases, arith, ◌==◌}
use course_code.Base.Int.{pos, pos_part, int_of_size}
use course_code.Exercise4.Sender.{write_count}

pub int_of_size-small : (n : ℕ) → n < 2 ^ 31 → int_of_size n ≡ pos n
int_of_size-small n h = ground arith

-- With a size of at least one byte and fewer than 2^31 - 1 full pieces, `write_count` is the least
-- number of pieces that hold all of the bytes: that many hold them, and one fewer does not.
pub write_count-least :
    (total_bytes each_bytes : ℕ)
    → 0 < each_bytes
    → total_bytes / each_bytes + 1 < 2 ^ 31
    → (total_bytes ≤ pos_part (write_count total_bytes each_bytes) * each_bytes)
      × (pos_part (write_count total_bytes each_bytes) * each_bytes < total_bytes + each_bytes)
unfolding write_count
write_count-least total_bytes each_bytes p q =
    let whole = div-add-mod' total_bytes each_bytes in
    let part = mod-lt total_bytes p in
    elim (Bool-cases (total_bytes % each_bytes == 0)) [
      | inl e ↦
          rw (e, int_of_size-small (total_bytes / each_bytes) (omega arith))
            (ground arith, ground arith)
      | inr e ↦
          rw (e, int_of_size-small (total_bytes / each_bytes + 1) q) (ground arith, ground arith)
    ]
