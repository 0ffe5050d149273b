-- ===== src/Exercise3/Client/Stale.antt =====
-- What the client shows of an answer.
use course_code.Base.{
  ℕ, zero, suc, ◌-◌, ◌≤◌, ◌≡◌, refl, List, [], ◌∷◌, ◌++◌, length, take, drop, arith, append-nil,
  take-of_le,
}
use course_code.Posix.Call.{Bytes, Reply, done}
use course_code.Posix.Run.{ok}
use course_code.Posix.Libc.{overwrite}
use course_code.Posix.Io.{asked}
use course_code.Exercise3.Client.{max_line, receive}

take-append :
    (n : ℕ) (bs more : Bytes) → take n (bs ++ more) ≡ take n bs ++ take (n - length bs) more
take-append zero [] more = refl
take-append (suc n) [] more = let e : suc n - 0 ≡ suc n = omega arith in rw e
take-append zero (b ∷ bs) more = let e : 0 - suc (length bs) ≡ 0 = omega arith in rw e
take-append (suc n) (b ∷ bs) more =
    let e : suc n - suc (length bs) ≡ n - length bs = omega arith in rw (e, take-append n bs more)

-- What is shown and kept of a `piece`, where all of `bs` came.
piece_case :
    (n b : ℕ) (recvline piece bs : Bytes)
    → piece ≡ bs
    → let line = b ∷ (piece ++ drop (suc (length piece)) recvline) in
      (take n line ++ []
        ≡ take n (b ∷ bs) ++ take (n - suc (length bs)) (drop (suc (length bs)) recvline))
      × (ok line ≡ ok (overwrite recvline (b ∷ bs)))
piece_case n b recvline piece bs p =
    let split = take-append n (b ∷ bs) (drop (suc (length bs)) recvline) in
    (rw (p, append-nil (take n (b ∷ (bs ++ drop (suc (length bs)) recvline)))) split, rw p)

-- An answer of `length bs` bytes to a line of `n` bytes: `n` bytes are handed to the standard
-- output, the first of the answer, and where the answer is shorter, those that the buffer held
-- behind it before.
pub receive-asked :
    (sockfd n m : ℕ) (recvline : Bytes) (b : ℕ) (bs : Bytes) (r : Reply) (rs : List Reply)
    → suc (length bs) ≤ max_line
    → let q = receive sockfd n recvline (done m (b ∷ bs) ∷ r ∷ rs) in
      (asked 1 q.trace
        ≡ take n (b ∷ bs) ++ take (n - suc (length bs)) (drop (suc (length bs)) recvline))
      × (q.outcome ≡ ok (overwrite recvline (b ∷ bs)))
unfolding receive
receive-asked sockfd n m recvline b bs r rs h =
    piece_case n b recvline (take 255 bs) bs (take-of_le 255 bs (omega arith))
