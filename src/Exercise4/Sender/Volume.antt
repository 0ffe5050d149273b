-- ===== src/Exercise4/Sender/Volume.antt =====
-- How many bytes the sending client hands to its connection.
use course_code.Base.{
  ℕ, zero, suc, ◌+◌, ◌*◌, ◌/◌, ◌^◌, ◌≤◌, ◌<◌, ◌≡◌, refl, false, List, [], ◌∷◌, length,
  length-append, length-take, take, replicate, arith, ◌==◌, ap,
}
use course_code.Base.Int.{ℤ, pos, pos_part, int_of_size}
use course_code.Posix.Call.{Bytes, Reply, done, Call}
use course_code.Posix.Run.{Outcome, ok, exited, blocked, fault, spins}
use course_code.Posix.Io.{asked_by, asked, stored}
use course_code.Posix.Libc.{codes}
use course_code.Posix.Relay.{relayed, IsPrefix, Emits-times}
use course_code.Posix.Program.{need, dotted_addr}
use course_code.Posix.Writes.{write_or_die-Emits}
use course_code.Posix.Finish.{Complete}
use course_code.Posix.Sends.{
  Sends, Completes, Completes-exit, Sends-pure, Sends-sys, Sends-call, Sends-emit, Sends-need,
  ◌quietly◌, ◌at_last◌,
}
use course_code.Exercise4.Sender.{
  serv_port, send_data, elapsed_time, write_count, measured, transfer,
}
use course_code.Exercise4.Sender.Amount.{int_of_size-small, write_count-least}

-- `count` pieces of `n` bytes.
abbrev pieces : (garbage : ℕ → Bytes) → (count n : ℕ) → Bytes
pieces garbage count n = relayed (λ _. take n (garbage n)) (replicate count [])

-- The bytes of a run: with status 0 they hold `total_bytes`, with less than one piece too much; in any
-- other case they are no more than that.
abbrev pub Holds : {A : Type 0} → (total_bytes each_bytes : ℕ) → Outcome A → (size : ℕ) → Type 0
Holds total_bytes each_bytes (exited zero) size =
    (total_bytes ≤ size) × (size < total_bytes + each_bytes)
Holds total_bytes each_bytes (exited (suc n)) size = (n ≡ 0) × (size < total_bytes + each_bytes)
Holds total_bytes each_bytes blocked size = size < total_bytes + each_bytes
Holds total_bytes each_bytes (ok _) size = ⊥
Holds total_bytes each_bytes fault size = ⊥
Holds total_bytes each_bytes spins size = ⊥

length-prefix : (made wanted : Bytes) → IsPrefix made wanted → length made ≤ length wanted
length-prefix made wanted (tail, e) =
    let both = length-append made tail in let same = ap length e in omega (arith, both, same)

Holds-of_Complete :
    {A : Type 0} (total_bytes each_bytes : ℕ) (o : Outcome A) (made wanted : Bytes)
    → (total_bytes ≤ length wanted) × (length wanted < total_bytes + each_bytes)
    → Complete o made wanted
    → Holds total_bytes each_bytes o (length made)
Holds-of_Complete total_bytes each_bytes (exited zero) made wanted (lo, hi) e =
    let same = ap length e in (omega (arith, lo, same), omega (arith, hi, same))
Holds-of_Complete total_bytes each_bytes (exited (suc n)) made wanted (lo, hi) (one, h) =
    (one, omega (arith, hi, length-prefix made wanted h))
Holds-of_Complete total_bytes each_bytes blocked made wanted (lo, hi) h =
    omega (arith, hi, length-prefix made wanted h)
Holds-of_Complete total_bytes each_bytes (ok _) made wanted size h = absurd h
Holds-of_Complete total_bytes each_bytes fault made wanted size h = absurd h
Holds-of_Complete total_bytes each_bytes spins made wanted size h = absurd h

module _ (garbage : ℕ → Bytes) (filled : (n : ℕ) → length (garbage n) ≡ n) where
  length-pieces : (count n : ℕ) → length (pieces garbage count n) ≡ count * n
  unfolding relayed
  length-pieces zero n = omega arith
  length-pieces (suc count) n =
      let one = length-take n (garbage n) in
      let both = length-append (take n (garbage n)) (pieces garbage count n) in
      ground (arith, one, both, filled n, length-pieces count n)

  module _ (ip : Bytes) (total_bytes each_bytes : ℕ) (some_bytes : 0 < each_bytes)
      (small : each_bytes < 2 ^ 31) (fits : total_bytes / each_bytes + 1 < 2 ^ 31)
      (sockfd : ℕ) where
    abbrev wanted : Bytes
    wanted = pieces garbage (pos_part (write_count total_bytes each_bytes)) each_bytes

    send_data-Sends :
        (count : ℤ) (n : ℕ)
        → 0 < n
        → Sends
            (asked_by sockfd)
            (pieces garbage (pos_part count) n)
            (send_data garbage sockfd count (pos n))
    unfolding send_data
    send_data-Sends count zero h = absurd (omega arith)
    send_data-Sends count (suc n) h = record {
      fits = λ rs.
          (Emits-times (asked_by sockfd) 0 (pos_part count) (take (suc n) (garbage (suc n))) _
            (write_or_die-Emits 0 sockfd (take (suc n) (garbage (suc n))) "write error to server")
            rs).fits;
    }

    all-Sends :
        Sends
          (asked_by sockfd)
          wanted
          (send_data garbage sockfd (write_count total_bytes each_bytes) (int_of_size each_bytes))
    all-Sends =
        rw (int_of_size-small each_bytes small)
          (send_data-Sends (write_count total_bytes each_bytes) each_bytes some_bytes)

    elapsed_time-Sends :
        (start end : List ℕ) (str : Bytes) → Sends (asked_by sockfd) [] (elapsed_time start end str)
    unfolding elapsed_time
    elapsed_time-Sends start end str = Sends-emit _ (λ r. refl)

    measured-Completes :
        Completes (asked_by sockfd) wanted (measured garbage ip total_bytes each_bytes sockfd)
    unfolding measured
    measured-Completes =
        let nonzero : (each_bytes == 0) ≡ false = ground arith in
        rw (measured, nonzero)
          (Sends-sys Call.gettimeofday (λ r. refl) quietly (λ start1.
            Sends-need (Call.connect sockfd (dotted_addr ip serv_port)) (λ r. refl)
              "connecting error" refl
            quietly (λ _. Sends-sys Call.gettimeofday (λ r. refl) quietly (λ end1.
                elapsed_time-Sends (stored start1) (stored end1)
                  (codes "establising the connection")
                quietly (λ _. Sends-pure _ tt quietly (λ _.
                    Sends-sys Call.gettimeofday (λ r. refl) quietly (λ start2.
                      all-Sends at_last (λ _.
                        Sends-sys Call.gettimeofday (λ r. refl) quietly (λ end2.
                          elapsed_time-Sends (stored start2) (stored end2) (codes "sending data")
                          quietly (λ _.
                              Sends-call (Call.close sockfd) (λ r. refl)
                              quietly (λ _. Completes-exit _)))))))))))

    wanted-size : (total_bytes ≤ length wanted) × (length wanted < total_bytes + each_bytes)
    wanted-size =
        rw (length-pieces (pos_part (write_count total_bytes each_bytes)) each_bytes)
          (write_count-least total_bytes each_bytes some_bytes fits)

-- For pieces of one byte or more and sizes that the `int` variables hold, on every list of answers
-- behind a `socket` that gives `sockfd`, whatever the array of the data holds: if the client exits with
-- status 0, it has handed at least `total_bytes` bytes to `write` for its connection, and less than a
-- piece more. Otherwise it has exited with status 1 or waits, and they are no more than that.
pub transfer-Holds :
    (garbage : ℕ → Bytes) (ip : Bytes) (total_bytes each_bytes sockfd : ℕ) (l : List ℕ)
    (rs : List Reply)
    → ((n : ℕ) → length (garbage n) ≡ n)
    → 0 < each_bytes
    → each_bytes < 2 ^ 31
    → total_bytes / each_bytes + 1 < 2 ^ 31
    → let r = transfer garbage ip total_bytes each_bytes (done sockfd l ∷ rs) in
      Holds total_bytes each_bytes r.outcome (length (asked sockfd r.trace))
unfolding transfer need
transfer-Holds garbage ip total_bytes each_bytes sockfd l rs filled some_bytes small fits =
    let m =
      measured-Completes garbage filled ip total_bytes each_bytes some_bytes small fits sockfd in
    Holds-of_Complete total_bytes each_bytes
      (measured garbage ip total_bytes each_bytes sockfd rs).outcome _ _
      (wanted-size garbage filled ip total_bytes each_bytes some_bytes small fits sockfd)
      (m.complete rs)
