-- ===== src/Exercise3/Overlap/FirstRound.antt =====
-- What becomes of question-5.c in its first round.
use course_code.Base.{
  ℕ, zero, suc, ◌+◌, ◌*◌, ◌<◌, ◌≤◌, ◌≡◌, refl, true, List, [], ◌∷◌, replicate, length,
  length-replicate, get_or, inl, inr, ltb, Bool-cases, arith,
}
use course_code.Base.Int.{pos}
use course_code.Posix.Call.{Bytes, Reply, fail, Errno}
use course_code.Posix.Run.{fault, pure, ◌>>=◌, ◌>>◌}
use course_code.Posix.FileLock.{FileLock, lock_init, file_lock}
use course_code.Posix.Stuck.{
  Stuck, Never, Never-first, Never-behind, Tame, Tame-bind, pure-Tame, need-Tame, write_or_die-Tame,
  sys-Tame, lock_wait-Tame,
}
use course_code.Posix.Libc.{atoi}
use course_code.Exercise3.Counter.Program.{open_by, open_counter}
use course_code.Exercise3.Overlap.{
  get_int, set_int, increment, put_behind, put_chars, char_round, char_rounds, main, last_count,
  shown_count, is_positive, write_char,
}

-- The memory of a file with nothing but a counter of 0.
abbrev pub fresh : (behind : ℕ) → Bytes
fresh behind = 0 ∷ 0 ∷ 0 ∷ 0 ∷ replicate behind 0

put_chars-fault :
    (count first : ℕ) (mem : Bytes) (rs : List Reply)
    → first ≤ length mem
    → length mem < first + count
    → (put_chars count first mem rs).outcome ≡ fault
unfolding put_chars
put_chars-fault zero first mem rs h h' = absurd (omega arith)
put_chars-fault (suc count) first mem rs h h' = elim (Bool-cases (ltb first (length mem))) [
  | inl inside ↦ rw inside (put_chars-fault count (first + 1) mem rs (ground arith) (omega arith))
  | inr outside ↦ rw outside refl
]

abbrev counted : (behind : ℕ) → Bytes
counted behind = 1 ∷ 0 ∷ 0 ∷ 0 ∷ replicate behind 0

-- The character stands in the second byte of the counter.
abbrev written : (c behind : ℕ) → Bytes
written c behind = 1 ∷ c ∷ 0 ∷ 0 ∷ replicate behind 0

fresh-increment :
    (behind : ℕ) (rs : List Reply) → increment (fresh behind) rs ≡ pure (counted behind) rs
unfolding increment get_int set_int
fresh-increment behind rs = refl

counted-put :
    (c behind : ℕ) (rs : List Reply) → put_behind c (counted behind) rs ≡ pure (written c behind) rs
unfolding put_behind get_int
counted-put c behind rs =
    let inside : ltb 1 (length (fresh behind)) ≡ true = ground arith in rw inside

written-count : (c behind : ℕ) → c < 256 → shown_count (get_int (written c behind)) ≡ 1 + 256 * c
unfolding get_int
written-count c behind byte =
    let n : get_int (written c behind) ≡ 1 + 256 * c = omega arith in
    let positive : is_positive (1 + 256 * c) ≡ true = ground arith in rw (n, positive)

module _ (c behind : ℕ) (byte : c < 256) (small : 4 + behind ≤ 256 * c + 1) where
  shown-fault :
      (rs : List Reply)
      → (put_chars (shown_count (get_int (written c behind))) 1 (written c behind) rs).outcome
        ≡ fault
  shown-fault rs = rw (written-count c behind byte) (
      put_chars-fault (1 + 256 * c) 1 (written c behind) rs (omega arith)
        (omega (arith, length-replicate {A = ℕ} behind 0)))

  -- Behind `getpid` and the increment.
  put-Stuck :
      (rs : List Reply)
      → Stuck
          ((do
            written ← put_behind c (counted behind)
            put_chars (shown_count (get_int written)) 1 written
            pure written)
            rs).outcome
  put-Stuck rs = rw (counted-put c behind rs, shown-fault rs) tt

  write_char-case : (rs : List Reply) → Stuck (write_char c (fresh behind) rs).outcome
  unfolding write_char
  write_char-case [] = tt
  write_char-case (r ∷ rs) = put-Stuck rs

  round-Never : (lock : FileLock) → Never (char_round c lock (fresh behind))
  unfolding char_round
  round-Never lock =
      Never-behind _ (lock_wait-Tame "fcntl error for my_lock_wait" lock)
        (λ _. Never-first _ (record { stuck = write_char-case }))

  rounds-Never : (n : ℕ) (lock : FileLock) → Never (char_rounds (suc n) c lock (fresh behind))
  unfolding char_rounds
  rounds-Never n lock = Never-first _ (round-Never lock)

open_by-Tame : (path : Bytes) (r : Reply) → Tame (open_by path r)
unfolding open_by
open_by-Tame path (fail Errno.enoent) =
    Tame-bind _ (need-Tame "create failed" _)
      (λ fd. Tame-bind _ (write_or_die-Tame "write failed" fd _) (λ _. pure-Tame fd))
open_by-Tame path _ = need-Tame "open failed" _

open_counter-Tame : (path : Bytes) → Tame (open_counter path)
unfolding open_counter
open_counter-Tame path = Tame-bind _ (sys-Tame _) (open_by-Tame path)

main-Never :
    (path nloop input : Bytes) (n c behind : ℕ)
    → atoi nloop ≡ pos (suc n)
    → get_or input 0 0 ≡ c
    → c < 256
    → 4 + behind ≤ 256 * c + 1
    → Never (main (fresh behind) (path ∷ nloop ∷ input ∷ []))
unfolding main lock_init
main-Never path nloop input n c behind some_rounds first byte small =
    rw (some_rounds, first)
      (Never-behind _ (open_counter-Tame path) (λ fd.
        Never-behind _ (need-Tame "mmap failed" _) (λ _.
          Never-behind _ (pure-Tame (file_lock fd)) (λ lock.
            Never-first (last_count fd path lock) (rounds-Never c behind byte small n lock)))))

-- On every list of answers, with a file that holds nothing but a counter of 0, one round or more, a
-- character of code `c` and a mapping of at most 256 * c + 1 bytes: question-5.c does not come to
-- its end. Its first round writes the character over the second byte of the counter and runs out of
-- the mapping; before that it may exit with status 1 or wait.
pub main-Stuck :
    (path nloop input : Bytes) (n c behind : ℕ) (rs : List Reply)
    → atoi nloop ≡ pos (suc n)
    → get_or input 0 0 ≡ c
    → c < 256
    → 4 + behind ≤ 256 * c + 1
    → Stuck (main (fresh behind) (path ∷ nloop ∷ input ∷ []) rs).outcome
main-Stuck path nloop input n c behind rs some_rounds first byte small =
    (main-Never path nloop input n c behind some_rounds first byte small).stuck rs
