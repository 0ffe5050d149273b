-- ===== src/Break/Client/Port.antt =====
-- The port that the client reads from the last line of the dialogue.
use course_code.Base.{
  get_or-append, drop-append, take-length_append, ℕ, zero, suc, ◌+◌, ◌-◌, ◌*◌, ◌/◌, ◌%◌, ◌≤◌, ◌<◌,
  ◌≡◌, refl, sym, ◌≢◌, true, inl, inr, Bool-cases, [], ◌∷◌, ◌++◌, All, ◌==◌, ltb, arith, length,
  get_or,
}
use course_code.Base.Int.{pos}
use course_code.Posix.Call.{Bytes}
use course_code.Posix.Libc.{
  atoi, atoi_signed, digits_value, decimal, decimal_from, is_digit, htons_int,
}
use course_code.Break.Client.{last_blank, port_text}

-- `last_blank` stops at the last blank.
last_blank_lem :
    (recvline : Bytes) (j i : ℕ)
    → j ≤ i
    → (1 ≤ j → get_or recvline j 0 ≡ 32)
    → ((k : ℕ) → j < k → k ≤ i → get_or recvline k 0 ≢ 32)
    → last_blank recvline i ≡ j
unfolding last_blank
last_blank_lem recvline j zero le at none_behind = omega arith
last_blank_lem recvline j (suc i) le at none_behind =
    elim (Bool-cases (get_or recvline (suc i) 0 == 32)) [
      | inl e ↦ rw e (ground (arith, none_behind (suc i)))
      | inr e ↦ rw e (
          last_blank_lem recvline j i (ground (arith, at)) at
            (λ k lo hi. none_behind k lo (omega arith)))
    ]

get_or-All :
    (xs ys : Bytes) (i : ℕ) → All (λ c. c ≢ 32) xs → i < length xs → get_or (xs ++ ys) i 0 ≢ 32
get_or-All (x ∷ xs) ys zero (h, hs) lt = h
get_or-All (x ∷ xs) ys (suc i) (h, hs) lt = get_or-All xs ys i hs (omega arith)
get_or-All [] ys i h lt = absurd (omega arith)

module _ (pre word stale : Bytes) (newline : ℕ) (h : All (λ c. c ≢ 32) word) where
  abbrev line : Bytes
  line = pre ++ (32 ∷ (word ++ (newline ∷ stale)))

  at_blank : get_or line (length pre) 0 ≡ 32
  at_blank =
      let e : length pre + 0 ≡ length pre = omega arith in
      let g = get_or-append pre (32 ∷ (word ++ (newline ∷ stale))) 0 0 in rw e at g

  behind_blank : (k : ℕ) → length pre < k → k ≤ length pre + length word → get_or line k 0 ≢ 32
  behind_blank k lo hi =
      let e : length pre + suc (k - length pre - 1) ≡ k = omega arith in
      let g = get_or-append pre (32 ∷ (word ++ (newline ∷ stale))) (suc (k - length pre - 1)) 0 in
      let w = get_or-All word (newline ∷ stale) (k - length pre - 1) h (omega arith) in
      rw (sym e, g) w

  -- A line that ends in a blank, a word and a newline, in a buffer with older bytes behind it: the
  -- word is taken.
  port_text-line : port_text line (length pre + length word + 2) ≡ word
  unfolding port_text
  port_text-line =
      let minus : length pre + length word + 2 - 2 ≡ length pre + length word = omega arith in
      let size : length pre + length word - length pre ≡ length word = omega arith in
      let blank =
        last_blank_lem line (length pre) (length pre + length word) (omega arith) (λ _. at_blank)
          behind_blank in
      rw (minus, blank, size, drop-append pre (32 ∷ (word ++ (newline ∷ stale))) 1)
        (take-length_append word (newline ∷ stale))

-- The value of the digits that `decimal_from` puts in front.
digits_value-decimal :
    (fuel n : ℕ) (s : Bytes) → n < fuel → digits_value 0 (decimal_from fuel n s) ≡ digits_value n s
unfolding digits_value decimal_from
digits_value-decimal zero n s h = absurd (omega arith)
digits_value-decimal (suc fuel) n s h = elim (Bool-cases (ltb n 10)) [
  | inl e ↦
      let digit : is_digit (n + 48) ≡ true = ground arith in
      let value : 0 + (n + 48 - 48) ≡ n = omega arith in rw (e, digit, value)
  | inr e ↦
      let digit : is_digit (n % 10 + 48) ≡ true = ground arith in
      let value : n / 10 * 10 + (n % 10 + 48 - 48) ≡ n = omega arith in
      rw (e, digits_value-decimal fuel (n / 10) ((n % 10 + b'0') ∷ s) (ground arith), digit, value)
]

-- Its first byte is a digit.
digit_first :
    (fuel n : ℕ) (s : Bytes)
    → n < fuel
    → (c : ℕ) × (r : Bytes) × (decimal_from fuel n s ≡ c ∷ r) × (is_digit c ≡ true)
unfolding decimal_from
digit_first zero n s h = absurd (omega arith)
digit_first (suc fuel) n s h = elim (Bool-cases (ltb n 10)) [
  | inl e ↦ (n + 48, s, rw e, ground arith)
  | inr e ↦
      let (c, r, p, q) = digit_first fuel (n / 10) ((n % 10 + b'0') ∷ s) (ground arith) in
      (c, r, rw e p, q)
]

atoi-digit : (c : ℕ) (r : Bytes) → is_digit c ≡ true → atoi (c ∷ r) ≡ pos (digits_value 0 (c ∷ r))
unfolding atoi atoi_signed
atoi-digit c r h = ground arith

digits_value-nil : (n : ℕ) → digits_value n [] ≡ n
unfolding digits_value
digits_value-nil n = refl

pub atoi-decimal : (n : ℕ) → atoi (decimal n) ≡ pos n
unfolding decimal
atoi-decimal n =
    let (c, r, p, q) = digit_first (n + 1) n [] (omega arith) in
    let v = digits_value-decimal (n + 1) n [] (omega arith) in
    let a = atoi-digit c r q in rw (sym p, v, digits_value-nil n) at a

decimal_from-no_blank :
    (fuel n : ℕ) (s : Bytes) → All (λ c. c ≢ 32) s → All (λ c. c ≢ 32) (decimal_from fuel n s)
unfolding decimal_from
decimal_from-no_blank zero n s h = h
decimal_from-no_blank (suc fuel) n s h = elim (Bool-cases (ltb n 10)) [
  | inl e ↦ rw e ((λ p. absurd (omega arith)), h)
  | inr e ↦
      rw e
        (decimal_from-no_blank fuel (n / 10) ((n % 10 + b'0') ∷ s) ((λ p. absurd (omega arith)), h))
]

decimal-no_blank : (n : ℕ) → All (λ c. c ≢ 32) (decimal n)
unfolding decimal
decimal-no_blank n = decimal_from-no_blank (n + 1) n [] tt

-- A line that ends in a blank, a port in decimal and one more byte, such as a newline, with any
-- bytes behind it in the buffer: the client listens on that port, for every port of 16 bits.
pub port_text-decimal :
    (pre stale : Bytes) (newline port : ℕ)
    → port < 65536
    → let recvline = pre ++ (32 ∷ (decimal port ++ (newline ∷ stale))) in
      htons_int (atoi (port_text recvline (length pre + length (decimal port) + 2))) ≡ port
port_text-decimal pre stale newline port h =
    let small : port % 65536 ≡ port = omega arith in
    rw (
      port_text-line pre (decimal port) stale newline (decimal-no_blank port),
      atoi-decimal port,
      small,
    )
