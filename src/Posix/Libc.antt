-- ===== src/Posix/Libc.antt =====
-- The functions and macros of the C library that the programs use on data.
use Prim.Native.Char.{code}
use course_code.Base.{
  ℕ, String, zero, suc, ◌+◌, ◌-◌, ◌*◌, ◌/◌, ◌%◌, Bool, true, false, ◌&&◌, ◌||◌, [], ◌∷◌, ◌++◌,
  Option, none, some, get_or, set, ltb, leb, ◌==◌, if◌then◌else◌, take, drop, length, replicate,
}
use course_code.Base.Int.{ℤ, pos, negsuc}
use course_code.Posix.Call.{Bytes}

-- The bytes of a literal, which is ASCII in every program.
abbrev pub codes : String → Bytes
codes String.[] = []
codes (String.◌∷◌ c s) = code c ∷ codes s

-- `char a[n] = "..."`: the array is filled up with zeros.
abbrev pub char_array : ℕ → Bytes → Bytes
char_array n s = take n (s ++ replicate n 0)

-- A call stores `bs` at the front of a buffer and leaves the bytes behind them.
abbrev pub overwrite : Bytes → Bytes → Bytes
overwrite buf bs = bs ++ drop (length bs) buf

-- !strcmp(a, b)
unfoldable pub str_eq : Bytes → Bytes → Bool
str_eq [] [] = true
str_eq [] (_ ∷ _) = false
str_eq (_ ∷ _) [] = false
str_eq (x ∷ xs) (y ∷ ys) = (x == y) && str_eq xs ys

abbrev pub is_lower : ℕ → Bool
is_lower c = leb b'a' c && leb c b'z'

abbrev pub is_upper : ℕ → Bool
is_upper c = leb b'A' c && leb c b'Z'

unfoldable pub tolower : ℕ → ℕ
tolower c = if is_upper c then c + 32 else c

unfoldable pub toupper : ℕ → ℕ
toupper c = if is_lower c then c - 32 else c

abbrev pub is_digit : ℕ → Bool
is_digit c = leb b'0' c && leb c b'9'

-- The blanks of `isspace`: the space and the bytes 9 to 13.
abbrev pub is_space : ℕ → Bool
is_space c = c == 32 || (leb 9 c && leb c 13)

-- The number that the leading digits spell.
unfoldable pub digits_value : ℕ → Bytes → ℕ
digits_value acc [] = acc
digits_value acc (c ∷ s) =
    let rest = digits_value (acc * 10 + (c - b'0')) s in if is_digit c then rest else acc

abbrev negated : ℕ → ℤ
negated zero = pos 0
negated (suc n) = negsuc n

unfoldable pub atoi_signed : Bytes → ℤ
unfolding digits_value
atoi_signed [] = pos 0
atoi_signed (c ∷ s) =
    if c == b'-'
    then negated (digits_value 0 s)
    else if c == b'+'
    then pos (digits_value 0 s)
    else pos (digits_value 0 (c ∷ s))

-- `atoi`, for texts whose number an `int` holds.
unfoldable pub atoi : Bytes → ℤ
unfolding atoi_signed
atoi [] = pos 0
atoi (c ∷ s) = let rest = atoi s in if is_space c then rest else atoi_signed (c ∷ s)

-- The type bits of `st_mode`, `st_mode & 0170000`, as a number from 0 to 15.
abbrev pub file_type : ℕ → ℕ
file_type mode = mode / 4096 % 16

abbrev pub s_isreg : ℕ → Bool
s_isreg m = file_type m == 8

abbrev pub s_isdir : ℕ → Bool
s_isdir m = file_type m == 4

abbrev pub s_ischr : ℕ → Bool
s_ischr m = file_type m == 2

abbrev pub s_isblk : ℕ → Bool
s_isblk m = file_type m == 6

abbrev pub s_isfifo : ℕ → Bool
s_isfifo m = file_type m == 1

abbrev pub s_issock : ℕ → Bool
s_issock m = file_type m == 12

-- The macros on the status of `waitpid`. The signed char of WIFSIGNALED is positive from 2 to 127.
abbrev pub wtermsig : ℕ → ℕ
wtermsig s = s % 128

abbrev pub wexitstatus : ℕ → ℕ
wexitstatus s = s / 256 % 256

abbrev pub wstopsig : ℕ → ℕ
wstopsig s = s / 256 % 256

abbrev pub wifexited : ℕ → Bool
wifexited s = wtermsig s == 0

abbrev pub wifsignaled : ℕ → Bool
wifsignaled s = ltb 1 (wtermsig s + 1) && ltb (wtermsig s + 1) 128

abbrev pub wifstopped : ℕ → Bool
wifstopped s = s % 256 == 127

abbrev pub wifcontinued : ℕ → Bool
wifcontinued s = s == 65535

-- `buf + off` is the place where a call stores `bs`.
abbrev pub splice : Bytes → ℕ → Bytes → Bytes
splice buf off bs = take off buf ++ (bs ++ drop (off + length bs) buf)

-- The digits of a number, on fuel: `n + 1` rounds are enough, since the number falls.
unfoldable pub decimal_from : (fuel n : ℕ) → Bytes → Bytes
decimal_from zero n s = s
decimal_from (suc fuel) n s =
    let rest = decimal_from fuel (n / 10) ((n % 10 + b'0') ∷ s) in
    if ltb n 10 then (n + b'0') ∷ s else rest

-- `snprintf(buf, size, "%lld", n)` for `n` from 0 on
unfoldable pub decimal : ℕ → Bytes
unfolding decimal_from
decimal n = decimal_from (n + 1) n []

-- The 16 bits that `htons` keeps of an `int`.
abbrev pub htons_int : ℤ → ℕ
htons_int (pos n) = n % 65536
htons_int (negsuc n) = 65535 - n % 65536

abbrev pub skip_blanks : Bytes → ℕ
skip_blanks [] = 0
skip_blanks (c ∷ s) = if c == 32 then suc (skip_blanks s) else 0

-- The bytes in front of a blank or of the final zero; `none` if neither comes.
unfoldable pub token_length : Bytes → Option ℕ
token_length [] = none
token_length (c ∷ s) =
    let rest = token_length s in
    if (c == 32) || (c == 0) then some 0 else elim rest [ none ↦ none | some n ↦ some (suc n) ]

pub record Token : Type 0 where
  pub buf : Bytes  -- the buffer, with a zero behind the token
  pub next : ℕ  -- where the next call begins
  pub start : ℕ
  pub token : Option Bytes  -- `none` is NULL

-- `strtok(..., " ")` from the position `from` on; `none` if it runs out of the buffer.
unfoldable pub strtok : (buf : Bytes) → (from : ℕ) → Option Token
unfolding token_length
strtok buf from =
    let start = from + skip_blanks (drop from buf) in
    elim (token_length (drop start buf)) [
      | none ↦ none
      | some zero ↦ some (record { buf = buf; next = start; start = start; token = none })
      | some (suc n) ↦
          if get_or buf (start + suc n) 0 == 32
          then some (record {
            buf = set buf (start + suc n) 0;
            next = start + suc n + 1;
            start = start;
            token = some (take (suc n) (drop start buf));
          })
          else some (record {
            buf = buf;
            next = start + suc n;
            start = start;
            token = some (take (suc n) (drop start buf));
          })
    ]
