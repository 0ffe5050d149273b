-- ===== src/Exercise3/Filters/Lines.antt =====
-- What converter.c and doubler.c write.
use course_code.Base.{
  ◌≡◌, refl, ◌≢◌, false, none, some, List, [], ◌∷◌, ◌++◌, map, append-nil, arith, All, ◌==◌,
}
use course_code.Posix.Call.{Bytes, Reply}
use course_code.Posix.Run.{exit}
use course_code.Posix.Libc.{tolower}
use course_code.Posix.Io.{asked_by}
use course_code.Posix.Relay.{relayed, Emits, Emits-times}
use course_code.Posix.Loop.{times}
use course_code.Posix.Writes.{write_or_die-Emits}
use course_code.Posix.Program.{write_or_die}
use course_code.Posix.Finish.{Finishes, while_read-Finishes}
use course_code.Exercise3.Filters.{max_line, lower_line, doubler}

-- Up to the first newline each byte goes through `tolower`; the newline and all behind it stay. A
-- buffer without a newline has no result.
pub lower_line-line :
    (line more : Bytes)
    → All (λ c. c ≢ b'\n') line
    → (lower_line line ≡ none)
      × (lower_line (line ++ b'\n' ∷ more) ≡ some (map tolower line ++ b'\n' ∷ more))
unfolding lower_line
lower_line-line [] more h = (refl, refl)
lower_line-line (c ∷ line) more (ne, h) =
    let (without, newline) = lower_line-line line more h in
    let other : (c == b'\n') ≡ false = ground arith in (rw (other, without), rw (other, newline))

twice-Emits :
    (buf : Bytes) (rs : List Reply)
    → Emits (asked_by 1) 0 rs (buf ++ buf) (times 2 (write_or_die "write error to stdout" 1 buf) rs)
unfolding relayed
twice-Emits buf rs =
    let e =
      Emits-times (asked_by 1) 0 2 buf (write_or_die "write error to stdout" 1 buf)
        (write_or_die-Emits 0 1 buf "write error to stdout") rs in
    rw (append-nil buf) at e

-- On every list of answers, `doubler` hands each piece of its input to `write` twice and in order.
-- It exits with status 0 only behind all of it, and with status 1 or waits behind a front part.
pub doubler-Finishes : (rs : List Reply) → Finishes (asked_by 1) 0 (λ buf. buf ++ buf) (doubler rs)
unfolding doubler
doubler-Finishes rs =
    while_read-Finishes (asked_by 1) 0 max_line (λ buf. buf ++ buf)
      (λ _ buf. times 2 (write_or_die "write error to stdout" 1 buf)) tt (λ _. exit 0) rs
      (λ _. twice-Emits) (λ r. refl)
      (λ _ rs'. record { mute = refl; deaf = refl; stops = omega arith })
