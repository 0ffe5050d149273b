-- ===== src/Exercise3/Filters/Conversion.antt =====
-- What converter.c writes on a run.
use course_code.Base.{
  ℕ, zero, suc, ◌≡◌, refl, ◌∙◌, drop, Option, none, some, List, [], ◌∷◌, ◌++◌, append-nil, arith,
  ◌==◌, if◌then◌else◌, take, length, take-length_append, Bool-cases, Option-cases, inl, inr,
}
use course_code.Posix.Call.{Bytes, Reply, done, fail}
use course_code.Posix.Run.{Result, exited}
use course_code.Posix.Libc.{overwrite, tolower}
use course_code.Posix.Io.{asked, chunks}
use course_code.Posix.Relay.{IsPrefix, relayed}
use course_code.Posix.Connection.{joined}
use course_code.Posix.Program.{write_or_die}
use course_code.Exercise3.Filters.{lower_line, converter}

-- The first line in lower case, and what stands behind it.
unfoldable pub lowercased : Bytes → Bytes
lowercased [] = []
lowercased (c ∷ bs) = let rest = lowercased bs in if c == b'\n' then c ∷ bs else tolower c ∷ rest

pub lowercased-IsPrefix :
    (xs ys : Bytes) → IsPrefix xs ys → IsPrefix (lowercased xs) (lowercased ys)
unfolding lowercased
lowercased-IsPrefix [] ys h = (lowercased ys, refl)
lowercased-IsPrefix (x ∷ xs) [] (tail, e) = absurd (cc)
lowercased-IsPrefix (x ∷ xs) (y ∷ ys) (tail, e) =
    let (tail', e') = lowercased-IsPrefix xs ys (tail, ground (arith, e)) in
    let same : x ≡ y = ground (arith, e) in
    let behind : xs ++ tail ≡ ys = ground (arith, e) in
    elim (Bool-cases (y == b'\n')) [
      | inl n ↦ (tail, rw (same, n) (rw behind refl))
      | inr n ↦ (tail', rw (same, n) (rw e' refl))
    ]

some_lowered :
    (c : ℕ) (o : Option Bytes) (r : Bytes)
    → elim o [ none ↦ none | some r' ↦ some (tolower c ∷ r') ] ≡ some r
    → (r' : Bytes) × (o ≡ some r') × (r ≡ tolower c ∷ r')
some_lowered c none r e = absurd (cc)
some_lowered c (some r') r e = (r', refl, ground (arith, e))

take-lower_line :
    (n : ℕ) (buf r : Bytes) → lower_line buf ≡ some r → take n r ≡ lowercased (take n buf)
unfolding lower_line lowercased
take-lower_line n [] r e = absurd (cc)
take-lower_line zero (c ∷ buf) r e = refl
take-lower_line (suc n) (c ∷ buf) r e = elim (Bool-cases (c == b'\n')) [
  | inl h ↦ let same : r ≡ c ∷ buf = ground (arith, e, h) in rw (same, h) refl
  | inr h ↦
      let other = rw h at e in
      let (r', k, same) = some_lowered c (lower_line buf) r other in
      rw (same, h, take-lower_line n buf r' k) refl
]

-- A front part of the input in lower case goes out: all of what was read if the program exits with
-- status 0.
pub record Converts (r : Result (Unit {0})) : Type 0 where
  pub part : IsPrefix (asked 1 r.trace) (lowercased (joined (chunks 0 r.trace)))
  pub whole : r.outcome ≡ exited 0 → asked 1 r.trace ≡ lowercased (joined (chunks 0 r.trace))

module _ (b : ℕ) (l buf r : Bytes) (e : lower_line (overwrite buf (b ∷ take 1023 l)) ≡ some r) where
  abbrev piece : Bytes
  piece = b ∷ take 1023 l

  lowered_piece : take (length piece) r ++ [] ≡ lowercased (piece ++ [])
  lowered_piece =
      let p = take-lower_line (length piece) (overwrite buf piece) r e in
      let front = take-length_append piece (drop (length piece) buf) in
      rw (append-nil (take (length piece) r), append-nil piece, p, front) refl

  written : (n : ℕ) (rs : List Reply) → Converts (converter buf (done n (b ∷ l) ∷ rs))
  unfolding converter write_or_die relayed
  written n [] = rw e (record { part = (_, refl); whole = λ h. absurd (cc) })
  written n (done k l' ∷ rs) =
      rw e (record { part = ([], append-nil _ ∙ lowered_piece); whole = λ h. lowered_piece })
  written n (fail x ∷ rs) =
      rw e (record { part = ([], append-nil _ ∙ lowered_piece); whole = λ h. absurd (cc) })

endless :
    (b n : ℕ) (l buf : Bytes) (rs : List Reply)
    → lower_line (overwrite buf (b ∷ take 1023 l)) ≡ none
    → Converts (converter buf (done n (b ∷ l) ∷ rs))
unfolding converter
endless b n l buf rs e = rw e (record { part = (_, refl); whole = λ h. absurd (cc) })

pub converter-Converts : (buf : Bytes) (rs : List Reply) → Converts (converter buf rs)
unfolding converter relayed lowercased
converter-Converts buf [] = record { part = ([], refl); whole = λ e. refl }
converter-Converts buf (fail e ∷ rs) = record { part = ([], refl); whole = λ _. refl }
converter-Converts buf (done n [] ∷ rs) = record { part = ([], refl); whole = λ _. refl }
converter-Converts buf (done n (b ∷ l) ∷ rs) =
    elim (Option-cases (lower_line (overwrite buf (b ∷ take 1023 l)))) [
      | inl e ↦ endless b n l buf rs e
      | inr (r, e) ↦ written b l buf r e n rs
    ]
