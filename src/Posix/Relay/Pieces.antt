-- ===== src/Posix/Relay/Pieces.antt =====
-- What a run put out beside what it had to put out, piece by piece.
use course_code.Base.{
  ℕ, drop, take-append-drop, ◌≤◌, ◌≡◌, refl, List, [], ◌∷◌, ◌++◌, append_assoc, append-nil, arith,
  length, take,
}
use course_code.Posix.Call.{Bytes}
use course_code.Posix.Run.{Outcome, ok, exited, blocked, fault, spins}

abbrev pub IsPrefix : {X : Type 0} → List X → List X → Type 0
IsPrefix {X} made wanted = (tail : List X) × (made ++ tail ≡ wanted)

-- All of it went out if the program went on; a part of it, if the program gave up with status 1
-- or still waits.
abbrev pub Fits : {A X : Type 0} → Outcome A → List X → List X → Type 0
Fits (ok _) made wanted = made ≡ wanted
Fits (exited n) made wanted = (n ≡ 1) × IsPrefix made wanted
Fits blocked made wanted = IsPrefix made wanted
Fits fault made wanted = ⊥
Fits spins made wanted = ⊥

-- `f` of each piece, in order.
unfoldable pub relayed : {X : Type 0} → (Bytes → List X) → List Bytes → List X
relayed f [] = []
relayed f (c ∷ cs) = f c ++ relayed f cs

pub relayed-append :
    {X : Type 0} (f : Bytes → List X) (xs ys : List Bytes)
    → relayed f (xs ++ ys) ≡ relayed f xs ++ relayed f ys
unfolding relayed
relayed-append f [] ys = refl
relayed-append f (x ∷ xs) ys = rw (relayed-append f xs ys, append_assoc)

-- All but at most the last piece was handed on, and a front part of that one.
abbrev pub KeepsUp : {X : Type 0} → (Bytes → List X) → List X → List Bytes → Type 0
KeepsUp {X} f made cs =
    (front : List Bytes) × (last : List Bytes) × (part : List X) × (cs ≡ front ++ last)
    × (length last ≤ 1)
    × (made ≡ relayed f front ++ part)
    × IsPrefix part (relayed f last)

-- All of the pieces if the program went on; otherwise all but a part of the last one.
abbrev pub Hands : {A X : Type 0} → Outcome A → (Bytes → List X) → List X → List Bytes → Type 0
Hands (ok _) f made cs = made ≡ relayed f cs
Hands (exited n) f made cs = (n ≡ 1) × KeepsUp f made cs
Hands blocked f made cs = KeepsUp f made cs
Hands fault f made cs = ⊥
Hands spins f made cs = ⊥

pub KeepsUp-IsPrefix :
    {X : Type 0} (f : Bytes → List X) (made : List X) (cs : List Bytes)
    → KeepsUp f made cs
    → IsPrefix made (relayed f cs)
KeepsUp-IsPrefix f made cs (front, last, part, split, _, e, (tail, q)) =
    (tail, rw (e, split, relayed-append f front last, append_assoc, q) refl)

pub Hands-Fits :
    {A X : Type 0} (o : Outcome A) (f : Bytes → List X) (made : List X) (cs : List Bytes)
    → Hands o f made cs
    → Fits o made (relayed f cs)
Hands-Fits (ok _) f made cs h = h
Hands-Fits (exited n) f made cs (one, h) = (one, KeepsUp-IsPrefix f made cs h)
Hands-Fits blocked f made cs h = KeepsUp-IsPrefix f made cs h
Hands-Fits fault f made cs h = h
Hands-Fits spins f made cs h = h

-- Nothing is left to hand on.
pub KeepsUp-all :
    {X : Type 0} (f : Bytes → List X) (made : List X) (cs : List Bytes)
    → made ≡ relayed f cs
    → KeepsUp f made cs
unfolding relayed
KeepsUp-all f made cs e =
    (cs, [], [], rw (append-nil cs) refl, omega arith, rw (append-nil (relayed f cs)) e, ([], refl))

-- A part of one piece.
pub KeepsUp-one :
    {X : Type 0} (f : Bytes → List X) (made : List X) (c : Bytes)
    → IsPrefix made (f c)
    → KeepsUp f made (c ∷ [])
unfolding relayed
KeepsUp-one f made c (tail, q) =
    ([], c ∷ [], made, refl, omega arith, refl, (tail, rw (append-nil (f c)) q))

pub KeepsUp-append :
    {X : Type 0} (f : Bytes → List X) (first made : List X) (ds cs : List Bytes)
    → first ≡ relayed f ds
    → KeepsUp f made cs
    → KeepsUp f (first ++ made) (ds ++ cs)
KeepsUp-append f first made ds cs p (front, last, part, split, le, e, pre) = (
  ds ++ front,
  last,
  part,
  rw (split, append_assoc) refl,
  le,
  rw (p, e, relayed-append f ds front, append_assoc) refl,
  pre,
)

pub Hands-append :
    {A X : Type 0} (o : Outcome A) (f : Bytes → List X) (first made : List X) (ds cs : List Bytes)
    → first ≡ relayed f ds
    → Hands o f made cs
    → Hands o f (first ++ made) (ds ++ cs)
Hands-append (ok _) f first made ds cs p h = rw (p, h, relayed-append f ds cs) refl
Hands-append (exited n) f first made ds cs p (one, h) = (one, KeepsUp-append f first made ds cs p h)
Hands-append blocked f first made ds cs p h = KeepsUp-append f first made ds cs p h
Hands-append fault f first made ds cs p h = h
Hands-append spins f first made ds cs p h = h

pub IsPrefix-take : (n : ℕ) (bs : Bytes) → IsPrefix (take n bs) bs
IsPrefix-take n bs = (drop n bs, take-append-drop n bs)

pub IsPrefix-append :
    {X : Type 0} {first front : List X} (made wanted : List X)
    → first ≡ front
    → IsPrefix made wanted
    → IsPrefix (first ++ made) (front ++ wanted)
IsPrefix-append made wanted p (tail, q) = (tail, rw (append_assoc, q, p))

pub IsPrefix-more :
    {X : Type 0} (made wanted more : List X) → IsPrefix made wanted → IsPrefix made (wanted ++ more)
IsPrefix-more made wanted more (tail, q) = (tail ++ more, rw (← append_assoc, q))

pub Fits-append :
    {A X : Type 0} (o : Outcome A) {first front : List X} (made wanted : List X)
    → first ≡ front
    → Fits o made wanted
    → Fits o (first ++ made) (front ++ wanted)
Fits-append (ok _) made wanted p q = rw (p, q)
Fits-append (exited n) made wanted p (one, tail) = (one, IsPrefix-append made wanted p tail)
Fits-append blocked made wanted p q = IsPrefix-append made wanted p q
Fits-append fault made wanted p q = q
Fits-append spins made wanted p q = q
