-- ===== src/Exercise3/Counter/StepsLeft.antt =====
-- The steps that are left to the processes, and that one of them can always make one.
use course_code.Base.{
  ℕ, zero, suc, ◌+◌, ◌*◌, ◌≤◌, ◌<◌, ◌≡◌, refl, ◌⊎◌, inl, inr, true, none, some, List, [], ◌∷◌, ◌++◌,
  arith, Bool-cases, Option-cases, ltb, ◌==◌,
}
use course_code.Posix.Io.{==_refl}
use course_code.Base.Family.{update, sum, sum-differ}
use course_code.Exercise3.Counter.{
  Stage, asking, sleeping, loaded, stored, leaving, over, Machine, proceed, my_lock_wait,
  my_lock_release, fail_lock, Move, go, lock_fails, put_back, move, moves, beginning,
}
use course_code.Exercise3.Counter.Sequence.{inside, Sound, move-Sound, beginning-Sound}

-- The steps that a process has still to make.
abbrev pub steps_left : Stage → ℕ
steps_left asking = 5
steps_left sleeping = 4
steps_left (loaded _) = 3
steps_left (stored _) = 2
steps_left leaving = 1
steps_left over = 0

-- 1 for a process that has not printed its number.
abbrev pub unprinted : Stage → ℕ
unprinted asking = 1
unprinted sleeping = 1
unprinted (loaded _) = 1
unprinted (stored _) = 1
unprinted leaving = 0
unprinted over = 0

unfoldable pub tally : (w : Stage → ℕ) → (n : ℕ) → (ℕ → Stage) → ℕ
unfolding sum
tally w n stage = sum (λ j. w (stage j)) n

pub tally-update :
    (w : Stage → ℕ) (n : ℕ) (stage : ℕ → Stage) (i : ℕ) (p : Stage)
    → i < n
    → tally w n (update stage i p) + w (stage i) ≡ tally w n stage + w p
unfolding tally
tally-update w n stage i p lt =
    let s =
      sum-differ (λ j. w (update stage i p j)) (λ j. w (stage j)) i (λ j ne. ground arith) n lt in
    rw (==_refl i) at s

abbrev pub left : (n : ℕ) → (ℕ → Stage) → ℕ
left = tally steps_left

-- Somebody has steps left, or nobody has.
left-cases :
    (n : ℕ) (stage : ℕ → Stage)
    → (left n stage ≡ 0) ⊎ ((i : ℕ) × (i < n) × (0 < steps_left (stage i)))
unfolding tally sum
left-cases zero stage = inl refl
left-cases (suc n) stage = elim (Bool-cases (steps_left (stage n) == 0)) [
  | inl none_here ↦ elim (left-cases n stage) [
    | inl e ↦ inl (ground arith)
    | inr (i, lt, h) ↦ inr (i, omega arith, h)
  ]
  | inr here ↦ inr (n, omega arith, ground arith)
]

-- The owner of the lock is a process inside.
abbrev pub Owned : ℕ → Machine → Type 0
Owned n s = (i : ℕ) → s.memory.owner ≡ some i → (i < n) × (inside (s.stage i) ≡ true)

module _ (n : ℕ) (s : Machine) (i : ℕ) (lt : i < n) (owned : Owned n s)
    (holder : inside (s.stage i) ≡ true → s.memory.owner ≡ some i) where
  next-Owned : (p : Stage) → s.stage i ≡ p → Owned n (put_back n i s (proceed i p s.memory))
  unfolding proceed
  next-Owned asking e j h = ground (arith, owned j, holder)
  next-Owned p e j h = ground (arith, owned j, holder)

  quit-Owned : (p : Stage) → s.stage i ≡ p → Owned n (put_back n i s (fail_lock p s.memory))
  unfolding fail_lock
  quit-Owned asking e j h = ground (arith, owned j, holder)
  quit-Owned p e j h = ground (arith, owned j, holder)

-- What the runs keep.
pub record Kept (n first : ℕ) (s : Machine) : Type 0 where
  sound : Sound n first s
  pub owned : Owned n s

module _ {n first : ℕ} where
  pub move-Kept : (a : Move) (s : Machine) → Kept n first s → Kept n first (move n a s)
  unfolding move
  move-Kept (go i) s k = elim (Bool-cases (ltb i n)) [
    | inl on ↦ record {
      sound = move-Sound (go i) s k.sound;
      owned = rw on (
          next-Owned n s i (ground arith) k.owned (k.sound.holder i (ground arith)) (s.stage i)
            refl);
    }
    | inr off ↦ rw off k
  ]
  move-Kept (lock_fails i) s k = elim (Bool-cases (ltb i n)) [
    | inl on ↦ record {
      sound = move-Sound (lock_fails i) s k.sound;
      owned = rw on (
          quit-Owned n s i (ground arith) k.owned (k.sound.holder i (ground arith)) (s.stage i)
            refl);
    }
    | inr off ↦ rw off k
  ]

  pub moves-Kept : (l : List Move) (s : Machine) → Kept n first s → Kept n first (moves n l s)
  unfolding moves
  moves-Kept [] s k = k
  moves-Kept (a ∷ l) s k = moves-Kept l (move n a s) (move-Kept a s k)

  pub beginning-Kept : Kept n first (beginning first)
  beginning-Kept = record { sound = beginning-Sound; owned = λ i h. absurd (cc) }

-- A process that is inside, or that finds the lock free, makes a step.
pub go-left :
    (n : ℕ) (s : Machine) (i : ℕ)
    → i < n
    → (p : Stage) → s.stage i ≡ p
    → 0 < steps_left p
    → (s.memory.owner ≡ none) ⊎ (inside p ≡ true)
    → left n (put_back n i s (proceed i p s.memory)).stage + 1 ≡ left n s.stage
unfolding proceed my_lock_wait my_lock_release
go-left n s i lt asking e h (inl free) =
    rw free (ground (arith, tally-update steps_left n s.stage i sleeping lt))
go-left n s i lt asking e h (inr ins) = absurd (cc)
go-left n s i lt sleeping e h w =
    ground (arith, tally-update steps_left n s.stage i (loaded s.memory.value) lt)
go-left n s i lt (loaded v) e h w =
    ground (arith, tally-update steps_left n s.stage i (stored v) lt)
go-left n s i lt (stored v) e h w = ground (arith, tally-update steps_left n s.stage i leaving lt)
go-left n s i lt leaving e h w = ground (arith, tally-update steps_left n s.stage i over lt)
go-left n s i lt over e h w = absurd (omega arith)

inside-steps : (p : Stage) → inside p ≡ true → 0 < steps_left p
inside-steps asking h = absurd (cc)
inside-steps p h = ground arith

move-left :
    (n : ℕ) (s : Machine) (i : ℕ)
    → i < n
    → 0 < steps_left (s.stage i)
    → (s.memory.owner ≡ none) ⊎ (inside (s.stage i) ≡ true)
    → left n (move n (go i) s).stage + 1 ≡ left n s.stage
unfolding move
move-left n s i lt h w =
    let on : ltb i n ≡ true = ground arith in rw on (go-left n s i lt (s.stage i) refl h w)

-- While a process has steps left, one of them can make a step.
pub progress :
    {n first : ℕ} (s : Machine)
    → Kept n first s
    → (left n s.stage ≡ 0)
      ⊎ ((i : ℕ) × (i < n) × (left n (move n (go i) s).stage + 1 ≡ left n s.stage))
progress {n} s k = elim (left-cases n s.stage) [
  | inl e ↦ inl e
  | inr (i, lt, h) ↦ elim (Option-cases s.memory.owner) [
    | inl free ↦ inr (i, lt, move-left n s i lt h (inl free))
    | inr (j, e) ↦
        let (lj, ins) = k.owned j e in
        inr (j, lj, move-left n s j lj (inside-steps (s.stage j) ins) (inr ins))
  ]
]

abbrev pub AllOver : ℕ → (ℕ → Stage) → Type 0
AllOver zero stage = Unit
AllOver (suc n) stage = (stage n ≡ over) × AllOver n stage

steps_left-over : (p : Stage) → steps_left p ≡ 0 → p ≡ over
steps_left-over asking h = absurd (omega arith)
steps_left-over sleeping h = absurd (omega arith)
steps_left-over (loaded v) h = absurd (omega arith)
steps_left-over (stored v) h = absurd (omega arith)
steps_left-over leaving h = absurd (omega arith)
steps_left-over over h = refl

pub left-AllOver : (n : ℕ) (stage : ℕ → Stage) → left n stage ≡ 0 → AllOver n stage
unfolding tally sum
left-AllOver zero stage h = tt
left-AllOver (suc n) stage h =
    (steps_left-over (stage n) (omega arith), left-AllOver n stage (omega arith))

pub moves-append :
    (n : ℕ) (l l' : List Move) (s : Machine) → moves n (l ++ l') s ≡ moves n l' (moves n l s)
unfolding moves
moves-append n [] l' s = refl
moves-append n (a ∷ l) l' s = moves-append n l l' (move n a s)

steps_left-le : (p : Stage) → steps_left p ≤ 5
steps_left-le asking = omega arith
steps_left-le p = omega arith

pub left-le : (n : ℕ) (stage : ℕ → Stage) → left n stage ≤ 5 * n
unfolding tally sum
left-le zero stage = omega arith
left-le (suc n) stage = omega (arith, left-le n stage, steps_left-le (stage n))
