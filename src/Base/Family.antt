-- ===== src/Base/Family.antt =====
-- Sequences indexed by processes: change at one index, and how many of the first `n` are marked.
use course_code.Base.{
  ℕ, zero, suc, ◌+◌, ◌≤◌, ◌<◌, ◌≡◌, refl, ◌≢◌, inl, inr, arith, ◌==◌, if◌then◌else◌, Bool-cases,
}

abbrev pub update {ℓ} : {A : Type ℓ} → (ℕ → A) → ℕ → A → ℕ → A
update f i a j = if i == j then a else f j

-- g 0 + ... + g (n - 1)
unfoldable pub sum : (g : ℕ → ℕ) → ℕ → ℕ
sum g zero = 0
sum g (suc n) = g n + sum g n

-- Sequences that agree below `n` have the same sum.
sum-same : (g h : ℕ → ℕ) (n : ℕ) → ((j : ℕ) → j < n → g j ≡ h j) → sum g n ≡ sum h n
unfolding sum
sum-same g h zero same = refl
sum-same g h (suc n) same =
    omega (arith, same n (omega arith), sum-same g h n (λ j lt. same j (omega arith)))

-- Sequences that differ in one place at most.
pub sum-differ :
    (g h : ℕ → ℕ) (i : ℕ)
    → ((j : ℕ) → j ≢ i → g j ≡ h j)
    → (n : ℕ) → i < n
    → sum g n + h i ≡ sum h n + g i
unfolding sum
sum-differ g h i same zero lt = absurd (omega arith)
sum-differ g h i same (suc n) lt = elim (Bool-cases (n == i)) [
  | inl here ↦
      let e : n ≡ i = ground arith in
      let below = sum-same g h n (λ j lj. same j (ground arith)) in ground (arith, below, e)
  | inr other ↦ omega (arith, same n (ground arith), sum-differ g h i same n (ground arith))
]

-- Where no item is above 1, the sum is no more than the number of items, and no item is above it.
pub sum-at_most : (g : ℕ → ℕ) → ((j : ℕ) → g j ≤ 1) → (n : ℕ) → sum g n ≤ n
unfolding sum
sum-at_most g one zero = omega arith
sum-at_most g one (suc n) = omega (arith, one n, sum-at_most g one n)

pub item-le_sum : (g : ℕ → ℕ) (i n : ℕ) → i < n → g i ≤ sum g n
unfolding sum
item-le_sum g i zero lt = absurd (omega arith)
item-le_sum g i (suc n) lt = elim (Bool-cases (n == i)) [
  | inl here ↦ let e : n ≡ i = ground arith in rw e (omega arith)
  | inr other ↦ omega (arith, item-le_sum g i n (ground arith))
]
