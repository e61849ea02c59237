-- ===== src/HashTable/Count.antt =====
-- How many bins have a property: `used` of the table counts the bins in the probing.
use virtual_machine.Prelude.{
  ℕ, zero, suc, Bool, true, false, ◌+◌, ◌≤◌, ◌<◌, ◌≡◌, ◌⊎◌, inl, inr, arith, to_nat, Bool-cases, ap,
}

-- The indices `i`, …, `i + left - 1` at which the test is true.
unfoldable pub count : (ℕ → Bool) → ℕ → ℕ → ℕ
count f zero i = 0
count f (suc left) i = to_nat (f i) + count f left (i + 1)

pub to_nat-le : (b : Bool) → to_nat b ≤ 1
to_nat-le true = omega arith
to_nat-le false = omega arith

first_or : (i j left : ℕ) → i ≤ j → j < i + suc left → (j ≡ i) ⊎ (i + 1 ≤ j)
first_or i j left p q = ground arith

pub count-le : (f : ℕ → Bool) (left i : ℕ) → count f left i ≤ left
unfolding count
count-le f zero i = omega arith
count-le f (suc left) i = omega (arith, to_nat-le (f i), count-le f left (i + 1))

pub count-false :
    (f : ℕ → Bool) (left i : ℕ)
    → count f left i < left
    → (j : ℕ) × (i ≤ j) × (j < i + left) × (f j ≡ false)
unfolding count
count-false f zero i h = absurd (omega arith)
count-false f (suc left) i h = elim (Bool-cases (f i)) [
  | inl e ↦
      let (j, p, q, r) = count-false f left (i + 1) (omega (arith, ap to_nat e)) in
      (j, omega arith, omega arith, r)
  | inr e ↦ (i, omega arith, omega arith, e)
]

-- Nothing holds of a fresh array.
pub count_none : (f : ℕ → Bool) (left i : ℕ) → ((j : ℕ) → f j ≡ false) → count f left i ≡ 0
unfolding count
count_none f zero i h = omega arith
count_none f (suc left) i h = omega (arith, ap to_nat (h i), count_none f left (i + 1) h)

pub count_mono :
    (f g : ℕ → Bool) (left i : ℕ)
    → ((j : ℕ) → i ≤ j → j < i + left → to_nat (f j) ≤ to_nat (g j))
    → count f left i ≤ count g left i
unfolding count
count_mono f g zero i h = omega arith
count_mono f g (suc left) i h = omega (
  arith,
  h i (omega arith) (omega arith),
  count_mono f g left (i + 1) (λ j p q. h j (omega arith) (omega arith)),
)

pub count_same :
    (f g : ℕ → Bool) (left i : ℕ)
    → ((j : ℕ) → i ≤ j → j < i + left → f j ≡ g j)
    → count f left i ≡ count g left i
unfolding count
count_same f g zero i h = omega arith
count_same f g (suc left) i h = omega (
  arith,
  ap to_nat (h i (omega arith) (omega arith)),
  count_same f g left (i + 1) (λ j p q. h j (omega arith) (omega arith)),
)

-- One entry changes.
pub count-changed :
    (f g : ℕ → Bool) (left i k : ℕ)
    → i ≤ k
    → k < i + left
    → ((j : ℕ) → ¬ (j ≡ k) → g j ≡ f j)
    → count g left i + to_nat (f k) ≡ count f left i + to_nat (g k)
unfolding count
count-changed f g zero i k p q h = absurd (omega arith)
count-changed f g (suc left) i k p q h = elim (first_or i k left p q) [
  | inl e ↦ omega (
    arith,
    count_same g f left (i + 1) (λ j p' q'. h j (λ x. omega arith)),
    ap (λ j. to_nat (f j)) e,
    ap (λ j. to_nat (g j)) e,
  )
  | inr later ↦ omega (
    arith,
    ap to_nat (h i (λ x. omega arith)),
    count-changed f g left (i + 1) k later (omega arith) h,
  )
]
