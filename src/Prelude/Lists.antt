-- ===== src/Prelude/Lists.antt =====
-- Lists measured and indexed by native numbers, under the library's names.
use Prim.Native.Nat.{ℕ, zero, suc, ◌+◌}
use mathlib.Core.Path.{◌≡◌, subst}
use mathlib.Core.List.{List, [], ◌∷◌, ◌++◌}
use mathlib.Core.Option.{Option, none, some}
use native.Mathlib.Omega.{arith}

module _ {ℓ} {A : Type ℓ} where
  abbrev pub length : List A → ℕ
  length [] = 0
  length (x ∷ xs) = suc (length xs)

  abbrev pub get_elem? : List A → ℕ → Option A
  get_elem? [] i = none
  get_elem? (x ∷ xs) zero = some x
  get_elem? (x ∷ xs) (suc i) = get_elem? xs i

  abbrev pub take : ℕ → List A → List A
  take zero xs = []
  take (suc n) [] = []
  take (suc n) (x ∷ xs) = x ∷ take n xs

  abbrev pub drop : ℕ → List A → List A
  drop zero xs = xs
  drop (suc n) [] = []
  drop (suc n) (x ∷ xs) = drop n xs

  pub length-append : (xs ys : List A) → length (xs ++ ys) ≡ length xs + length ys
  length-append [] ys = omega arith
  length-append (x ∷ xs) ys = omega (arith, length-append xs ys)

-- Two proofs as one; a long chain reads as a list.
infixr 5 ◌&◌
pub ◌&◌ {ℓ κ} : {A : Type ℓ} {B : Type κ} → A → B → A × B
a & b = (a, b)

-- A predicate on every element.
abbrev pub All {ℓ κ} : {A : Type ℓ} → (A → Type κ) → List A → Type κ
All P [] = Unit
All P (x ∷ xs) = P x × All P xs

pub All-get_elem? {ℓ κ} :
    {A : Type ℓ} (P : A → Type κ) (xs : List A) (i : ℕ) {a : A}
    → All P xs
    → get_elem? xs i ≡ some a
    → P a
All-get_elem? P [] i all h = absurd (cc)
All-get_elem? P (x ∷ xs) zero {a} all h = let e : x ≡ a = cc in subst P e all.0
All-get_elem? P (x ∷ xs) (suc i) all h = All-get_elem? P xs i all.1 h

-- A step for each element of a list, until one fails.
abbrev pub run_all {ℓ κ} : {S : Type ℓ} {A : Type κ} → (S → A → Option S) → S → List A → Option S
run_all step s [] = some s
run_all step s (x ∷ xs) = elim (step s x) [ none ↦ none | some s' ↦ run_all step s' xs ]

pub run_all-some {ℓ κ} :
    {S : Type ℓ} {A : Type κ} (step : S → A → Option S) (s s' : S) (x : A) (xs : List A)
    {r : Option S}
    → step s x ≡ some s'
    → run_all step s' xs ≡ r
    → run_all step s (x ∷ xs) ≡ r
run_all-some step s s' x xs e rest = rw (e, run_all) rest
