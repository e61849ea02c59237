-- ===== src/Ops/Strings/Bytes.antt =====
-- Blocks of bytes and zero-terminated strings in memory.
use virtual_machine.Prelude.{
  ℕ, zero, suc, ◌+◌, ◌-◌, ◌≤◌, ◌<◌, ◌≡◌, ◌≢◌, ◌⊎◌, refl, arith, List, [], ◌∷◌, ◌++◌, length, All,
  le→leb, lt→ltb, lt→leb-false, ap, ◌∙◌,
}
use mathlib.Core.Path.{subst}
use virtual_machine.Machine.{mem_bytes}
use virtual_machine.Ops.Strings.{safe_mem_remaining, str_len, safe_strlen_at, copy_bytes}

-- The bytes from `a` on are `xs`.
abbrev pub Holds : (ℕ → ℕ) → ℕ → List ℕ → Type 0
Holds mem a [] = Unit
Holds mem a (x ∷ xs) = (mem a ≡ x) × Holds mem (a + 1) xs

-- A string of nonzero bytes with its terminator.
pub record IsString (mem : ℕ → ℕ) (a : ℕ) (xs : List ℕ) : Type 0 where
  pub nonzero_bytes : All (λ x. x ≢ 0) xs
  pub held : Holds mem a (xs ++ 0 ∷ [])

pub holds-append :
    (mem : ℕ → ℕ) (a : ℕ) (xs ys : List ℕ)
    → Holds mem a xs
    → Holds mem (a + length xs) ys
    → Holds mem a (xs ++ ys)
holds-append mem a [] ys h k = subst (λ n. Holds mem n ys) (omega arith) k
holds-append mem a (x ∷ xs) ys h k =
    (h.0, holds-append mem (a + 1) xs ys h.1 (subst (λ n. Holds mem n ys) (omega arith) k))

pub holds_front : (mem : ℕ → ℕ) (a : ℕ) (xs ys : List ℕ) → Holds mem a (xs ++ ys) → Holds mem a xs
holds_front mem a [] ys h = tt
holds_front mem a (x ∷ xs) ys h = (h.0, holds_front mem (a + 1) xs ys h.1)

pub holds_back :
    (mem : ℕ → ℕ) (a : ℕ) (xs ys : List ℕ) → Holds mem a (xs ++ ys) → Holds mem (a + length xs) ys
holds_back mem a [] ys h = subst (λ n. Holds mem n ys) (omega arith) h
holds_back mem a (x ∷ xs) ys h =
    subst (λ n. Holds mem n ys) (omega arith) (holds_back mem (a + 1) xs ys h.1)

-- A block that agrees with another memory, byte by byte.
pub holds_of_eq :
    (mem mem' : ℕ → ℕ) (a b : ℕ) (xs : List ℕ)
    → ((k : ℕ) → k < length xs → mem' (b + k) ≡ mem (a + k))
    → Holds mem a xs
    → Holds mem' b xs
holds_of_eq mem mem' a b [] e h = tt
holds_of_eq mem mem' a b (x ∷ xs) e h = (
  ap mem' (omega arith) ∙ e 0 (omega arith) ∙ ap mem (omega arith) ∙ h.0,
  holds_of_eq mem mem' (a + 1) (b + 1) xs
      (λ k p. ap mem' (omega arith) ∙ e (suc k) (omega arith) ∙ ap mem (omega arith)) h.1,
)

-- A copied block stands at its destination.
pub holds_copied :
    (mem : ℕ → ℕ) (dest src n : ℕ) (xs : List ℕ)
    → length xs ≤ n
    → Holds mem src xs
    → Holds (copy_bytes mem dest src n) dest xs
unfolding copy_bytes
holds_copied mem dest src n xs le h =
    holds_of_eq mem (copy_bytes mem dest src n) src dest xs
      (λ k p.
        let e : dest + k - dest ≡ k = omega arith in
        rw (le→leb dest (dest + k) (omega arith), lt→ltb (dest + k) (dest + n) (omega arith), e)
          refl)
      h

-- A block apart from the destination stays.
pub holds_uncopied :
    (mem : ℕ → ℕ) (dest src n a : ℕ) (xs : List ℕ)
    → (a + length xs ≤ dest) ⊎ (dest + n ≤ a)
    → Holds mem a xs
    → Holds (copy_bytes mem dest src n) a xs
unfolding copy_bytes
holds_uncopied mem dest src n a xs apart h =
    holds_of_eq mem (copy_bytes mem dest src n) a a xs (λ k p. ground arith) h

-- The length that the loop finds, where the bound leaves room for the terminator.
pub str_len-string :
    (mem : ℕ → ℕ) (a rem : ℕ) (xs : List ℕ)
    → IsString mem a xs
    → length xs < rem
    → str_len mem a rem ≡ length xs
unfolding str_len
str_len-string mem a zero xs s h = absurd (omega arith)
str_len-string mem a (suc rem) [] s h = ground (arith, s.held.0)
str_len-string mem a (suc rem) (x ∷ xs) s h = ground (
  arith,
  s.held.0,
  s.nonzero_bytes.0,
  str_len-string mem (a + 1) rem xs (record { nonzero_bytes = s.nonzero_bytes.1; held = s.held.1 }),
)

pub strlen-string :
    (mem : ℕ → ℕ) (a : ℕ) (xs : List ℕ)
    → IsString mem a xs
    → a + length xs < mem_bytes
    → safe_strlen_at mem a ≡ length xs
unfolding safe_strlen_at safe_mem_remaining
strlen-string mem a xs s h =
    rw (lt→leb-false mem_bytes a (omega arith)) (str_len-string mem a _ xs s (omega arith))
