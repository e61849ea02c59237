-- ===== src/Debug/NonZero.antt =====
-- The list of the bytes that are not 0: `fprintf_mem_nonzero` of prototype-integrator/src/debug.c, without
-- the characters beside the bytes.
use virtual_machine.Prelude.{
  ℕ, zero, suc, ◌+◌, ◌≤◌, ◌<◌, ◌≡◌, ◌≢◌, ◌==◌, min, refl, arith, sym, ap, ◌∙◌, if◌then◌else◌, List,
  [], ◌∷◌, update, update_self, update_ne, ==_iff, Bool-cases, inl, inr,
}
use virtual_machine.Machine.{mem_bytes}

-- The loop over `n` addresses from `i` on.
unfoldable pub nonzero_bytes : (ℕ → ℕ) → ℕ → ℕ → List (ℕ × ℕ)
nonzero_bytes mem zero i = []
nonzero_bytes mem (suc n) i =
    let rest = nonzero_bytes mem n (i + 1) in if mem i == 0 then rest else (i, mem i) ∷ rest

-- No entry stands for "(none)".
unfoldable pub fprintf_mem_nonzero : (ℕ → ℕ) → ℕ → List (ℕ × ℕ)
unfolding nonzero_bytes
fprintf_mem_nonzero mem stop = nonzero_bytes mem (min stop mem_bytes) 0

-- The memory with the listed bytes written.
abbrev pub write_all : List (ℕ × ℕ) → (ℕ → ℕ) → ℕ → ℕ
write_all [] mem = mem
write_all (e ∷ es) mem = write_all es (update mem (e.0) (e.1))

written_below :
    (n i a : ℕ) (mem into : ℕ → ℕ) → a < i → write_all (nonzero_bytes mem n i) into a ≡ into a
unfolding nonzero_bytes
written_below zero i a mem into h = refl
written_below (suc n) i a mem into h = elim (Bool-cases (mem i == 0)) [
  | inl e ↦ rw e (written_below n (i + 1) a mem into (omega (arith, h)))
  | inr e ↦ rw e (
      written_below n (i + 1) a mem (update into i (mem i)) (omega (arith, h))
      ∙ update_ne into i a (mem i) (omega (arith, h)))
]

written_inside :
    (n i a : ℕ) (mem into : ℕ → ℕ)
    → i ≤ a
    → a < i + n
    → into a ≡ 0
    → write_all (nonzero_bytes mem n i) into a ≡ mem a
unfolding nonzero_bytes
written_inside zero i a mem into h k z = absurd (omega (arith, h, k))
written_inside (suc n) i a mem into h k z = elim (Bool-cases (a == i)) [
  | inl at ↦
      let same : a ≡ i = (==_iff a i).0 at in
      elim (Bool-cases (mem i == 0)) [
        | inl e ↦ rw e (
            written_below n (i + 1) a mem into (omega (arith, same))
            ∙ z
            ∙ sym ((==_iff (mem i) 0).0 e)
            ∙ ap mem (sym same))
        | inr e ↦ rw e (
            written_below n (i + 1) a mem (update into i (mem i)) (omega (arith, same))
            ∙ ap (update into i (mem i)) same
            ∙ update_self into i (mem i)
            ∙ ap mem (sym same))
      ]
  | inr elsewhere ↦
      let apart : a ≢ i = ground (arith, elsewhere) in
      elim (Bool-cases (mem i == 0)) [
        | inl e ↦
            rw e
              (written_inside n (i + 1) a mem into (omega (arith, h, apart)) (omega (arith, k)) z)
        | inr e ↦ rw e (
            written_inside n (i + 1) a mem (update into i (mem i)) (omega (arith, h, apart))
              (omega (arith, k)) (update_ne into i a (mem i) apart ∙ z))
      ]
]

-- The list determines the bytes below `stop`: written into a memory of zeros it gives each of them.
pub fprintf_mem_nonzero_lem :
    (mem : ℕ → ℕ) (stop a : ℕ)
    → a < stop
    → a < mem_bytes
    → write_all (fprintf_mem_nonzero mem stop) (λ j. 0) a ≡ mem a
unfolding fprintf_mem_nonzero
fprintf_mem_nonzero_lem mem stop a h k =
    written_inside (min stop mem_bytes) 0 a mem (λ j. 0) (omega arith) (omega (arith, h, k)) refl
