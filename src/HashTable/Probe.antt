-- ===== src/HashTable/Probe.antt =====
-- The probing sequence of a hash key visits every bin of a table whose size is a power of two.
use native.Mathlib.Nat.{mod-lt, mod-eq_of_lt, add-mod-mod, mod-add-mod, add-mod_right}
use virtual_machine.Prelude.{ℕ, ◌+◌, ◌-◌, ◌%◌, ◌^◌, ◌≤◌, ◌<◌, ◌≡◌, arith, ap, sym, ◌∙◌}
use virtual_machine.Word.{pow_pos, bit_and-mask, mod-mod_pow}
use virtual_machine.HashTable.{probe}

module _ (k : ℕ) (small : k ≤ 32) where
  pub probe-mod : (h i : ℕ) → probe h i (2 ^ k) ≡ (h + i) % 2 ^ k
  unfolding probe
  probe-mod h i = bit_and-mask k ((h + i) % 2 ^ 32) ∙ mod-mod_pow 32 k (h + i) small

  pub probe-lt : (h i : ℕ) → probe h i (2 ^ k) < 2 ^ k
  probe-lt h i = rw (probe-mod h i) (mod-lt (h + i) {m = 2 ^ k} (pow_pos k))

  pub probe_covers : (h j : ℕ) → j < 2 ^ k → (i : ℕ) × (i < 2 ^ k) × (probe h i (2 ^ k) ≡ j)
  probe_covers h j lt = (
    (j + 2 ^ k - h % 2 ^ k) % 2 ^ k,
    mod-lt (j + 2 ^ k - h % 2 ^ k) {m = 2 ^ k} (pow_pos k),
    probe-mod h ((j + 2 ^ k - h % 2 ^ k) % 2 ^ k)
        ∙ add-mod-mod h (j + 2 ^ k - h % 2 ^ k) (2 ^ k)
        ∙ sym (mod-add-mod h (2 ^ k) (j + 2 ^ k - h % 2 ^ k))
        ∙ ap (λ y. y % 2 ^ k)
            (let e : h % 2 ^ k + (j + 2 ^ k - h % 2 ^ k) ≡ j + 2 ^ k =
                omega (arith, mod-lt h {m = 2 ^ k} (pow_pos k)) in
              e)
        ∙ add-mod_right j (2 ^ k)
        ∙ mod-eq_of_lt {n = j} {m = 2 ^ k} lt,
  )
