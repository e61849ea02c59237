-- ===== src/HashTable/Search.antt =====
-- The loop of `find_key` and `find_empty`: it returns the first bin of the sequence that stops it.
use virtual_machine.Prelude.{
  ℕ, zero, suc, Bool, true, false, ◌+◌, ◌≤◌, ◌<◌, ◌≡◌, ◌⊎◌, inl, inr, arith, some, Bool-cases, sym,
  refl,
}
use virtual_machine.HashTable.{Bin, probe, first_bin}

here_or : (i d : ℕ) → i ≤ d → (i ≡ d) ⊎ (i + 1 ≤ d)
here_or i d p = ground arith

module _ {K V : Type 0} (stop : Bin K V → Bool) (bins : ℕ → Bin K V) (hash_key size : ℕ) where
  -- `j` is the first bin that stops the search, `start` and `turns` the interval of it.
  pub record IsFirst (start turns j : ℕ) : Type 0 where
    pub steps : ℕ
    pub from : start ≤ steps
    pub below : steps < start + turns
    pub here : probe hash_key steps size ≡ j
    pub stops : stop (bins j) ≡ true
    pub before : (i : ℕ) → start ≤ i → i < steps → stop (bins (probe hash_key i size)) ≡ false

  pub first_bin_lem :
      (left i d : ℕ)
      → i ≤ d
      → d < i + left
      → stop (bins (probe hash_key d size)) ≡ true
      → (j : ℕ) × (first_bin stop bins hash_key size left i ≡ some j) × IsFirst i left j
  unfolding first_bin
  first_bin_lem zero i d p q h = absurd (omega arith)
  first_bin_lem (suc left) i d p q h = elim (Bool-cases (stop (bins (probe hash_key i size)))) [
    | inl e ↦ (
      probe hash_key i size,
      rw (e, first_bin) refl,
      record {
        steps = i;
        from = omega arith;
        below = omega arith;
        here = refl;
        stops = e;
        before = λ k a b. absurd (omega arith);
      },
    )
    | inr e ↦ elim (here_or i d p) [
      | inl same ↦ absurd (let t : stop (bins (probe hash_key i size)) ≡ true = rw same h in cc)
      | inr later ↦
          let (j, found, first) = first_bin_lem left (i + 1) d later (omega arith) h in
          (
            j,
            rw (e, first_bin) found,
            record {
              steps = first.steps;
              from = omega (arith, first.from);
              below = omega (arith, first.below);
              here = first.here;
              stops = first.stops;
              before = λ k a b. elim (here_or i k a) [
                | inl k_is ↦ rw (sym k_is) e
                | inr k_later ↦ first.before k k_later b
              ];
            },
          )
    ]
  ]
