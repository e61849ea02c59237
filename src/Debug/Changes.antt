-- ===== src/Debug/Changes.antt =====
-- The registers, or the first bytes of the memory, after the changes of a log.
use virtual_machine.Prelude.{
  ℕ, zero, suc, ◌+◌, ◌≤◌, ◌<◌, ◌≡◌, ◌≢◌, ◌==◌, refl, arith, sym, ap, ◌∙◌, Option, none, some, List,
  [], ◌∷◌, ◌++◌, All, update, update_self, update_ne, ==_iff, Bool-cases, inl, inr,
}
use virtual_machine.Debug.Log.{
  Entry, Entry.instruction, register_operand, invalid_operand, immediate_operand, register_changed,
  registers_same, memory_changed, memory_same, pc_changed, pc_same, changes,
}

-- The register, or the byte, that an entry says to have changed, with its new value.
abbrev pub register_of : Entry → Option (ℕ × ℕ)
register_of (register_changed i old now) = some (i, now)
register_of (instruction n pc text bits) = none
register_of (register_operand i v) = none
register_of (invalid_operand i) = none
register_of (immediate_operand v) = none
register_of registers_same = none
register_of (memory_changed a old now) = none
register_of memory_same = none
register_of (pc_changed old pc) = none
register_of (pc_same pc) = none

abbrev pub byte_of : Entry → Option (ℕ × ℕ)
byte_of (memory_changed a old now) = some (a, now)
byte_of (instruction n pc text bits) = none
byte_of (register_operand i v) = none
byte_of (invalid_operand i) = none
byte_of (immediate_operand v) = none
byte_of (register_changed i old now) = none
byte_of registers_same = none
byte_of memory_same = none
byte_of (pc_changed old pc) = none
byte_of (pc_same pc) = none

abbrev pub write_change : Option (ℕ × ℕ) → (ℕ → ℕ) → ℕ → ℕ
write_change none f = f
write_change (some w) f = update f (w.0) (w.1)

-- The array after the changes that `of` finds in a log.
abbrev pub replay : (Entry → Option (ℕ × ℕ)) → List Entry → (ℕ → ℕ) → ℕ → ℕ
replay of [] f = f
replay of (e ∷ es) f = replay of es (write_change (of e) f)

-- The entries say nothing of the array.
abbrev pub IsSilent : (Entry → Option (ℕ × ℕ)) → List Entry → Type 0
IsSilent of es = All (λ e. of e ≡ none) es

module _ (of : Entry → Option (ℕ × ℕ)) where
  pub replay-append :
      (es fs : List Entry) (f : ℕ → ℕ) → replay of (es ++ fs) f ≡ replay of fs (replay of es f)
  replay-append [] fs f = refl
  replay-append (e ∷ es) fs f = replay-append es fs (write_change (of e) f)

  pub replay-IsSilent : (es : List Entry) (f : ℕ → ℕ) → IsSilent of es → replay of es f ≡ f
  replay-IsSilent [] f h = refl
  replay-IsSilent (e ∷ es) f h =
      ap (λ w. replay of es (write_change w f)) (h.0) ∙ replay-IsSilent es f (h.1)

  IsSilent-append : (es fs : List Entry) → IsSilent of es → IsSilent of fs → IsSilent of (es ++ fs)
  IsSilent-append [] fs h k = k
  IsSilent-append (e ∷ es) fs h k = (h.0, IsSilent-append es fs (h.1) k)

  module _ (entry : ℕ → ℕ → ℕ → Entry) where
    pub changes-IsSilent :
        (n i : ℕ) (old now : ℕ → ℕ)
        → ((j o v : ℕ) → of (entry j o v) ≡ none)
        → IsSilent of (changes entry n i old now)
    unfolding changes
    changes-IsSilent zero i old now h = tt
    changes-IsSilent (suc n) i old now h = elim (Bool-cases (old i == now i)) [
      | inl e ↦ rw e (changes-IsSilent n (i + 1) old now h)
      | inr e ↦ rw e (h i (old i) (now i), changes-IsSilent n (i + 1) old now h)
    ]

    module _ (says : (j o v : ℕ) → of (entry j o v) ≡ some (j, v)) where
      replay-next :
          (n i : ℕ) (old now f : ℕ → ℕ)
          → replay of (entry i (old i) (now i) ∷ changes entry n (i + 1) old now) f
            ≡ replay of (changes entry n (i + 1) old now) (update f i (now i))
      replay-next n i old now f =
          ap (λ w. replay of (changes entry n (i + 1) old now) (write_change w f))
            (says i (old i) (now i))

      replay-changes_below :
          (n i r : ℕ) (old now f : ℕ → ℕ) → r < i → replay of (changes entry n i old now) f r ≡ f r
      unfolding changes
      replay-changes_below zero i r old now f h = refl
      replay-changes_below (suc n) i r old now f h = elim (Bool-cases (old i == now i)) [
        | inl e ↦ rw e (replay-changes_below n (i + 1) r old now f (omega (arith, h)))
        | inr e ↦ rw e (
            ap (λ (g : ℕ → ℕ). g r) (replay-next n i old now f)
            ∙ replay-changes_below n (i + 1) r old now (update f i (now i)) (omega (arith, h))
            ∙ update_ne f i r (now i) (omega (arith, h)))
      ]

      pub replay-changes :
          (n i r : ℕ) (old now f : ℕ → ℕ)
          → i ≤ r
          → r < i + n
          → f r ≡ old r
          → replay of (changes entry n i old now) f r ≡ now r
      unfolding changes
      replay-changes zero i r old now f h k e = absurd (omega (arith, h, k))
      replay-changes (suc n) i r old now f h k e = elim (Bool-cases (r == i)) [
        | inl at ↦
            let same : r ≡ i = (==_iff r i).0 at in
            elim (Bool-cases (old i == now i)) [
              | inl kept ↦ rw kept (
                  replay-changes_below n (i + 1) r old now f (omega (arith, same))
                  ∙ e
                  ∙ ap old same
                  ∙ (==_iff (old i) (now i)).0 kept
                  ∙ ap now (sym same))
              | inr changed ↦ rw changed (
                  ap (λ (g : ℕ → ℕ). g r) (replay-next n i old now f)
                  ∙ replay-changes_below n (i + 1) r old now (update f i (now i))
                      (omega (arith, same))
                  ∙ ap (update f i (now i)) same
                  ∙ update_self f i (now i)
                  ∙ ap now (sym same))
            ]
        | inr elsewhere ↦
            let apart : r ≢ i = ground (arith, elsewhere) in
            elim (Bool-cases (old i == now i)) [
              | inl kept ↦ rw kept (
                  replay-changes n (i + 1) r old now f (omega (arith, h, apart)) (omega (arith, k))
                    e)
              | inr changed ↦ rw changed (
                  ap (λ (g : ℕ → ℕ). g r) (replay-next n i old now f)
                  ∙ replay-changes n (i + 1) r old now (update f i (now i))
                      (omega (arith, h, apart)) (omega (arith, k))
                      (update_ne f i r (now i) apart ∙ e))
            ]
      ]
