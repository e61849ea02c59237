-- ===== src/HashTable/Sound.antt =====
-- The invariant of a hash table, and what one write to the array of bins does.
use native.Mathlib.Nat.{pow-le-pow_right}
use virtual_machine.Prelude.{
  ℕ, true, false, not, ◌^◌, ◌≤◌, ◌<◌, ◌≡◌, ◌≢◌, arith, Option, Bool-cases, if_split, ◌∙◌, ap, refl,
  to_nat, update_self, update_ne, inl, inr,
}
use virtual_machine.Word.{add32}
use virtual_machine.HashTable.{
  KeyType, Bin, HashTable, probe, free_bin, store_in_bin, is_active_bin,
}
use virtual_machine.HashTable.Count.{count}

-- `cmp` decides equality of the keys.
pub record KeyLaws {K : Type 0} (kt : KeyType K) : Type 0 where
  pub cmp-eq : (a b : K) → kt.cmp a b ≡ true → a ≡ b
  pub cmp_self : (a : K) → kt.cmp a a ≡ true

module _ {K V : Type 0} where
  -- The probing of a hash key comes to the bin through bins in the probing.
  pub record Reaches (t : HashTable K V) (hash_key j : ℕ) : Type 0 where
    pub steps : ℕ
    pub below : steps < t.size
    pub here : probe hash_key steps t.size ≡ j
    pub before : (i : ℕ) → i < steps → (t.bins (probe hash_key i t.size)).in_probe ≡ true

  pub record IsSound (kt : KeyType K) (t : HashTable K V) : Type 0 where
    pub exponent : ℕ
    pub big : 3 ≤ exponent
    pub small : exponent ≤ 31
    pub power : t.size ≡ 2 ^ exponent
    pub counted : t.used ≡ count (λ j. (t.bins j).in_probe) t.size 0
    pub room : t.used < t.size
    pub fresh : (j : ℕ) → j < t.size → (t.bins j).in_probe ≡ false → (t.bins j).is_empty ≡ true
    pub hashed :
        (j : ℕ)
        → j < t.size
        → (t.bins j).is_empty ≡ false
        → (t.bins j).hash_key ≡ kt.hash (t.bins j).key
    pub reached :
        (j : ℕ) → j < t.size → (t.bins j).is_empty ≡ false → Reaches t (kt.hash (t.bins j).key) j
    pub unique :
        (i j : ℕ)
        → i < t.size
        → j < t.size
        → (t.bins i).is_empty ≡ false
        → (t.bins j).is_empty ≡ false
        → (t.bins i).key ≡ (t.bins j).key
        → i ≡ j

  -- An occupied bin is in the probing.
  pub occupied-in_probe :
      {kt : KeyType K} {t : HashTable K V} (j : ℕ)
      → IsSound kt t
      → j < t.size
      → (t.bins j).is_empty ≡ false
      → (t.bins j).in_probe ≡ true
  occupied-in_probe {t} j sound lt full = elim (Bool-cases (t.bins j).in_probe) [
    | inl e ↦ e
    | inr e ↦ absurd (let empty = sound.fresh j lt e in cc)
  ]

  pub size-big : {kt : KeyType K} {t : HashTable K V} → IsSound kt t → 8 ≤ t.size
  size-big sound =
      rw sound.power (pow-le-pow_right {n = 2} (omega arith) {i = 3} {j = sound.exponent} sound.big)

  pub size-small : {kt : KeyType K} {t : HashTable K V} → IsSound kt t → t.size ≤ 2 ^ 31
  size-small sound =
      rw sound.power
        (pow-le-pow_right {n = 2} (omega arith) {i = sound.exponent} {j = 31} sound.small)

  pub free_bin-frame :
      (t : HashTable K V) (j : ℕ)
      → ((free_bin t j).size ≡ t.size)
        × ((free_bin t j).used ≡ t.used)
        × ((i : ℕ) → i ≢ j → (free_bin t j).bins i ≡ t.bins i)
        × (((free_bin t j).bins j).in_probe ≡ (t.bins j).in_probe)
  unfolding free_bin
  free_bin-frame t j =
      if_split {A = HashTable K V}
        (λ r.
          (r.size ≡ t.size)
          × (r.used ≡ t.used)
          × ((i : ℕ) → i ≢ j → r.bins i ≡ t.bins i)
          × ((r.bins j).in_probe ≡ (t.bins j).in_probe))
        (is_active_bin (t.bins j))
        (
          refl,
          refl,
          λ i ne. update_ne t.bins j i (record (t.bins j) { is_empty = true }) ne,
          ap (λ b. b.in_probe) (update_self t.bins j (record (t.bins j) { is_empty = true })),
        )
        (refl, refl, λ i ne. refl, refl)

  abbrev pub new_bin : ℕ → K → Option V → Bin K V
  new_bin hash_key key val = record {
    in_probe = true;
    is_empty = false;
    hash_key = hash_key;
    key = key;
    val = val;
  }

  module _ (t : HashTable K V) (j hash_key : ℕ) (key : K) (val : Option V) where
    abbrev counted_in : HashTable K V
    counted_in = record t {
      active = add32 t.active (to_nat (t.bins j).is_empty);
      used = add32 t.used (to_nat (not (t.bins j).in_probe));
    }

    pub store-size : (store_in_bin t j hash_key key val).size ≡ t.size
    unfolding store_in_bin
    store-size = (free_bin-frame counted_in j).0

    pub store-used :
        (store_in_bin t j hash_key key val).used ≡ add32 t.used (to_nat (not (t.bins j).in_probe))
    unfolding store_in_bin
    store-used = (free_bin-frame counted_in j).1

    pub store_here : (store_in_bin t j hash_key key val).bins j ≡ new_bin hash_key key val
    unfolding store_in_bin
    store_here = update_self (free_bin counted_in j).bins j (new_bin hash_key key val)

    pub store_other : (i : ℕ) → i ≢ j → (store_in_bin t j hash_key key val).bins i ≡ t.bins i
    unfolding store_in_bin
    store_other i ne =
        update_ne (free_bin counted_in j).bins j i (new_bin hash_key key val) ne
        ∙ (free_bin-frame counted_in j).2 i ne
