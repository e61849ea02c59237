-- ===== src/HashTable/Rehash.antt =====
-- The loop of `init_table` over the old bins moves every entry, and `resize` keeps the contents.
use virtual_machine.Prelude.{
  ℕ, zero, suc, true, false, not, ◌+◌, ◌^◌, ◌≤◌, ◌<◌, ◌≡◌, ◌⊎◌, arith, Option, some, Bool-cases,
  sym, ◌∙◌, ap, refl, to_nat, inl, inr,
}
use virtual_machine.HashTable.{KeyType, HashTable, rehash, empty_table}
use virtual_machine.Word.{pow_pos}
use virtual_machine.HashTable.Count.{count, count_none}
use virtual_machine.HashTable.Sound.{IsSound}
use virtual_machine.HashTable.Contents.{HasEntry, HasKey}
use virtual_machine.HashTable.Changes.{Inserted}

before_or : (l i : ℕ) → l < i + 1 → (l < i) ⊎ (l ≡ i)
before_or l i h = ground arith

module _ {K V : Type 0} (kt : KeyType K) (old : HashTable K V) (old_sound : IsSound kt old) where
  -- The occupied bins from `i` on.
  abbrev pub occupied : ℕ → ℕ → ℕ
  occupied = count (λ j. not (old.bins j).is_empty)

  -- The entries of the first `i` bins are moved, and no others.
  pub record Moved (i : ℕ) (t : HashTable K V) : Type 0 where
    pub sound : IsSound kt t
    pub moved :
        (l : ℕ)
        → l < i
        → (old.bins l).is_empty ≡ false
        → HasEntry t (old.bins l).key (old.bins l).val
    pub only :
        (k : K)
        → HasKey t k
        → (l : ℕ) × (l < i) × ((old.bins l).is_empty ≡ false) × ((old.bins l).key ≡ k)

  skip_bin :
      (i : ℕ) (t : HashTable K V) → (old.bins i).is_empty ≡ true → Moved i t → Moved (i + 1) t
  skip_bin i t e m = record {
    sound = m.sound;
    moved = λ l lt full. elim (before_or l i lt) [
      | inl earlier ↦ m.moved l earlier full
      | inr same ↦ absurd (let at = ap (λ b. (old.bins b).is_empty) same in cc)
    ];
    only = λ k has. let (l, lt, full, is) = m.only k has in (l, omega arith, full, is);
  }

  move_bin :
      (i : ℕ) (t t' : HashTable K V)
      → i < old.size
      → (old.bins i).is_empty ≡ false
      → Moved i t
      → Inserted kt t t' (old.bins i).key (old.bins i).val
      → Moved (i + 1) t'
  move_bin i t t' inside full m ins = record {
    sound = ins.sound;
    moved = λ l lt l_full. elim (before_or l i lt) [
      | inl earlier ↦
          ins.kept (old.bins l).key (old.bins l).val
            (λ same.
              absurd
                (let e = old_sound.unique l i (omega arith) inside l_full full same in omega arith))
            (m.moved l earlier l_full)
      | inr same ↦ rw same ins.entry
    ];
    only = λ k has. elim (ins.back k has) [
      | inl is ↦ (i, omega arith, full, sym is)
      | inr before ↦ let (l, lt, l_full, is) = m.only k before in (l, omega arith, l_full, is)
    ];
  }

  module _ (ok : ℕ → HashTable K V → Type 0)
      (insert : HashTable K V → ℕ → K → Option V → Option (HashTable K V))
      (step : (r : ℕ) (t : HashTable K V) (key : K) (val : Option V)
        → IsSound kt t
        → ok (suc r) t
        → (t' : HashTable K V) × (insert t (kt.hash key) key val ≡ some t')
          × Inserted kt t t' key val
          × ok r t') where
    rehash_skip :
        (left i : ℕ) (t : HashTable K V) {r : Option (HashTable K V)}
        → (old.bins i).is_empty ≡ true
        → rehash kt insert old.bins left (i + 1) t ≡ r
        → rehash kt insert old.bins (suc left) i t ≡ r
    unfolding rehash
    rehash_skip left i t empty next = rw (empty, rehash) next

    rehash_move :
        (left i : ℕ) (t t₁ : HashTable K V) {r : Option (HashTable K V)}
        → (old.bins i).is_empty ≡ false
        → insert t (old.bins i).hash_key (old.bins i).key (old.bins i).val ≡ some t₁
        → rehash kt insert old.bins left (i + 1) t₁ ≡ r
        → rehash kt insert old.bins (suc left) i t ≡ r
    unfolding rehash
    rehash_move left i t t₁ full call next = rw (full, rehash, call) next

    pub rehash_lem :
        (left i : ℕ) (t : HashTable K V)
        → i + left ≡ old.size
        → ok (occupied left i) t
        → Moved i t
        → (t' : HashTable K V) × (rehash kt insert old.bins left i t ≡ some t')
          × Moved old.size t'
          × ok 0 t'
    unfolding rehash count
    rehash_lem zero i t e good m = (t, refl, rw (let s : old.size ≡ i = omega arith in s) m, good)
    rehash_lem (suc left) i t e good m = elim (Bool-cases (old.bins i).is_empty) [
      | inl empty ↦
          let fewer : occupied (suc left) i ≡ occupied left (i + 1) =
            omega (arith, ap (λ b. to_nat (not b)) empty) in
          let (t', found, done, fine) =
            rehash_lem left (i + 1) t (omega arith) (rw (sym fewer) good) (skip_bin i t empty m) in
          (t', rehash_skip left i t empty found, done, fine)
      | inr full ↦
          let fewer : occupied (suc left) i ≡ suc (occupied left (i + 1)) =
            omega (arith, ap (λ b. to_nat (not b)) full) in
          let (t₁, inserted, ins, fine₁) =
            step (occupied left (i + 1)) t (old.bins i).key (old.bins i).val m.sound
              (rw (sym fewer) good) in
          let (t₂, found, done, fine) =
            rehash_lem left (i + 1) t₁ (omega arith) fine₁
              (move_bin i t t₁ (omega arith) full m ins) in
          let call : insert t (old.bins i).hash_key (old.bins i).key (old.bins i).val ≡ some t₁ =
            ap (λ h. insert t h (old.bins i).key (old.bins i).val)
              (old_sound.hashed i (omega arith) full)
            ∙ inserted in
          (t₂, rehash_move left i t t₁ full call found, done, fine)
    ]

-- A fresh table is sound and holds nothing.
module _ {K V : Type 0} (kt : KeyType K) (size : ℕ) where
  abbrev pub fresh_table : HashTable K V
  fresh_table = empty_table kt size

  pub fresh_table-IsSound :
      (exponent : ℕ) → size ≡ 2 ^ exponent → 3 ≤ exponent → exponent ≤ 31 → IsSound kt fresh_table
  unfolding empty_table
  fresh_table-IsSound exponent e big small = record {
    exponent = exponent;
    big = big;
    small = small;
    power = e;
    counted = sym (count_none (λ j. (fresh_table.bins j).in_probe) size 0 (λ j. refl));
    room = omega (arith, pow_pos exponent);
    fresh = λ j lt h. refl;
    hashed = λ j lt h. absurd (cc);
    reached = λ j lt h. absurd (cc);
    unique = λ i j p q h. absurd (cc);
  }

  pub fresh_table_none : (key : K) → ¬ HasKey fresh_table key
  unfolding empty_table
  fresh_table_none key has = absurd (let h = has.is_full in cc)

pub fresh_table_counts :
    {K : Type 0} (V : Type 0) (kt : KeyType K) (size : ℕ)
    → ((fresh_table {V = V} kt size).size ≡ size) × ((fresh_table {V = V} kt size).used ≡ 0)
unfolding empty_table
fresh_table_counts V kt size = (refl, refl)
