-- ===== src/HashTable/Changes.antt =====
-- What an insertion and a change of the size do to the contents of a hash table.
use virtual_machine.Prelude.{
  ℕ, not, ◌+◌, ◌≤◌, ◌<◌, ◌≡◌, ◌≢◌, ◌⊎◌, arith, Option, sym, ◌∙◌, ap, refl, inl, inr,
}
use virtual_machine.Word.{add32}
use virtual_machine.HashTable.{KeyType, HashTable, store_in_bin}
use virtual_machine.HashTable.Count.{to_nat-le}
use virtual_machine.HashTable.Sound.{IsSound, store-size, store-used, store_here, store_other}
use virtual_machine.HashTable.Store.{IsTarget, stored-IsSound, bin_cases}
use virtual_machine.HashTable.Contents.{HasEntry, HasKey}

module _ {K V : Type 0} where
  -- `t'` is `t` with the value for the key.
  pub record Inserted (kt : KeyType K) (t t' : HashTable K V) (key : K) (val : Option V)
      : Type 0 where
    pub sound : IsSound kt t'
    pub one_more : t'.used ≤ t.used + 1
    pub entry : HasEntry t' key val
    pub kept : (k : K) (v : Option V) → k ≢ key → HasEntry t k v → HasEntry t' k v
    pub back : (k : K) → HasKey t' k → (k ≡ key) ⊎ HasKey t k

  -- `t'` has the contents of `t`.
  pub record SameContents (t t' : HashTable K V) : Type 0 where
    pub kept : (k : K) (v : Option V) → HasEntry t k v → HasEntry t' k v
    pub back : (k : K) → HasKey t' k → HasKey t k

  pub SameContents-refl : (t : HashTable K V) → SameContents t t
  SameContents-refl t = record { kept = λ k v e. e; back = λ k e. e }

  pub Inserted-then :
      {kt : KeyType K} {t t₁ t₂ : HashTable K V} {key : K} {val : Option V}
      → Inserted kt t t₁ key val
      → SameContents t₁ t₂
      → IsSound kt t₂
      → t₂.used ≤ t.used + 1
      → Inserted kt t t₂ key val
  Inserted-then {key} {val} ins same sound le = record {
    sound = sound;
    one_more = le;
    entry = same.kept key val ins.entry;
    kept = λ k v ne e. same.kept k v (ins.kept k v ne e);
    back = λ k h. ins.back k (same.back k h);
  }

  HasEntry-HasKey : {t : HashTable K V} {k : K} {v : Option V} → HasEntry t k v → HasKey t k
  HasEntry-HasKey e = record {
    bin = e.bin;
    below = e.below;
    is_full = e.is_full;
    is_key = e.is_key;
  }

  pub HasKey-HasEntry :
      {t : HashTable K V} {k : K} → (h : HasKey t k) → HasEntry t k (t.bins h.bin).val
  HasKey-HasEntry h = record {
    bin = h.bin;
    below = h.below;
    is_full = h.is_full;
    is_key = h.is_key;
    is_val = refl;
  }

  module _ (kt : KeyType K) (t : HashTable K V) (key : K) (val : Option V) (j : ℕ)
      (sound : IsSound kt t) (target : IsTarget kt t key j) (spare : t.used + 1 < t.size) where
    abbrev new : HashTable K V
    new = store_in_bin t j (kt.hash key) key val

    size : new.size ≡ t.size
    size = store-size t j (kt.hash key) key val

    stored_entry : HasEntry new key val
    stored_entry =
        let here = store_here t j (kt.hash key) key val in
        record {
          bin = j;
          below = omega (arith, size, target.inside);
          is_full = ap (λ b. b.is_empty) here;
          is_key = ap (λ b. b.key) here;
          is_val = ap (λ b. b.val) here;
        }

    stored_kept : (k : K) (v : Option V) → k ≢ key → HasEntry t k v → HasEntry new k v
    stored_kept k v ne entry =
        let elsewhere : entry.bin ≢ j = λ e. ne (
          sym entry.is_key
          ∙ ap (λ b. (t.bins b).key) e
          ∙ target.own (sym (ap (λ b. (t.bins b).is_empty) e) ∙ entry.is_full)) in
        let other = store_other t j (kt.hash key) key val entry.bin elsewhere in
        record {
          bin = entry.bin;
          below = omega (arith, size, entry.below);
          is_full = ap (λ b. b.is_empty) other ∙ entry.is_full;
          is_key = ap (λ b. b.key) other ∙ entry.is_key;
          is_val = ap (λ b. b.val) other ∙ entry.is_val;
        }

    stored_back : (k : K) → HasKey new k → (k ≡ key) ⊎ HasKey t k
    stored_back k has = elim (bin_cases kt t key val j sound target spare has.bin) [
      | inl (same, e) ↦ inl (sym has.is_key ∙ ap (λ b. b.key) e)
      | inr (ne, e) ↦ inr (record {
        bin = has.bin;
        below = omega (arith, size, has.below);
        is_full = sym (ap (λ b. b.is_empty) e) ∙ has.is_full;
        is_key = sym (ap (λ b. b.key) e) ∙ has.is_key;
      })
    ]

    pub store-Inserted : Inserted kt t new key val
    unfolding add32
    store-Inserted = record {
      sound = stored-IsSound kt t key val j sound target spare;
      one_more =
          omega (arith, store-used t j (kt.hash key) key val, to_nat-le (not (t.bins j).in_probe));
      entry = stored_entry;
      kept = stored_kept;
      back = stored_back;
    }
