-- ===== src/HashTable/Free.antt =====
-- `free_bin` at the bin of a key: the table without the key.
use virtual_machine.Prelude.{
  ℕ, true, false, ◌+◌, ◌%◌, ◌≤◌, ◌<◌, ◌≡◌, ◌≢◌, ◌⊎◌, arith, Option, Bool-cases, sym, ◌∙◌, ap, refl,
  inl, inr, update, update_self, update_ne, ◌==◌,
}
use virtual_machine.Word.{u32_mod, u32_max}
use virtual_machine.HashTable.{KeyType, Bin, HashTable, probe, free_bin, is_active_bin}
use virtual_machine.HashTable.Count.{count_same}
use virtual_machine.HashTable.Sound.{KeyLaws, IsSound, Reaches}
use virtual_machine.HashTable.Find.{Holds}
use virtual_machine.HashTable.Contents.{HasEntry, HasKey}

module _ {K V : Type 0} where
  -- `t'` is `t` without the key.
  pub record Removed (kt : KeyType K) (t t' : HashTable K V) (key : K) : Type 0 where
    pub sound : IsSound kt t'
    pub no_more : t'.used ≤ t.used
    pub gone : ¬ HasKey t' key
    pub kept : (k : K) (v : Option V) → k ≢ key → HasEntry t k v → HasEntry t' k v
    pub back : (k : K) → HasKey t' k → HasKey t k

module _ {K V : Type 0} (kt : KeyType K) (laws : KeyLaws kt) (t : HashTable K V) (key : K) (j : ℕ)
    (sound : IsSound kt t) (inside : j < t.size) (holds : Holds kt laws key (t.bins j)) where
  abbrev freed : HashTable K V
  freed = record t {
    bins = update t.bins j (record (t.bins j) { is_empty = true });
    active = (t.active + u32_max) % u32_mod;
  }

  free_bin-freed : free_bin t j ≡ freed
  unfolding free_bin is_active_bin
  free_bin-freed = rw (holds.in_probe, free_bin, holds.is_full) refl

  freed_cases :
      (i : ℕ)
      → ((i ≡ j)
          × ((freed.bins i).is_empty ≡ true)
          × ((freed.bins i).in_probe ≡ (t.bins i).in_probe))
        ⊎ ((i ≢ j) × (freed.bins i ≡ t.bins i))
  freed_cases i = elim (Bool-cases (i == j)) [
    | inl e ↦
        let same : i ≡ j = ground arith in
        let cleared : Bin K V = record (t.bins j) { is_empty = true } in
        let here : freed.bins i ≡ cleared = rw same (update_self t.bins j cleared) in
        inl (
          same,
          ap (λ b. b.is_empty) here,
          ap (λ b. b.in_probe) here ∙ sym (ap (λ l. (t.bins l).in_probe) same),
        )
    | inr e ↦
        let ne : i ≢ j = ground arith in
        inr (ne, update_ne t.bins j i (record (t.bins j) { is_empty = true }) ne)
  ]

  freed_full : (i : ℕ) → (freed.bins i).is_empty ≡ false → (i ≢ j) × (freed.bins i ≡ t.bins i)
  freed_full i full = elim (freed_cases i) [ inl (same, e, p) ↦ absurd (cc) | inr other ↦ other ]

  probed : (i : ℕ) → (freed.bins i).in_probe ≡ (t.bins i).in_probe
  probed i = elim (freed_cases i) [ inl (same, e, p) ↦ p | inr (ne, e) ↦ ap (λ b. b.in_probe) e ]

  old_full : (i : ℕ) → (freed.bins i).is_empty ≡ false → (t.bins i).is_empty ≡ false
  old_full i full = sym (ap (λ b. b.is_empty) (freed_full i full).1) ∙ full

  freed_way : (h i : ℕ) → Reaches t h i → Reaches freed h i
  freed_way h i way = record {
    steps = way.steps;
    below = way.below;
    here = way.here;
    before = λ e lt. probed (probe h e t.size) ∙ way.before e lt;
  }

  freed-IsSound : IsSound kt freed
  freed-IsSound = record {
    exponent = sound.exponent;
    big = sound.big;
    small = sound.small;
    power = sound.power;
    counted =
        sound.counted
        ∙ count_same (λ i. (t.bins i).in_probe) (λ i. (freed.bins i).in_probe) t.size 0
            (λ i p q. sym (probed i));
    room = sound.room;
    fresh = λ i lt h. elim (freed_cases i) [
      | inl (same, e, p') ↦ e
      | inr (ne, e) ↦ ap (λ b. b.is_empty) e ∙ sound.fresh i lt (sym (probed i) ∙ h)
    ];
    hashed = λ i lt full. rw ((freed_full i full).1) (sound.hashed i lt (old_full i full));
    reached = λ i lt full.
        rw (ap (λ b. b.key) (freed_full i full).1)
          (freed_way (kt.hash (t.bins i).key) i (sound.reached i lt (old_full i full)));
    unique = λ i l lti ltl fulli fulll same.
        sound.unique i l lti ltl (old_full i fulli) (old_full l fulll) (
          sym (ap (λ b. b.key) (freed_full i fulli).1)
          ∙ same
          ∙ ap (λ b. b.key) (freed_full l fulll).1);
  }

  freed-Removed : Removed kt t freed key
  freed-Removed = record {
    sound = freed-IsSound;
    no_more = omega arith;
    gone = λ has.
        let (ne, e) = freed_full has.bin has.is_full in
        ne (
          sound.unique has.bin j has.below inside (old_full has.bin has.is_full) holds.is_full
            (sym (ap (λ b. b.key) e) ∙ has.is_key ∙ sym holds.is_key));
    kept = λ k v ne entry.
        let elsewhere : entry.bin ≢ j =
          λ e. ne (sym entry.is_key ∙ ap (λ b. (t.bins b).key) e ∙ holds.is_key) in
        let other =
          update_ne t.bins j entry.bin (record (t.bins j) { is_empty = true }) elsewhere in
        record {
          bin = entry.bin;
          below = entry.below;
          is_full = ap (λ b. b.is_empty) other ∙ entry.is_full;
          is_key = ap (λ b. b.key) other ∙ entry.is_key;
          is_val = ap (λ b. b.val) other ∙ entry.is_val;
        };
    back = λ k has. record {
      bin = has.bin;
      below = has.below;
      is_full = old_full has.bin has.is_full;
      is_key = sym (ap (λ b. b.key) (freed_full has.bin has.is_full).1) ∙ has.is_key;
    };
  }

  pub free_bin-Removed : Removed kt t (free_bin t j) key
  free_bin-Removed = rw free_bin-freed freed-Removed
