-- ===== src/HashTable/Store.antt =====
-- `store_in_bin` at the bin that `hash_table_insert_internal` chooses keeps the table sound.
use virtual_machine.Prelude.{
  ℕ, Bool, true, false, not, ◌+◌, ◌^◌, ◌<◌, ◌≡◌, ◌≢◌, ◌⊎◌, arith, Option, Bool-cases, sym, ◌∙◌, ap,
  to_nat, inl, inr, ◌==◌,
}
use virtual_machine.Word.{add32}
use virtual_machine.HashTable.{KeyType, HashTable, probe, store_in_bin}
use virtual_machine.HashTable.Count.{count, count-changed, to_nat-le}
use virtual_machine.HashTable.Sound.{
  Reaches, IsSound, store-size, store-used, store_here, store_other, size-small, new_bin,
}

added :
    (used used' old new one : ℕ) (b : Bool)
    → used + 1 < 2 ^ 31
    → used' ≡ add32 used (to_nat (not b))
    → used ≡ old
    → new + to_nat b ≡ old + one
    → one ≡ 1
    → used' ≡ new
unfolding add32
added used used' old new one true small e p q r = omega arith
added used used' old new one false small e p q r = omega arith

module _ {K V : Type 0} (kt : KeyType K) (t : HashTable K V) (key : K) where
  -- The bin for the key: no other occupied bin has it, and its probing comes there.
  pub record IsTarget (j : ℕ) : Type 0 where
    pub inside : j < t.size
    pub way : Reaches t (kt.hash key) j
    pub own : (t.bins j).is_empty ≡ false → (t.bins j).key ≡ key
    pub alone : (i : ℕ) → i < t.size → i ≢ j → (t.bins i).is_empty ≡ false → (t.bins i).key ≢ key

  module _ (val : Option V) (j : ℕ) (sound : IsSound kt t) (target : IsTarget j)
      (spare : t.used + 1 < t.size) where
    abbrev pub stored : HashTable K V
    stored = store_in_bin t j (kt.hash key) key val

    -- A bin of the new table is the new one or an old one.
    pub bin_cases :
        (i : ℕ)
        → ((i ≡ j) × (stored.bins i ≡ new_bin (kt.hash key) key val))
          ⊎ ((i ≢ j) × (stored.bins i ≡ t.bins i))
    bin_cases i = elim (Bool-cases (i == j)) [
      | inl e ↦
          let same : i ≡ j = ground arith in
          inl (same, rw same (store_here t j (kt.hash key) key val))
      | inr e ↦
          let ne : i ≢ j = ground arith in inr (ne, store_other t j (kt.hash key) key val i ne)
    ]

    grows : (i : ℕ) → (t.bins i).in_probe ≡ true → (stored.bins i).in_probe ≡ true
    grows i h = elim (bin_cases i) [
      | inl (same, e) ↦ ap (λ b. b.in_probe) e
      | inr (ne, e) ↦ ap (λ b. b.in_probe) e ∙ h
    ]

    counted : stored.used ≡ count (λ i. (stored.bins i).in_probe) stored.size 0
    counted = rw (store-size t j (kt.hash key) key val) (
        let change =
          count-changed (λ i. (t.bins i).in_probe) (λ i. (stored.bins i).in_probe) t.size 0 j
            (omega arith) (omega (arith, target.inside))
            (λ i ne. ap (λ b. b.in_probe) (store_other t j (kt.hash key) key val i ne)) in
        let new = ap (λ b. to_nat b.in_probe) (store_here t j (kt.hash key) key val) in
        added t.used stored.used (count (λ i. (t.bins i).in_probe) t.size 0)
          (count (λ i. (stored.bins i).in_probe) t.size 0) (to_nat (stored.bins j).in_probe)
          (t.bins j).in_probe (omega (arith, size-small sound))
          (store-used t j (kt.hash key) key val) sound.counted change new)

    room : stored.used < stored.size
    unfolding add32
    room = omega (
      arith,
      store-size t j (kt.hash key) key val,
      store-used t j (kt.hash key) key val,
      to_nat-le (not (t.bins j).in_probe),
    )

    keeps_way : (h i : ℕ) → Reaches t h i → Reaches stored h i
    keeps_way h i way =
        let same = store-size t j (kt.hash key) key val in
        record {
          steps = way.steps;
          below = rw same way.below;
          here = rw same way.here;
          before = λ e lt. grows (probe h e stored.size) (rw same (way.before e lt));
        }

    fresh :
        (i : ℕ)
        → i < stored.size
        → (stored.bins i).in_probe ≡ false
        → (stored.bins i).is_empty ≡ true
    fresh i lt h = elim (bin_cases i) [
      | inl (same, e) ↦
          absurd (let p : (stored.bins i).in_probe ≡ true = ap (λ b. b.in_probe) e in cc)
      | inr (ne, e) ↦
          ap (λ b. b.is_empty) e
          ∙ sound.fresh i (omega (arith, store-size t j (kt.hash key) key val))
              (sym (ap (λ b. b.in_probe) e) ∙ h)
    ]

    hashed :
        (i : ℕ)
        → i < stored.size
        → (stored.bins i).is_empty ≡ false
        → (stored.bins i).hash_key ≡ kt.hash (stored.bins i).key
    hashed i lt h = elim (bin_cases i) [
      | inl (same, e) ↦ ap (λ b. b.hash_key) e ∙ sym (ap (λ b. kt.hash b.key) e)
      | inr (ne, e) ↦
          ap (λ b. b.hash_key) e
          ∙ sound.hashed i (omega (arith, store-size t j (kt.hash key) key val))
              (sym (ap (λ b. b.is_empty) e) ∙ h)
          ∙ sym (ap (λ b. kt.hash b.key) e)
    ]

    reached :
        (i : ℕ)
        → i < stored.size
        → (stored.bins i).is_empty ≡ false
        → Reaches stored (kt.hash (stored.bins i).key) i
    reached i lt h = elim (bin_cases i) [
      | inl (same, e) ↦ rw (ap (λ b. b.key) e, same) (keeps_way (kt.hash key) j target.way)
      | inr (ne, e) ↦ rw (ap (λ b. b.key) e) (
          keeps_way (kt.hash (t.bins i).key) i (
            sound.reached i (omega (arith, store-size t j (kt.hash key) key val))
              (sym (ap (λ b. b.is_empty) e) ∙ h)))
    ]

    unique :
        (i l : ℕ)
        → i < stored.size
        → l < stored.size
        → (stored.bins i).is_empty ≡ false
        → (stored.bins l).is_empty ≡ false
        → (stored.bins i).key ≡ (stored.bins l).key
        → i ≡ l
    unique i l lti ltl hi hl same_key =
        let size = store-size t j (kt.hash key) key val in
        elim (bin_cases i) [
          | inl (at_i, ei) ↦ elim (bin_cases l) [
            | inl (at_l, el) ↦ at_i ∙ sym at_l
            | inr (ne_l, el) ↦ absurd (
                target.alone l (omega (arith, size)) ne_l (sym (ap (λ b. b.is_empty) el) ∙ hl)
                  (sym (ap (λ b. b.key) el) ∙ sym same_key ∙ ap (λ b. b.key) ei))
          ]
          | inr (ne_i, ei) ↦ elim (bin_cases l) [
            | inl (at_l, el) ↦ absurd (
                target.alone i (omega (arith, size)) ne_i (sym (ap (λ b. b.is_empty) ei) ∙ hi)
                  (sym (ap (λ b. b.key) ei) ∙ same_key ∙ ap (λ b. b.key) el))
            | inr (ne_l, el) ↦
                sound.unique i l (omega (arith, size)) (omega (arith, size))
                  (sym (ap (λ b. b.is_empty) ei) ∙ hi) (sym (ap (λ b. b.is_empty) el) ∙ hl)
                  (sym (ap (λ b. b.key) ei) ∙ same_key ∙ ap (λ b. b.key) el)
          ]
        ]

    pub stored-IsSound : IsSound kt stored
    stored-IsSound = record {
      exponent = sound.exponent;
      big = sound.big;
      small = sound.small;
      power = store-size t j (kt.hash key) key val ∙ sound.power;
      counted = counted;
      room = room;
      fresh = fresh;
      hashed = hashed;
      reached = reached;
      unique = unique;
    }
