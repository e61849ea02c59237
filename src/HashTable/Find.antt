-- ===== src/HashTable/Find.antt =====
-- What `find_key`, `find_empty` and `hash_table_lookup` return for a sound table.
use virtual_machine.Prelude.{
  ℕ, Bool, true, false, not, ◌<◌, ◌≡◌, ◌≢◌, ◌⊎◌, arith, some, Bool-cases, sym, ◌∙◌, ap, refl, inl,
  inr, ◌==◌, ◌&&◌, ◌||◌, ==_refl,
}
use virtual_machine.HashTable.{KeyType, Bin, HashTable, probe, is_active_bin, key_in_bin, find_key}
use virtual_machine.HashTable.Count.{count-false}
use virtual_machine.HashTable.Search.{IsFirst, first_bin_lem}
use virtual_machine.HashTable.Probe.{probe-lt, probe_covers}
use virtual_machine.HashTable.Sound.{KeyLaws, Reaches, IsSound, occupied-in_probe}

pub and-true : (a b : Bool) → (a && b) ≡ true → (a ≡ true) × (b ≡ true)
and-true true true h = (refl, refl)
and-true true false h = absurd (cc)
and-true false b h = absurd (cc)

pub not-true : (a : Bool) → not a ≡ true → a ≡ false
not-true true h = absurd (cc)
not-true false h = refl

compare_cases : (a b : ℕ) → (a < b) ⊎ ((a ≡ b) ⊎ (b < a))
compare_cases a b = ground arith

module _ {K V : Type 0} (kt : KeyType K) (laws : KeyLaws kt) where
  -- The bin is the key's.
  pub record Holds (key : K) (bin : Bin K V) : Type 0 where
    pub in_probe : bin.in_probe ≡ true
    pub is_full : bin.is_empty ≡ false
    pub is_key : bin.key ≡ key

  key_in_bin→Holds :
      (bin : Bin K V) (h : ℕ) (key : K) → key_in_bin kt bin h key ≡ true → Holds key bin
  unfolding key_in_bin is_active_bin
  key_in_bin→Holds bin h key e =
      let (active, rest) =
        and-true (bin.in_probe && not bin.is_empty) ((bin.hash_key == h) && kt.cmp bin.key key) e in
      let (probed, full) = and-true bin.in_probe (not bin.is_empty) active in
      let (same_hash, same) = and-true (bin.hash_key == h) (kt.cmp bin.key key) rest in
      record {
        in_probe = probed;
        is_full = not-true bin.is_empty full;
        is_key = laws.cmp-eq bin.key key same;
      }

  Holds→key_in_bin :
      (bin : Bin K V) (h : ℕ) (key : K)
      → bin.hash_key ≡ h
      → Holds key bin
      → key_in_bin kt bin h key ≡ true
  unfolding key_in_bin is_active_bin
  Holds→key_in_bin bin h key e holds =
      rw (holds.in_probe, holds.is_full, e, ==_refl h, holds.is_key, laws.cmp_self key) refl

  module _ (t : HashTable K V) (sound : IsSound kt t) where
    -- No bin has the key.
    abbrev pub LacksKey : K → Type 0
    LacksKey key = (i : ℕ) → i < t.size → (t.bins i).is_empty ≡ false → (t.bins i).key ≢ key

    pub inside : (h i : ℕ) → probe h i t.size < t.size
    inside h i = rw sound.power (probe-lt sound.exponent (omega (arith, sound.small)) h i)

    -- The probing comes to a bin that was never in use.
    pub open_bin : (h : ℕ) → (d : ℕ) × (d < t.size) × ((t.bins (probe h d t.size)).in_probe ≡ false)
    open_bin h =
        let (j, from, below, unused) =
          count-false (λ i. (t.bins i).in_probe) t.size 0
            (omega (arith, sound.counted, sound.room)) in
        let (d, lt, e) =
          probe_covers sound.exponent (omega (arith, sound.small)) h j
            (omega (arith, sound.power)) in
        (d, omega (arith, sound.power), ap (λ i. (t.bins i).in_probe) (rw sound.power e) ∙ unused)

    abbrev stop_key : K → Bin K V → Bool
    stop_key key bin = not bin.in_probe || key_in_bin kt bin (kt.hash key) key

    goes_on : (key : K) (bin : Bin K V) → stop_key key bin ≡ false → bin.in_probe ≡ true
    goes_on key bin h = elim (Bool-cases bin.in_probe) [
      | inl e ↦ e
      | inr e ↦ absurd (let stops : stop_key key bin ≡ true = rw e refl in cc)
    ]

    stops_at :
        (key : K) (bin : Bin K V)
        → bin.hash_key ≡ kt.hash key
        → Holds key bin
        → stop_key key bin ≡ true
    stops_at key bin e holds =
        rw (Holds→key_in_bin bin (kt.hash key) key e holds, holds.in_probe) refl

    Holds_at :
        (key : K) (i : ℕ)
        → i < t.size
        → (t.bins i).is_empty ≡ false
        → (t.bins i).key ≡ key
        → stop_key key (t.bins i) ≡ true
    Holds_at key i lt full same =
        stops_at key (t.bins i) (sound.hashed i lt full ∙ ap kt.hash same) (record {
          in_probe = occupied-in_probe {kt = kt} {t = t} i sound lt full;
          is_full = full;
          is_key = same;
        })

    way_of :
        (key : K) (i : ℕ)
        → i < t.size
        → (t.bins i).is_empty ≡ false
        → (t.bins i).key ≡ key
        → Reaches t (kt.hash key) i
    way_of key i lt full same = rw (sym same) (sound.reached i lt full)

    -- A search that ends at a fresh bin would have met the key.
    no_key_behind :
        (key : K) (j : ℕ)
        → IsFirst (stop_key key) t.bins (kt.hash key) t.size 0 t.size j
        → (t.bins j).in_probe ≡ false
        → LacksKey key
    no_key_behind key j first unused i lt full same =
        let way = way_of key i lt full same in
        let found = Holds_at key i lt full same in
        elim (compare_cases way.steps first.steps) [
          | inl earlier ↦
              let h = first.before way.steps (omega arith) earlier in
              let at : stop_key key (t.bins (probe (kt.hash key) way.steps t.size)) ≡ true =
                rw way.here found in
              cc
          | inr (inl equal) ↦
              let there : i ≡ j =
                sym way.here ∙ ap (λ d. probe (kt.hash key) d t.size) equal ∙ first.here in
              let p = occupied-in_probe {kt = kt} {t = t} i sound lt full in
              let q = ap (λ d. (t.bins d).in_probe) there in cc
          | inr (inr later) ↦
              let p = way.before first.steps later in
              let q = ap (λ d. (t.bins d).in_probe) first.here in cc
        ]

    pub find_key_lem :
        (key : K)
        → (j : ℕ) × (find_key kt t (kt.hash key) key ≡ some j)
          × (j < t.size)
          × Reaches t (kt.hash key) j
          × (Holds key (t.bins j) ⊎ (((t.bins j).in_probe ≡ false) × LacksKey key))
    unfolding find_key
    find_key_lem key =
        let (d, lt, unused) = open_bin (kt.hash key) in
        let (j, found, first) =
          first_bin_lem (stop_key key) t.bins (kt.hash key) t.size t.size 0 d (omega arith)
            (omega arith) (rw unused refl) in
        (
          j,
          found,
          rw (sym first.here) (inside (kt.hash key) first.steps),
          record {
            steps = first.steps;
            below = omega (arith, first.below);
            here = first.here;
            before = λ i below.
                goes_on key (t.bins (probe (kt.hash key) i t.size))
                  (first.before i (omega arith) below);
          },
          elim (Bool-cases (t.bins j).in_probe) [
            | inr e ↦ inr (e, no_key_behind key j first e)
            | inl e ↦ inl (
                key_in_bin→Holds (t.bins j) (kt.hash key) key (
                  rw (sym (ap (λ b. not b || key_in_bin kt (t.bins j) (kt.hash key) key) e))
                    first.stops))
          ],
        )
