-- ===== src/HashTable.antt =====
-- The hash table of prototype-integrator/src/hashing.c: open addressing with linear probing, bins
-- that stay in the probing after a deletion, and resizing. The array of bins is a function from the
-- index. Keys and values are what the pointers point to, and their copies: `no_key` stands for the
-- null pointer of a fresh bin, `none` for a null pointer to a value. Allocations succeed.
pub mod Probe
pub mod Count
pub mod Search
pub mod Sound
pub mod Store
pub mod Find
pub mod Contents
pub mod Changes
pub mod Rehash
pub mod Resize
pub mod Insert
pub mod Free
pub mod Delete
pub mod Map
pub mod History
pub mod Active
use virtual_machine.Prelude.{
  ℕ, zero, suc, Bool, true, false, not, ◌+◌, ◌-◌, ◌*◌, ◌/◌, ◌%◌, ◌&&◌, ◌||◌, ◌==◌, ltb,
  if◌then◌else◌, to_nat, bit_and, Option, none, some, update,
}
use virtual_machine.Word.{u32_mod, u32_max, add32}

-- MIN_TABLE_SIZE
abbrev pub min_table_size : ℕ
min_table_size = 8

-- `key_type_t` without the copy and the release of a key.
pub record KeyType (K : Type 0) : Type 0 where
  pub hash : K → ℕ
  pub cmp : K → K → Bool
  pub no_key : K

-- `hash_bin_t`
pub record Bin (K V : Type 0) : Type 0 where
  pub in_probe : Bool
  pub is_empty : Bool
  pub hash_key : ℕ
  pub key : K
  pub val : Option V

-- `hash_table_t`
pub record HashTable (K V : Type 0) : Type 0 where
  pub bins : ℕ → Bin K V
  pub size : ℕ
  pub used : ℕ
  pub active : ℕ

unfoldable pub probe : ℕ → ℕ → ℕ → ℕ
unfolding add32
probe hash_key i m = bit_and (add32 hash_key i) (m - 1)

module _ {K V : Type 0} where
  unfoldable pub is_active_bin : Bin K V → Bool
  is_active_bin bin = bin.in_probe && not bin.is_empty

  -- The loop of `find_key` and of `find_empty`: the index of the first bin of the probing sequence
  -- that stops it. `left` rounds remain; `none` stands for the failed assertion behind the loop.
  unfoldable pub first_bin : (Bin K V → Bool) → (ℕ → Bin K V) → ℕ → ℕ → ℕ → ℕ → Option ℕ
  unfolding probe
  first_bin stop bins hash_key size zero i = none
  first_bin stop bins hash_key size (suc left) i = elim (stop (bins (probe hash_key i size))) [
    | true ↦ some (probe hash_key i size)
    | false ↦ first_bin stop bins hash_key size left (i + 1)
  ]

  unfoldable pub find_empty : HashTable K V → ℕ → Option ℕ
  unfolding first_bin
  find_empty t hash_key = first_bin (λ bin. bin.is_empty) t.bins hash_key t.size t.size 0

  -- The bin stays in the probing; `active` is a `uint32_t`.
  unfoldable pub free_bin : HashTable K V → ℕ → HashTable K V
  unfolding is_active_bin
  free_bin t j =
      if is_active_bin (t.bins j)
      then record t {
        bins = update t.bins j (record (t.bins j) { is_empty = true });
        active = (t.active + u32_max) % u32_mod;
      }
      else t

  unfoldable pub store_in_bin : HashTable K V → ℕ → ℕ → K → Option V → HashTable K V
  unfolding free_bin add32
  store_in_bin t j hash_key key val =
      let counted = record t {
        active = add32 t.active (to_nat (t.bins j).is_empty);
        used = add32 t.used (to_nat (not (t.bins j).in_probe));
      } in
      let freed = free_bin counted j in
      record freed {
        bins = update freed.bins j (record {
          in_probe = true;
          is_empty = false;
          hash_key = hash_key;
          key = key;
          val = val;
        });
      }

module _ {K V : Type 0} (kt : KeyType K) where
  unfoldable pub key_in_bin : Bin K V → ℕ → K → Bool
  unfolding is_active_bin
  key_in_bin bin hash_key key =
      is_active_bin bin && (bin.hash_key == hash_key && kt.cmp bin.key key)

  unfoldable pub find_key : HashTable K V → ℕ → K → Option ℕ
  unfolding first_bin key_in_bin
  find_key t hash_key key =
      first_bin (λ bin. not bin.in_probe || key_in_bin bin hash_key key) t.bins hash_key t.size
        t.size 0

  -- The steps 1 and 2 of `init_table`.
  unfoldable pub empty_table : ℕ → HashTable K V
  empty_table size = record {
    bins = λ j. record {
      in_probe = false;
      is_empty = true;
      hash_key = 0;
      key = kt.no_key;
      val = none;
    };
    size = size;
    used = 0;
    active = 0;
  }

  -- The step 3: the loop over the old bins from `i` on, with the insertion it calls.
  unfoldable pub rehash :
      (HashTable K V → ℕ → K → Option V → Option (HashTable K V))
      → (ℕ → Bin K V)
      → ℕ
      → ℕ
      → HashTable K V
      → Option (HashTable K V)
  rehash insert old zero i t = some t
  rehash insert old (suc left) i t = elim (old i).is_empty [
    | true ↦ rehash insert old left (i + 1) t
    | false ↦ elim (insert t (old i).hash_key (old i).key (old i).val) [
      | none ↦ none
      | some t' ↦ rehash insert old left (i + 1) t'
    ]
  ]

  unfoldable pub resize :
      (HashTable K V → ℕ → K → Option V → Option (HashTable K V))
      → HashTable K V
      → ℕ
      → Option (HashTable K V)
  unfolding rehash empty_table
  resize insert t new_size = rehash insert t.bins t.size 0 (empty_table new_size)

  -- `if ((double)used / size > LOAD_FACTOR_MAX) resize(table, size * 2)`
  unfoldable pub grow :
      (HashTable K V → ℕ → K → Option V → Option (HashTable K V))
      → HashTable K V
      → Option (HashTable K V)
  unfolding resize
  grow insert t = elim (ltb t.size (t.used * 2)) [
    | true ↦ resize insert t (t.size * 2 % u32_mod)
    | false ↦ some t
  ]

  -- The bin of the key, or else the first empty one.
  unfoldable pub target_bin : HashTable K V → ℕ → K → Option ℕ
  unfolding find_key find_empty
  target_bin t hash_key key = elim (find_key t hash_key key) [
    | none ↦ none
    | some j ↦ if (t.bins j).in_probe then some j else find_empty t hash_key
  ]

  -- `hash_table_insert_internal` calls itself through `resize`; the fuel bounds the depth.
  unfoldable pub insert_internal : ℕ → HashTable K V → ℕ → K → Option V → Option (HashTable K V)
  unfolding target_bin store_in_bin grow
  insert_internal zero t hash_key key val = none
  insert_internal (suc depth) t hash_key key val = elim (target_bin t hash_key key) [
    | none ↦ none
    | some j ↦ grow (insert_internal depth) (store_in_bin t j hash_key key val)
  ]

  unfoldable pub hash_table_create : HashTable K V
  unfolding empty_table
  hash_table_create = empty_table min_table_size

  unfoldable pub hash_table_insert : HashTable K V → K → V → Option (HashTable K V)
  unfolding insert_internal
  hash_table_insert t key value = insert_internal 2 t (kt.hash key) key (some value)

  -- The outer `none` is the failed assertion, the inner one the null pointer.
  unfoldable pub hash_table_lookup : HashTable K V → K → Option (Option V)
  unfolding find_key
  hash_table_lookup t key = elim (find_key t (kt.hash key) key) [
    | none ↦ none
    | some j ↦ if (t.bins j).in_probe then some (t.bins j).val else some none
  ]

  -- `if (size > MIN_TABLE_SIZE && (double)active / size < LOAD_FACTOR_MIN) resize(table, size / 2)`
  unfoldable pub shrink : HashTable K V → Option (HashTable K V)
  unfolding resize insert_internal
  shrink t = elim (ltb min_table_size t.size && ltb (t.active * 8) t.size) [
    | true ↦ resize (insert_internal 2) t (t.size / 2)
    | false ↦ some t
  ]

  unfoldable pub hash_table_delete : HashTable K V → K → Option (HashTable K V)
  unfolding find_key free_bin shrink
  hash_table_delete t key = elim (find_key t (kt.hash key) key) [
    | none ↦ none
    | some j ↦ shrink (free_bin t j)
  ]

  -- `!= NULL`
  unfoldable pub hash_table_contains : HashTable K V → K → Option Bool
  unfolding hash_table_lookup
  hash_table_contains t key = elim (hash_table_lookup t key) [
    | none ↦ none
    | some none ↦ some false
    | some (some val) ↦ some true
  ]
