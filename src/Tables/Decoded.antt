-- ===== src/Tables/Decoded.antt =====
-- The hash table of decoded instructions does what the cache of the runtime does, which is a
-- function from the address to the raw word.
use virtual_machine.Prelude.{
  ℕ, true, false, ◌-◌, ◌^◌, ◌<◌, ◌≡◌, ◌==◌, refl, ap, ◌∙◌, arith, update, leb, ◌⊎◌, Option, none,
  some, if◌then◌else◌, Bool-cases, Option-cases, inl, inr,
}
use virtual_machine.Machine.{VmState, mem_bytes, mr32}
use virtual_machine.Runtime.{decode_instruction}
use virtual_machine.HashTable.{hash_table_lookup}
use virtual_machine.HashTable.History.{put, Represents, changed_lem}
use virtual_machine.Tables.{
  Tables, DecodedInstr, uint32_key_type, decode, decode_instruction_cached,
}
use virtual_machine.Tables.Keys.{uint32_key_type-KeyLaws}

abbrev pub entry : Option ℕ → Option DecodedInstr
entry none = none
entry (some raw) = some (decode raw)

-- The table holds the decoded words of the runtime's cache.
abbrev pub Matches : VmState → Tables → Type 0
Matches vm ts = Represents uint32_key_type ts.decoded_cache (λ a. entry (vm.decoded_cache a))

-- The two results: no instruction, or the same one with caches that match again.
abbrev pub IsDecoded : VmState → Tables → ℕ → Type 0
IsDecoded vm ts addr =
    (decode_instruction vm addr ≡ none) × (decode_instruction_cached vm ts addr ≡ some (none, ts))
    ⊎ ((raw : ℕ) × (vm' : VmState) × (ts' : Tables) × (decode_instruction vm addr ≡ some (raw, vm'))
        × (decode_instruction_cached vm ts addr ≡ some (some (decode raw), ts'))
        × Matches vm' ts')

entry-update :
    (cache : ℕ → Option ℕ) (addr raw k : ℕ)
    → (if addr == k then some (decode raw) else entry (cache k))
      ≡ entry (update cache addr (some raw) k)
entry-update cache addr raw k = elim (Bool-cases (addr == k)) [
  | inl e ↦ let f : (k == addr) ≡ true = ground arith in rw (e, f) refl
  | inr e ↦ let f : (k == addr) ≡ false = ground arith in rw (e, f) refl
]

module _ (vm : VmState) (ts : Tables) (addr : ℕ) (rep : Matches vm ts) where
  hit : (raw : ℕ) → vm.decoded_cache addr ≡ some raw → IsDecoded vm ts addr
  unfolding decode_instruction decode_instruction_cached
  hit raw e = inr (
    raw,
    vm,
    ts,
    rw (e, decode_instruction) refl,
    rw (rep.same addr ∙ ap (λ o. some (entry o)) e, decode_instruction_cached) refl,
    rep,
  )

  at_addr :
      {o : Option ℕ}
      → vm.decoded_cache addr ≡ o
      → hash_table_lookup uint32_key_type ts.decoded_cache addr ≡ some (entry o)
  at_addr e = rep.same addr ∙ ap (λ o. some (entry o)) e

  too_high : vm.decoded_cache addr ≡ none → leb (mem_bytes - 3) addr ≡ true → IsDecoded vm ts addr
  unfolding decode_instruction decode_instruction_cached
  too_high e high =
      inl (
        rw (e, decode_instruction, high) refl,
        rw (at_addr e, decode_instruction_cached, high) refl,
      )

  missed :
      ts.decoded_cache.used < 2 ^ 30
      → vm.decoded_cache addr ≡ none
      → leb (mem_bytes - 3) addr ≡ false
      → IsDecoded vm ts addr
  unfolding decode_instruction decode_instruction_cached uint32_key_type
  missed limit e low =
      let raw = mr32 vm addr in
      let (t, one, rep', le) =
        changed_lem uint32_key_type uint32_key_type-KeyLaws ts.decoded_cache
          (λ a. entry (vm.decoded_cache a)) (put addr (decode raw)) rep limit in
      inr (
        raw,
        record vm { decoded_cache = update vm.decoded_cache addr (some raw) },
        record ts { decoded_cache = t },
        rw (e, decode_instruction, low) refl,
        rw (at_addr e, decode_instruction_cached, low, one) refl,
        record {
          table = rep'.table;
          same = λ k. rep'.same k ∙ ap some (entry-update vm.decoded_cache addr raw k);
        },
      )

  -- When the hash table of decoded instructions stands for the runtime's cache and has fewer than 2
  -- ^ 30 bins in the probing, decoding an address with it finds an entry exactly if the runtime
  -- finds one, the entry has the fields of the runtime's word, and the table stands for the
  -- runtime's cache again.
  pub decode_instruction-cached : ts.decoded_cache.used < 2 ^ 30 → IsDecoded vm ts addr
  decode_instruction-cached limit = elim (Option-cases (vm.decoded_cache addr)) [
    | inr (raw, e) ↦ hit raw e
    | inl e ↦ elim (Bool-cases (leb (mem_bytes - 3) addr)) [
      | inl high ↦ too_high e high
      | inr low ↦ missed limit e low
    ]
  ]
