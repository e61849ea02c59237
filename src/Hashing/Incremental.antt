-- ===== src/Hashing/Incremental.antt =====
-- The CRC-32 hashes of a machine at the end of prototype-integrator/src/hashing.c, and the hashes of
-- single registers.
use virtual_machine.Prelude.{
  ℕ, zero, suc, ◌+◌, ◌-◌, ◌≤◌, ◌<◌, ◌≡◌, ◌≢◌, ◌==◌, ==_iff, ltb, leb, if◌then◌else◌, refl, ap, sym,
  ◌∙◌, arith, update, Bool-cases, inl, inr, update_self, update_ne, ◌⊎◌, ◌%◌,
}
use virtual_machine.Word.{u64_mod}
use virtual_machine.Machine.{VmState, mem_bytes, reg_count, crc32}
use virtual_machine.Hashing.{
  crc32_of, memory_bytes, register_bytes, calculate_registers_hash_ex, vm_calculate_memory_hash_ex,
  hash_buffer,
}

unfoldable pub vm_calculate_registers_hash : VmState → ℕ
unfolding crc32_of register_bytes
vm_calculate_registers_hash vm = crc32_of (register_bytes vm.reg 0 reg_count)

-- The sum of the second guard is a `size_t` sum.
unfoldable pub vm_calculate_memory_hash : VmState → ℕ → ℕ → ℕ
unfolding crc32_of memory_bytes
vm_calculate_memory_hash vm start length =
    let clipped =
      if ltb mem_bytes ((start + length) % u64_mod) then mem_bytes - start else length in
    if leb mem_bytes start then 0 else crc32_of (memory_bytes vm.mem start clipped)

-- The member `incremental` of `vm_state_t`.
pub record Incremental : Type 0 where
  pub reg_hashes : ℕ → ℕ
  pub incremental_hash : ℕ

-- The hash of the 4 bytes of one register.
unfoldable pub register_hash : (ℕ → ℕ) → ℕ → ℕ
unfolding crc32_of register_bytes
register_hash reg r = crc32_of (register_bytes reg r 1)

unfoldable pub vm_update_register_hash : VmState → Incremental → ℕ → Incremental
unfolding register_hash
vm_update_register_hash vm inc r = record inc {
  reg_hashes = update inc.reg_hashes r (register_hash vm.reg r);
}

-- The loop over the registers from `r` on.
unfoldable pub update_hashes : (ℕ → ℕ) → (ℕ → ℕ) → ℕ → ℕ → ℕ → ℕ
unfolding register_hash
update_hashes reg hashes zero r = hashes
update_hashes reg hashes (suc left) r =
    update_hashes reg (update hashes r (register_hash reg r)) left (r + 1)

unfoldable pub vm_update_all_register_hashes : VmState → Incremental → Incremental
unfolding update_hashes vm_calculate_registers_hash
vm_update_all_register_hashes vm inc = record {
  reg_hashes = update_hashes vm.reg inc.reg_hashes reg_count 0;
  incremental_hash = vm_calculate_registers_hash vm;
}

in_range : (k r left : ℕ) → r ≤ k → k < r + suc left → (k ≡ r) ⊎ (r + 1 ≤ k)
in_range k r left p q = ground arith

update_hashes_out :
    (reg hashes : ℕ → ℕ) (left r k : ℕ)
    → (k < r) ⊎ (r + left ≤ k)
    → update_hashes reg hashes left r k ≡ hashes k
unfolding update_hashes
update_hashes_out reg hashes zero r k h = refl
update_hashes_out reg hashes (suc left) r k h =
    update_hashes_out reg (update hashes r (register_hash reg r)) left (r + 1) k (ground (arith, h))
    ∙ update_ne hashes r k (register_hash reg r) (λ e. ground (arith, h, e))

update_hashes_in :
    (reg hashes : ℕ → ℕ) (left r k : ℕ)
    → r ≤ k
    → k < r + left
    → update_hashes reg hashes left r k ≡ register_hash reg k
unfolding update_hashes
update_hashes_in reg hashes zero r k p q = absurd (omega arith)
update_hashes_in reg hashes (suc left) r k p q = elim (in_range k r left p q) [
  | inr later ↦
      update_hashes_in reg (update hashes r (register_hash reg r)) left (r + 1) k later
        (omega arith)
  | inl same ↦
      update_hashes_out reg (update hashes r (register_hash reg r)) left (r + 1) k
        (inl (omega arith))
      ∙ ap (update hashes r (register_hash reg r)) same
      ∙ update_self hashes r (register_hash reg r)
      ∙ ap (register_hash reg) (sym same)
]

-- Registers that are equal at an index have the same hash there.
register_hash-same :
    (reg reg' : ℕ → ℕ) (k : ℕ) → reg k ≡ reg' k → register_hash reg k ≡ register_hash reg' k
unfolding register_hash register_bytes
register_hash-same reg reg' k e = rw e refl

-- When the hashes of all registers were taken and then one of the 256 registers is written, taking
-- the hash of that register alone gives every register the hash that taking all of them again
-- gives.
pub register_hashes-written :
    (vm : VmState) (inc : Incremental) (r v k : ℕ)
    → r < reg_count
    → k < reg_count
    → let vm' = record vm { reg = update vm.reg r v } in
      (vm_update_register_hash vm' (vm_update_all_register_hashes vm inc) r).reg_hashes k
      ≡ (vm_update_all_register_hashes vm' inc).reg_hashes k
unfolding vm_update_register_hash vm_update_all_register_hashes
register_hashes-written vm inc r v k hr hk =
    let new = update vm.reg r v in
    let old_hashes = update_hashes vm.reg inc.reg_hashes reg_count 0 in
    let right =
      update_hashes_in new inc.reg_hashes reg_count 0 k (omega arith) (omega (arith, hk)) in
    elim (Bool-cases (k == r)) [
      | inl e ↦
          let same = (==_iff k r).0 e in
          ap (update old_hashes r (register_hash new r)) same
          ∙ update_self old_hashes r (register_hash new r)
          ∙ ap (register_hash new) (sym same)
          ∙ sym right
      | inr e ↦
          let other : k ≢ r = λ s. absurd (let f = (==_iff k r).1 s in cc) in
          update_ne old_hashes r k (register_hash new r) other
          ∙ update_hashes_in vm.reg inc.reg_hashes reg_count 0 k (omega arith) (omega (arith, hk))
          ∙ register_hash-same vm.reg new k (sym (update_ne vm.reg r k v other))
          ∙ sym right
    ]

-- The CRC-32 of the registers and of a memory window are what the functions with a choice of the
-- algorithm give for CRC-32.
pub crc32_agrees :
    (vm : VmState) (start length : ℕ)
    → (vm_calculate_registers_hash vm ≡ calculate_registers_hash_ex vm.reg reg_count crc32)
      × (vm_calculate_memory_hash vm start length
          ≡ vm_calculate_memory_hash_ex vm start length crc32)
unfolding vm_calculate_registers_hash calculate_registers_hash_ex vm_calculate_memory_hash
    vm_calculate_memory_hash_ex hash_buffer
crc32_agrees vm start length = (refl, refl)
