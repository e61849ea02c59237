-- ===== src/Machine/Memory.antt =====
-- Words in memory: a 32-bit write is read back, and touches four bytes.
use virtual_machine.Prelude.{ℕ, ◌+◌, ◌^◌, ◌<◌, ◌≤◌, ◌≡◌, ◌⊎◌, arith}
use virtual_machine.Machine.{VmState, mr32, mw32}

-- A word that is stored is read back from the same address.
pub mr32-mw32 : (vm : VmState) (addr v : ℕ) → v < 2 ^ 32 → mr32 (mw32 vm addr v) addr ≡ v
unfolding mr32 mw32
mr32-mw32 vm addr v h = ground arith

-- The bytes that a write of a word leaves alone.
pub mw32_elsewhere :
    (vm : VmState) (addr v a : ℕ) → (a < addr) ⊎ (addr + 4 ≤ a) → (mw32 vm addr v).mem a ≡ vm.mem a
unfolding mw32
mw32_elsewhere vm addr v a h = ground arith

pub mw32_byte : (vm : VmState) (addr v a : ℕ) → vm.mem a < 256 → (mw32 vm addr v).mem a < 256
unfolding mw32
mw32_byte vm addr v a h = ground arith
