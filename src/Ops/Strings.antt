-- ===== src/Ops/Strings.antt =====
-- The string instructions of prototype-integrator/src/funcs.c, and their bounded memory helpers,
-- which take and give back the memory alone.
pub mod Bytes
pub mod Bounds
pub mod Frames
pub mod Parts
pub mod Edits
pub mod Joins
pub mod Replace
use virtual_machine.Prelude.{
  ℕ, zero, suc, Bool, true, false, ◌&&◌, ◌||◌, ◌+◌, ◌-◌, ◌≤◌, ◌==◌, ltb, leb, if◌then◌else◌, update,
}
use virtual_machine.Word.{add32}
use virtual_machine.Instruction.{ra}
use virtual_machine.Machine.{VmState, mem_bytes, bv, cv, cv_or_imm, set_a}

unfoldable pub safe_mem_remaining : ℕ → ℕ
safe_mem_remaining addr = if leb mem_bytes addr then 0 else mem_bytes - addr

-- The loop of `safe_strlen_at`, with the number of bytes that are left.
unfoldable pub str_len : (ℕ → ℕ) → ℕ → ℕ → ℕ
str_len mem addr zero = 0
str_len mem addr (suc rem) = elim (mem addr == 0) [
  | true ↦ 0
  | false ↦ suc (str_len mem (addr + 1) rem)
]

unfoldable pub safe_strlen_at : (ℕ → ℕ) → ℕ → ℕ
safe_strlen_at mem addr = str_len mem addr (safe_mem_remaining addr)

-- `memmove`, and `memcpy` where its blocks do not overlap.
unfoldable pub copy_bytes : (ℕ → ℕ) → ℕ → ℕ → ℕ → ℕ → ℕ
copy_bytes mem dest src n a =
    if leb dest a && ltb a (dest + n) then mem (src + (a - dest)) else mem a

unfoldable pub safe_memmove : (ℕ → ℕ) → ℕ → ℕ → ℕ → ℕ → ℕ
safe_memmove mem dest src n =
    let rem_dest = safe_mem_remaining dest in
    let rem_src = safe_mem_remaining src in
    let max_copy = if ltb rem_dest rem_src then rem_dest else rem_src in
    copy_bytes mem dest src (if ltb max_copy n then max_copy else n)

-- `if (addr < VM_MEM_BYTES) vm->mem[addr] = 0`
unfoldable pub set_null : (ℕ → ℕ) → ℕ → ℕ → ℕ
set_null mem addr = if ltb addr mem_bytes then update mem addr 0 else mem

unfoldable pub op_len : VmState → ℕ → VmState
op_len vm i =
    let addr = bv vm i in
    if leb mem_bytes addr then set_a vm i 0 else set_a vm i (safe_strlen_at vm.mem addr)

-- The room that `rem` bytes leave behind a string of `len`, less the terminator.
unfoldable pub room_after : ℕ → ℕ → ℕ
room_after rem len = if ltb len rem then rem - len - 1 else 0

-- `a < b ? a : b`
unfoldable pub smaller : ℕ → ℕ → ℕ
smaller a b = if ltb a b then a else b

-- `if (n > 0) memcpy(...)`
unfoldable pub copy_some : (ℕ → ℕ) → ℕ → ℕ → ℕ → ℕ → ℕ
unfolding copy_bytes
copy_some mem dest src n = if ltb 0 n then copy_bytes mem dest src n else mem

-- The two copies of INSERT and REPLACE: `tail` bytes and the terminator make room for `n` new ones.
unfoldable pub insert_bytes : (ℕ → ℕ) → ℕ → ℕ → ℕ → ℕ → ℕ → ℕ
unfolding copy_bytes
insert_bytes mem at ins n tail = copy_bytes (copy_bytes mem (at + n) at (tail + 1)) at ins n

unfoldable pub op_concat : VmState → ℕ → VmState
op_concat vm i =
    let dest = bv vm i in
    let src = cv vm i in
    let dest_len = safe_strlen_at vm.mem dest in
    let src_len = safe_strlen_at vm.mem src in
    let rem = safe_mem_remaining dest in
    let to_copy = smaller src_len (room_after rem dest_len) in
    if leb mem_bytes dest || leb mem_bytes src then vm else if rem == 0 then vm else record vm {
      mem = set_null (copy_some vm.mem (dest + dest_len) src to_copy) (dest + dest_len + to_copy);
    }

unfoldable pub op_left : VmState → ℕ → VmState
op_left vm i =
    let addr = bv vm i in
    let n = cv_or_imm vm i in
    let len = safe_strlen_at vm.mem addr in
    if leb mem_bytes addr
    then vm
    else if leb len n
    then vm
    else record vm { mem = set_null vm.mem (add32 addr n) }

unfoldable pub op_right : VmState → ℕ → VmState
op_right vm i =
    let addr = bv vm i in
    let n = cv_or_imm vm i in
    let len = safe_strlen_at vm.mem addr in
    let src = add32 addr (len - n) in
    if leb mem_bytes addr
    then vm
    else if len == 0
    then vm
    else if leb len n
    then vm
    else record vm { mem = set_null (safe_memmove vm.mem addr src n) (add32 addr n) }

unfoldable pub op_mid : VmState → ℕ → VmState
op_mid vm i =
    let addr = bv vm i in
    let start = cv_or_imm vm i in
    let len = safe_strlen_at vm.mem addr in
    let src = add32 addr start in
    let newlen = len - start in
    if leb mem_bytes addr
    then vm
    else if leb len start
    then record vm { mem = set_null vm.mem addr }
    else record vm { mem = set_null (safe_memmove vm.mem addr src newlen) (addr + newlen) }

unfoldable pub op_insert : VmState → ℕ → VmState
op_insert vm i =
    let dest = vm.reg (ra i) in
    let ins = bv vm i in
    let dest_len = safe_strlen_at vm.mem dest in
    let ins_len = safe_strlen_at vm.mem ins in
    let pos = if ltb dest_len (cv_or_imm vm i) then dest_len else cv_or_imm vm i in
    let rem = safe_mem_remaining dest in
    let to_insert = smaller ins_len (room_after rem dest_len) in
    let tail = dest_len - pos in
    let at = add32 dest pos in
    if leb mem_bytes dest || leb mem_bytes ins
    then vm
    else if rem == 0
    then vm
    else if ltb 0 to_insert
    then if ltb mem_bytes (at + to_insert + tail + 1) && ltb mem_bytes (at + to_insert + 1)
      then vm
      else record vm { mem = insert_bytes vm.mem at ins to_insert tail }
    else vm

unfoldable pub op_delete : VmState → ℕ → VmState
op_delete vm i =
    let addr = vm.reg (ra i) in
    let pos = bv vm i in
    let len = safe_strlen_at vm.mem addr in
    let n = if ltb (len - pos) (cv_or_imm vm i) then len - pos else cv_or_imm vm i in
    let at = add32 addr pos in
    if leb mem_bytes addr
    then vm
    else if leb len pos
    then vm
    else record vm { mem = safe_memmove vm.mem at (add32 at n) (len - pos - n + 1) }

-- REPLACE first deletes `rep_len` bytes, and then inserts into the shorter string.
unfoldable pub op_replace : VmState → ℕ → VmState
op_replace vm i =
    let addr = vm.reg (ra i) in
    let rep = bv vm i in
    let pos = cv_or_imm vm i in
    let len = safe_strlen_at vm.mem addr in
    let found = safe_strlen_at vm.mem rep in
    let rep_len = if ltb len (pos + found) then len - pos else found in
    let at = add32 addr pos in
    let mem₁ = safe_memmove vm.mem at (add32 at rep_len) (len - pos - rep_len + 1) in
    let rem = safe_mem_remaining addr in
    let current_len = safe_strlen_at mem₁ addr in
    let to_insert = smaller rep_len (room_after rem current_len) in
    let tail = current_len - pos in
    if leb mem_bytes addr || leb mem_bytes rep
    then vm
    else if ltb len pos
    then vm
    else if ltb 0 to_insert
    then record vm { mem = insert_bytes mem₁ at rep to_insert tail }
    else record vm { mem = mem₁ }
