-- ===== src/Ops/Strings/Bounds.antt =====
-- The string instructions write within the memory.
use virtual_machine.Prelude.{
  ℕ, zero, suc, Bool, false, ◌||◌, ◌+◌, ◌-◌, ◌≤◌, ◌<◌, ◌≡◌, refl, arith, ltb, Bool-cases, inl, inr,
}
use virtual_machine.Word.{u32_mod, add32}
use virtual_machine.Machine.{VmState, mem_bytes}
use virtual_machine.Machine.Frame.{IsValid, Framed}
use virtual_machine.Ops.Strings.{
  safe_mem_remaining, str_len, safe_strlen_at, copy_bytes, safe_memmove, set_null, room_after,
  smaller, copy_some, insert_bytes,
}

-- A memory whose bytes are bytes, and that agrees with `m` beyond the end.
pub record StaysWithin (m m' : ℕ → ℕ) : Type 0 where
  pub bytes : (a : ℕ) → m' a < 256
  pub beyond : (a : ℕ) → mem_bytes ≤ a → m' a ≡ m a

pub mem-Framed :
    {i : ℕ} (vm : VmState) (m : ℕ → ℕ)
    → IsValid vm
    → StaysWithin vm.mem m
    → Framed i vm (record vm { mem = m })
mem-Framed vm m v w = record {
  valid = record {
    regs = v.regs;
    bytes = w.bytes;
    pc_word = v.pc_word;
    ctu = v.ctu;
    ctd = v.ctd;
    ctud = v.ctud;
  };
  beyond = w.beyond;
  others = λ r h. refl;
  same_settings = refl;
  stops = λ h. h;
}

pub within_refl : {vm : VmState} → IsValid vm → StaysWithin vm.mem vm.mem
within_refl v = record { bytes = v.bytes; beyond = λ a h. refl }

pub within_copy :
    {m m' : ℕ → ℕ} (dest src n : ℕ)
    → StaysWithin m m'
    → dest + n ≤ mem_bytes
    → StaysWithin m (copy_bytes m' dest src n)
unfolding copy_bytes
within_copy dest src n w h = record {
  bytes = λ a. ground (arith, w.bytes a, w.bytes (src + (a - dest)));
  beyond = λ a p. ground (arith, w.beyond a p);
}

-- The bounded move needs no condition.
pub within_memmove :
    {m m' : ℕ → ℕ} (dest src n : ℕ) → StaysWithin m m' → StaysWithin m (safe_memmove m' dest src n)
unfolding safe_memmove safe_mem_remaining copy_bytes
within_memmove dest src n w = record {
  bytes = λ a. ground (arith, w.bytes a, w.bytes (src + (a - dest)));
  beyond = λ a p. ground (arith, w.beyond a p);
}

pub within_null : {m m' : ℕ → ℕ} (addr : ℕ) → StaysWithin m m' → StaysWithin m (set_null m' addr)
unfolding set_null
within_null addr w = record {
  bytes = λ a. ground (arith, w.bytes a);
  beyond = λ a p. ground (arith, w.beyond a p);
}

pub str_len-le : (mem : ℕ → ℕ) (addr rem : ℕ) → str_len mem addr rem ≤ rem
unfolding str_len
str_len-le mem addr zero = omega arith
str_len-le mem addr (suc rem) = ground (arith, str_len-le mem (addr + 1) rem)

pub remaining-le : (addr : ℕ) → safe_mem_remaining addr ≤ mem_bytes - addr
unfolding safe_mem_remaining
remaining-le addr = ground arith

pub safe_strlen_at-le : (mem : ℕ → ℕ) (addr : ℕ) → safe_strlen_at mem addr ≤ mem_bytes - addr
unfolding safe_strlen_at safe_mem_remaining
safe_strlen_at-le mem addr = ground (arith, str_len-le mem addr (safe_mem_remaining addr))

pub strlen-lt : (mem : ℕ → ℕ) (addr : ℕ) → safe_strlen_at mem addr < u32_mod
strlen-lt mem addr = omega (arith, safe_strlen_at-le mem addr)

pub within_copy_some :
    {m m' : ℕ → ℕ} (dest src n : ℕ)
    → StaysWithin m m'
    → dest + n ≤ mem_bytes
    → StaysWithin m (copy_some m' dest src n)
unfolding copy_some
within_copy_some dest src n w h = elim (Bool-cases (ltb 0 n)) [
  | inl e ↦ rw e (within_copy dest src n w h)
  | inr e ↦ rw e w
]

pub within_insert :
    {m m' : ℕ → ℕ} (at ins n tail : ℕ)
    → StaysWithin m m'
    → at + n + tail + 1 ≤ mem_bytes
    → StaysWithin m (insert_bytes m' at ins n tail)
unfolding insert_bytes
within_insert at ins n tail w h =
    within_copy at ins n (within_copy (at + n) at (tail + 1) w (omega arith)) (omega arith)

pub append-fits :
    (dest len found : ℕ)
    → dest < mem_bytes
    → len ≤ mem_bytes - dest
    → dest + len + smaller found (room_after (safe_mem_remaining dest) len) ≤ mem_bytes
unfolding smaller room_after safe_mem_remaining
append-fits dest len found h k = ground arith

-- What is inserted fits with the tail and the terminator.
pub insert-fits :
    (dest len found pos : ℕ)
    → dest < mem_bytes
    → len ≤ mem_bytes - dest
    → pos ≤ len
    → 0 < smaller found (room_after (safe_mem_remaining dest) len)
    → add32 dest pos + smaller found (room_after (safe_mem_remaining dest) len) + (len - pos) + 1
      ≤ mem_bytes
unfolding smaller room_after safe_mem_remaining add32
insert-fits dest len found pos h k p q = ground arith

pub or-false : (a b : Bool) → a || b ≡ false → (a ≡ false) × (b ≡ false)
or-false a b h = ground arith
