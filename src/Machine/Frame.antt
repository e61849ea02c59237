-- ===== src/Machine/Frame.antt =====
-- What every instruction keeps: the machine's words stay words, no byte beyond the memory is
-- written, and no register but A changes.
use virtual_machine.Prelude.{
  ℕ, ◌<◌, ◌≤◌, ◌≡◌, ◌≢◌, ◌∙◌, refl, arith, update, update_ne, if◌then◌else◌, List, Bool, true,
  false, Bool-cases, inl, inr, to_nat,
}
use virtual_machine.Word.{u32_mod}
use virtual_machine.Instruction.{ra, rb, rc, fimm}
use virtual_machine.Instruction.Encoding.{sextimm8-lt}
use virtual_machine.Machine.{VmState, VmConfig, ModuleInfo, mem_bytes, bv, cv_or_imm, set_a}

-- Registers, the program counter and the counters hold 32-bit words, the memory holds bytes.
pub record IsValid (vm : VmState) : Type 0 where
  pub regs : (r : ℕ) → vm.reg r < u32_mod
  pub bytes : (a : ℕ) → vm.mem a < 256
  pub pc_word : vm.pc < u32_mod
  pub ctu : (k : ℕ) → (vm.ctu_counters k).value < u32_mod
  pub ctd : (k : ℕ) → (vm.ctd_counters k).value < u32_mod
  pub ctud : (k : ℕ) → (vm.ctud_counters k).value < u32_mod

-- What is set when programs are loaded and configured, and by the passes.
abbrev pub Settings : Type 0
Settings = List ModuleInfo × ℕ × VmConfig × ℕ × ℕ × Bool × ℕ

abbrev pub settings : VmState → Settings
settings vm = (
  vm.modules, vm.pc_start, vm.config, vm.program_size, vm.program_hash, vm.reload_pending,
  vm.cycle_count,
)

-- One instruction `i` took `vm` to `vm'`.
pub record Framed (i : ℕ) (vm vm' : VmState) : Type 0 where
  pub valid : IsValid vm'
  pub beyond : (a : ℕ) → mem_bytes ≤ a → vm'.mem a ≡ vm.mem a
  pub others : (r : ℕ) → r ≢ ra i → vm'.reg r ≡ vm.reg r
  pub same_settings : settings vm' ≡ settings vm
  pub stops : vm.stop_requested ≡ true → vm'.stop_requested ≡ true

abbrev pub KeepsFrame : (VmState → ℕ → VmState) → Type 0
KeepsFrame op = (vm : VmState) (i : ℕ) → IsValid vm → Framed i vm (op vm i)

pub Framed-refl : (i : ℕ) {vm : VmState} → IsValid vm → Framed i vm vm
Framed-refl i v = record {
  valid = v;
  beyond = λ a h. refl;
  others = λ r h. refl;
  same_settings = refl;
  stops = λ h. h;
}

pub Framed-trans :
    {i : ℕ} {vm vm₁ vm₂ : VmState} → Framed i vm vm₁ → Framed i vm₁ vm₂ → Framed i vm vm₂
Framed-trans p q = record {
  valid = q.valid;
  beyond = λ a h. q.beyond a h ∙ p.beyond a h;
  others = λ r h. q.others r h ∙ p.others r h;
  same_settings = q.same_settings ∙ p.same_settings;
  stops = λ h. q.stops (p.stops h);
}

pub Framed-if :
    {i : ℕ} {vm vm₁ vm₂ : VmState} (b : Bool)
    → (b ≡ true → Framed i vm vm₁)
    → (b ≡ false → Framed i vm vm₂)
    → Framed i vm (if b then vm₁ else vm₂)
Framed-if true p q = p refl
Framed-if false p q = q refl

pub bv-lt : (vm : VmState) (i : ℕ) → IsValid vm → bv vm i < u32_mod
unfolding bv
bv-lt vm i v = v.regs (rb i)

pub cv_or_imm-lt : (vm : VmState) (i : ℕ) → IsValid vm → cv_or_imm vm i < u32_mod
unfolding cv_or_imm
cv_or_imm-lt vm i v = elim (Bool-cases (fimm i)) [
  | inl e ↦ rw e (sextimm8-lt i)
  | inr e ↦ rw e (v.regs (rc i))
]

pub update-lt : (f : ℕ → ℕ) (k w n : ℕ) → ((j : ℕ) → f j < n) → w < n → (j : ℕ) → update f k w j < n
update-lt f k w n h hw j = ground (arith, h j)

pub set_a-Framed : (vm : VmState) (i w : ℕ) → IsValid vm → w < u32_mod → Framed i vm (set_a vm i w)
unfolding set_a
set_a-Framed vm i w v h = record {
  valid = record {
    regs = update-lt vm.reg (ra i) w u32_mod v.regs h;
    bytes = v.bytes;
    pc_word = v.pc_word;
    ctu = v.ctu;
    ctd = v.ctd;
    ctud = v.ctud;
  };
  beyond = λ a p. refl;
  others = λ r p. update_ne vm.reg (ra i) r w p;
  same_settings = refl;
  stops = λ p. p;
}

-- A change of what the frame does not read.
pub Framed-quiet :
    {i : ℕ} {vm vm' : VmState}
    → IsValid vm
    → settings vm' ≡ settings vm
    → (vm.stop_requested ≡ true → vm'.stop_requested ≡ true)
    → vm'.reg ≡ vm.reg
    → vm'.mem ≡ vm.mem
    → vm'.pc < u32_mod
    → ((k : ℕ) → (vm'.ctu_counters k).value < u32_mod)
    → ((k : ℕ) → (vm'.ctd_counters k).value < u32_mod)
    → ((k : ℕ) → (vm'.ctud_counters k).value < u32_mod)
    → Framed i vm vm'
Framed-quiet v es st er em ep e₁ e₂ e₃ = record {
  valid = record {
    regs = λ r. rw er (v.regs r);
    bytes = λ a. rw em (v.bytes a);
    pc_word = ep;
    ctu = e₁;
    ctd = e₂;
    ctud = e₃;
  };
  beyond = λ a h. rw em;
  others = λ r h. rw er;
  same_settings = es;
  stops = st;
}

-- The last step of most instructions: a write of A.
pub set_a-Framed-trans :
    {i : ℕ} {vm vm₁ : VmState} (w : ℕ) → Framed i vm vm₁ → w < u32_mod → Framed i vm (set_a vm₁ i w)
set_a-Framed-trans {i} {vm₁ = vm₁} w f h = Framed-trans f (set_a-Framed vm₁ i w f.valid h)

pub to_nat-lt : (b : Bool) → to_nat b < u32_mod
to_nat-lt b = ground arith
