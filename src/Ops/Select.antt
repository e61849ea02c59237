-- ===== src/Ops/Select.antt =====
-- LIMIT, SEL, MUX and DEMUX of prototype-integrator/src/funcs.c.
use Prim.Native.Nat.{max}
use virtual_machine.Prelude.{
  ℕ, Bool, ◌+◌, ◌*◌, ◌≤◌, ◌<◌, ◌≡◌, ◌∙◌, arith, refl, min, ltb, leb, nonzero, if◌then◌else◌,
  Bool-cases, inl, inr, ltb-false→le, lt→ltb, le→ltb-false,
}
use virtual_machine.Word.{u32_mod}
use virtual_machine.Instruction.{ra, rc}
use virtual_machine.Machine.{VmState, mem_bytes, mr32, mw32, bv, cv_or_imm, set_a}
use virtual_machine.Machine.Memory.{mr32-mw32, mw32_elsewhere, mw32_byte}
use virtual_machine.Machine.Frame.{
  IsValid, Framed, Framed-refl, KeepsFrame, set_a-Framed, bv-lt, cv_or_imm-lt,
}

unfoldable pub op_limit : VmState → ℕ → VmState
op_limit vm i =
    let x = vm.reg (ra i) in
    let lo = bv vm i in
    let hi = cv_or_imm vm i in
    let x₁ = if ltb x lo then lo else x in let x₂ = if ltb hi x₁ then hi else x₁ in set_a vm i x₂

unfoldable pub op_sel : VmState → ℕ → VmState
op_sel vm i =
    let c = bv vm i in
    let base = vm.reg (rc i) in
    let v₁ = if leb (base + 4) mem_bytes then mr32 vm base else 0 in
    let v₂ = if leb (base + 8) mem_bytes then mr32 vm (base + 4) else 0 in
    if leb mem_bytes base then set_a vm i 0 else set_a vm i (if nonzero c then v₁ else v₂)

-- The address is computed in 64 bits, and does not wrap there.
unfoldable pub element_addr : VmState → ℕ → ℕ
element_addr vm i = bv vm i + cv_or_imm vm i * 4

unfoldable pub op_mux : VmState → ℕ → VmState
unfolding element_addr
op_mux vm i =
    let addr = element_addr vm i in
    if ltb mem_bytes (addr + 4) then set_a vm i 0 else set_a vm i (mr32 vm addr)

unfoldable pub op_demux : VmState → ℕ → VmState
unfolding element_addr
op_demux vm i =
    let addr = element_addr vm i in
    if ltb mem_bytes (addr + 4) then vm else mw32 vm addr (vm.reg (ra i))

limit-lt :
    (x lo hi n : ℕ)
    → x < n
    → lo < n
    → hi < n
    → let x₁ = if ltb x lo then lo else x in (if ltb hi x₁ then hi else x₁) < n
limit-lt x lo hi n hx hl hh = ground arith

pub op_limit-KeepsFrame : KeepsFrame op_limit
unfolding op_limit
op_limit-KeepsFrame vm i v = set_a-Framed vm i _ v (
    limit-lt (vm.reg (ra i)) (bv vm i) (cv_or_imm vm i) _ (v.regs _) (bv-lt vm i v)
      (cv_or_imm-lt vm i v))

mr32-lt : (vm : VmState) (a : ℕ) → IsValid vm → mr32 vm a < u32_mod
unfolding mr32
mr32-lt vm a v = omega (arith, v.bytes a, v.bytes (a + 1), v.bytes (a + 2), v.bytes (a + 3))

if-lt : (b : Bool) (x y n : ℕ) → x < n → y < n → (if b then x else y) < n
if-lt b x y n p q = ground arith

pub op_sel-KeepsFrame : KeepsFrame op_sel
unfolding op_sel
op_sel-KeepsFrame vm i v =
    let base = vm.reg (rc i) in
    let small : 0 < u32_mod = omega arith in
    elim (Bool-cases (leb mem_bytes base)) [
      | inl e ↦ rw e (set_a-Framed vm i 0 v small)
      | inr e ↦ rw e (
          set_a-Framed vm i _ v (
            if-lt (nonzero (bv vm i)) _ _ _
              (if-lt (leb (base + 4) mem_bytes) _ _ _ (mr32-lt vm base v) small)
              (if-lt (leb (base + 8) mem_bytes) _ _ _ (mr32-lt vm (base + 4) v) small)))
    ]

pub op_mux-KeepsFrame : KeepsFrame op_mux
unfolding op_mux
op_mux-KeepsFrame vm i v = elim (Bool-cases (ltb mem_bytes (element_addr vm i + 4))) [
  | inl e ↦ rw e (set_a-Framed vm i 0 v (omega arith))
  | inr e ↦ rw e (set_a-Framed vm i _ v (mr32-lt vm _ v))
]

mw32-Framed :
    (vm : VmState) (i addr w : ℕ) → IsValid vm → addr + 4 ≤ mem_bytes → Framed i vm (mw32 vm addr w)
unfolding mw32
mw32-Framed vm i addr w v h = record {
  valid = record {
    regs = v.regs;
    bytes = λ a. mw32_byte vm addr w a (v.bytes a);
    pc_word = v.pc_word;
    ctu = v.ctu;
    ctd = v.ctd;
    ctud = v.ctud;
  };
  beyond = λ a p. mw32_elsewhere vm addr w a (inr (omega arith));
  others = λ r p. refl;
  same_settings = refl;
  stops = λ h. h;
}

pub op_demux-KeepsFrame : KeepsFrame op_demux
unfolding op_demux
op_demux-KeepsFrame vm i v =
    let addr = element_addr vm i in
    elim (Bool-cases (ltb mem_bytes (addr + 4))) [
      | inl e ↦ rw e (Framed-refl i v)
      | inr e ↦ rw e (mw32-Framed vm i addr _ v (ltb-false→le _ _ e))
    ]

-- LIMIT raises A to the lower bound and then cuts it to the upper one, which wins when the bounds
-- are out of order.
pub op_limit_lem :
    (vm : VmState) (i : ℕ)
    → (op_limit vm i).reg (ra i) ≡ min (cv_or_imm vm i) (max (bv vm i) (vm.reg (ra i)))
unfolding op_limit set_a
op_limit_lem vm i = ground arith

op_demux_inside :
    (vm : VmState) (i : ℕ)
    → element_addr vm i + 4 ≤ mem_bytes
    → op_demux vm i ≡ mw32 vm (element_addr vm i) (vm.reg (ra i))
unfolding op_demux
op_demux_inside vm i h = rw (le→ltb-false (element_addr vm i + 4) mem_bytes h)

op_mux_inside :
    (vm : VmState) (i : ℕ)
    → element_addr vm i + 4 ≤ mem_bytes
    → (op_mux vm i).reg (ra i) ≡ mr32 vm (element_addr vm i)
unfolding op_mux set_a
op_mux_inside vm i h = rw (le→ltb-false (element_addr vm i + 4) mem_bytes h) (ground arith)

-- MUX reads back the word that DEMUX wrote, if both compute the same element address and the
-- element lies in memory.
pub op_mux-op_demux :
    (vm : VmState) (i j : ℕ)
    → vm.reg (ra i) < u32_mod
    → element_addr vm i + 4 ≤ mem_bytes
    → element_addr (op_demux vm i) j ≡ element_addr vm i
    → (op_mux (op_demux vm i) j).reg (ra j) ≡ vm.reg (ra i)
op_mux-op_demux vm i j hw hin same =
    op_mux_inside (op_demux vm i) j (rw same hin)
    ∙ rw (same, op_demux_inside vm i hin) (mr32-mw32 vm _ _ hw)

-- Outside the memory MUX writes 0 and DEMUX does nothing.
pub element_outside :
    (vm : VmState) (i : ℕ)
    → mem_bytes < element_addr vm i + 4
    → ((op_mux vm i).reg (ra i) ≡ 0) × (op_demux vm i ≡ vm)
unfolding op_mux op_demux set_a
element_outside vm i h =
    let e = lt→ltb mem_bytes (element_addr vm i + 4) h in (rw e (ground arith), rw e)
