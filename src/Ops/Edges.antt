-- ===== src/Ops/Edges.antt =====
-- The edge detectors and the latches of prototype-integrator/src/funcs.c.
use virtual_machine.Prelude.{
  ℕ, true, false, not, differs, ◌&&◌, ◌+◌, ◌<◌, ◌≡◌, arith, refl, leb, nonzero, to_nat,
  if◌then◌else◌, update, lt→leb-false, Bool-cases, inl, inr,
}
use virtual_machine.Instruction.{ra, rb, rc, fimm, imm8}
use virtual_machine.Machine.{VmState, max_timers, bv, set_a}
use virtual_machine.Machine.Frame.{
  Framed-quiet, KeepsFrame, set_a-Framed, set_a-Framed-trans, to_nat-lt,
}

-- The number of an edge detector; `(int)` of a word above `INT_MAX` is negative, and like every
-- number from 16 on refused.
unfoldable pub edge_id : VmState → ℕ → ℕ
edge_id vm i = if fimm i then imm8 i else vm.reg (ra i)

-- The number of a latch: without the flag it is the number of register A, not its value.
unfoldable pub latch_id : ℕ → ℕ
latch_id i = if fimm i then imm8 i else ra i

unfoldable pub op_rising_edge : VmState → ℕ → VmState
unfolding edge_id
op_rising_edge vm i =
    let id = edge_id vm i in
    let input = nonzero (bv vm i) in
    let rising = input && not (vm.edge_prev_rising id) in
    if leb max_timers id
    then set_a vm i 0
    else set_a (record vm { edge_prev_rising = update vm.edge_prev_rising id input }) i
        (to_nat rising)

unfoldable pub op_falling_edge : VmState → ℕ → VmState
unfolding edge_id
op_falling_edge vm i =
    let id = edge_id vm i in
    let input = nonzero (bv vm i) in
    let falling = not input && vm.edge_prev_falling id in
    if leb max_timers id
    then set_a vm i 0
    else set_a (record vm { edge_prev_falling = update vm.edge_prev_falling id input }) i
        (to_nat falling)

unfoldable pub op_edge_both : VmState → ℕ → VmState
unfolding edge_id
op_edge_both vm i =
    let id = edge_id vm i in
    let input = nonzero (bv vm i) in
    let changed = differs input (vm.edge_prev_both id) in
    if leb max_timers id
    then set_a vm i 0
    else set_a (record vm { edge_prev_both = update vm.edge_prev_both id input }) i (to_nat changed)

unfoldable pub op_rs_latch : VmState → ℕ → VmState
unfolding latch_id
op_rs_latch vm i =
    let id = latch_id i in
    let s = nonzero (vm.reg (rb i)) in
    let r = nonzero (vm.reg (rc i)) in
    let q = if r then false else if s then true else vm.rs_latches id in
    if leb max_timers id
    then set_a vm i 0
    else set_a (record vm { rs_latches = update vm.rs_latches id q }) i (to_nat q)

unfoldable pub op_sr_latch : VmState → ℕ → VmState
unfolding latch_id
op_sr_latch vm i =
    let id = latch_id i in
    let s = nonzero (vm.reg (rb i)) in
    let r = nonzero (vm.reg (rc i)) in
    let q = if s then true else if r then false else vm.sr_latches id in
    if leb max_timers id
    then set_a vm i 0
    else set_a (record vm { sr_latches = update vm.sr_latches id q }) i (to_nat q)

pub op_rising_edge-KeepsFrame : KeepsFrame op_rising_edge
unfolding op_rising_edge
op_rising_edge-KeepsFrame vm i v = elim (Bool-cases (leb max_timers (edge_id vm i))) [
  | inl e ↦ rw e (set_a-Framed vm i 0 v (omega arith))
  | inr e ↦ rw e (
      set_a-Framed-trans _ (Framed-quiet v refl (λ h. h) refl refl v.pc_word v.ctu v.ctd v.ctud)
        (to_nat-lt _))
]

pub op_falling_edge-KeepsFrame : KeepsFrame op_falling_edge
unfolding op_falling_edge
op_falling_edge-KeepsFrame vm i v = elim (Bool-cases (leb max_timers (edge_id vm i))) [
  | inl e ↦ rw e (set_a-Framed vm i 0 v (omega arith))
  | inr e ↦ rw e (
      set_a-Framed-trans _ (Framed-quiet v refl (λ h. h) refl refl v.pc_word v.ctu v.ctd v.ctud)
        (to_nat-lt _))
]

pub op_edge_both-KeepsFrame : KeepsFrame op_edge_both
unfolding op_edge_both
op_edge_both-KeepsFrame vm i v = elim (Bool-cases (leb max_timers (edge_id vm i))) [
  | inl e ↦ rw e (set_a-Framed vm i 0 v (omega arith))
  | inr e ↦ rw e (
      set_a-Framed-trans _ (Framed-quiet v refl (λ h. h) refl refl v.pc_word v.ctu v.ctd v.ctud)
        (to_nat-lt _))
]

pub op_rs_latch-KeepsFrame : KeepsFrame op_rs_latch
unfolding op_rs_latch
op_rs_latch-KeepsFrame vm i v = elim (Bool-cases (leb max_timers (latch_id i))) [
  | inl e ↦ rw e (set_a-Framed vm i 0 v (omega arith))
  | inr e ↦ rw e (
      set_a-Framed-trans _ (Framed-quiet v refl (λ h. h) refl refl v.pc_word v.ctu v.ctd v.ctud)
        (to_nat-lt _))
]

pub op_sr_latch-KeepsFrame : KeepsFrame op_sr_latch
unfolding op_sr_latch
op_sr_latch-KeepsFrame vm i v = elim (Bool-cases (leb max_timers (latch_id i))) [
  | inl e ↦ rw e (set_a-Framed vm i 0 v (omega arith))
  | inr e ↦ rw e (
      set_a-Framed-trans _ (Framed-quiet v refl (λ h. h) refl refl v.pc_word v.ctu v.ctd v.ctud)
        (to_nat-lt _))
]

-- On one number and one stored input, what RISING_EDGE and FALLING_EDGE write adds up to what
-- EDGE_BOTH writes, and the three store the same input.
pub edges_agree :
    (vm : VmState) (i : ℕ)
    → vm.edge_prev_rising (edge_id vm i) ≡ vm.edge_prev_both (edge_id vm i)
    → vm.edge_prev_falling (edge_id vm i) ≡ vm.edge_prev_both (edge_id vm i)
    → let id = edge_id vm i in
      ((op_rising_edge vm i).reg (ra i) + (op_falling_edge vm i).reg (ra i)
        ≡ (op_edge_both vm i).reg (ra i))
      × ((op_rising_edge vm i).edge_prev_rising id ≡ (op_edge_both vm i).edge_prev_both id)
      × ((op_falling_edge vm i).edge_prev_falling id ≡ (op_edge_both vm i).edge_prev_both id)
unfolding op_rising_edge op_falling_edge op_edge_both set_a
edges_agree vm i p q = elim (Bool-cases (leb max_timers (edge_id vm i))) [
  | inl e ↦ rw e (ground arith, p, q)
  | inr e ↦ rw e (ground arith, ground arith, ground arith)
]

-- With a number below MAX_TIMERS and the same stored bit, the latches differ only when both inputs
-- are set: then RS writes 0 and SR writes 1. Each stores the bit that it writes.
pub latches_agree :
    (vm : VmState) (i : ℕ)
    → latch_id i < max_timers
    → vm.rs_latches (latch_id i) ≡ vm.sr_latches (latch_id i)
    → let both = nonzero (vm.reg (rb i)) && nonzero (vm.reg (rc i)) in
      let rs = op_rs_latch vm i in
      let sr = op_sr_latch vm i in
      (rs.reg (ra i) ≡ (if both then 0 else sr.reg (ra i)))
      × (sr.reg (ra i) ≡ (if both then 1 else rs.reg (ra i)))
      × (rs.reg (ra i) ≡ to_nat (rs.rs_latches (latch_id i)))
      × (sr.reg (ra i) ≡ to_nat (sr.sr_latches (latch_id i)))
unfolding op_rs_latch op_sr_latch set_a
latches_agree vm i h p =
    rw (lt→leb-false max_timers (latch_id i) h)
      (ground arith, ground arith, ground arith, ground arith)
