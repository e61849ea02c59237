-- ===== src/Ops/Counters.antt =====
-- CTU, CTD and CTUD of prototype-integrator/src/funcs.c. The number of the counter is the value of
-- register A, which the result then overwrites.
pub mod Runs
use virtual_machine.Prelude.{
  ℕ, zero, suc, Bool, true, false, not, ◌&&◌, ◌+◌, ◌-◌, ◌≤◌, ◌<◌, ◌≡◌, arith, refl, min, ◌==◌, ltb,
  leb, nonzero, to_nat, if◌then◌else◌, update, List, [], ◌∷◌, Bool-cases, inl, inr,
}
use virtual_machine.Word.{u32_mod, u32_max}
use virtual_machine.Instruction.{ra, rb, rc}
use virtual_machine.Machine.{VmState, Counter, max_timers, cv_or_imm, set_a}
use virtual_machine.Machine.Frame.{
  IsValid, Framed, Framed-refl, Framed-quiet, KeepsFrame, set_a-Framed-trans, to_nat-lt,
}

-- `if (rising && value < UINT32_MAX) value++`
unfoldable pub count_up : Bool → Counter → Counter
count_up rising c =
    if rising then (if ltb c.value u32_max then record c { value = c.value + 1 } else c) else c

-- `if (rising && value > 0) value--`
unfoldable pub count_down : Bool → Counter → Counter
count_down rising c =
    if rising then (if ltb 0 c.value then record c { value = c.value - 1 } else c) else c

-- `in && !prev`
abbrev pub rises : Bool → Bool → Bool
rises prev input = input && not prev

unfoldable pub op_ctu : VmState → ℕ → VmState
unfolding count_up
op_ctu vm i =
    let id = vm.reg (ra i) in
    let input = nonzero (vm.reg (rb i)) in
    let c = count_up (rises (vm.ctu_prev_input id) input) (vm.ctu_counters id) in
    let vm₁ = record vm {
      ctu_counters = update vm.ctu_counters id c;
      ctu_prev_input = update vm.ctu_prev_input id input;
    } in
    if leb max_timers id then vm else set_a vm₁ i (to_nat (leb (cv_or_imm vm i) c.value))

unfoldable pub op_ctd : VmState → ℕ → VmState
unfolding count_down
op_ctd vm i =
    let id = vm.reg (ra i) in
    let input = nonzero (vm.reg (rb i)) in
    let c = count_down (rises (vm.ctd_prev_input id) input) (vm.ctd_counters id) in
    let vm₁ = record vm {
      ctd_counters = update vm.ctd_counters id c;
      ctd_prev_input = update vm.ctd_prev_input id input;
    } in
    if leb max_timers id then vm else set_a vm₁ i (to_nat (leb c.value (cv_or_imm vm i)))

unfoldable pub op_ctud : VmState → ℕ → VmState
unfolding count_up count_down
op_ctud vm i =
    let id = vm.reg (ra i) in
    let up = nonzero (vm.reg (rb i)) in
    let down = nonzero (vm.reg (rc i)) in
    let c₁ = count_up (rises (vm.ctud_prev_up id) up) (vm.ctud_counters id) in
    let c = count_down (rises (vm.ctud_prev_down id) down) c₁ in
    let vm₁ = record vm {
      ctud_counters = update vm.ctud_counters id c;
      ctud_prev_up = update vm.ctud_prev_up id up;
      ctud_prev_down = update vm.ctud_prev_down id down;
    } in
    if leb max_timers id then vm else set_a vm₁ i c.value

count_up-lt : (b : Bool) (c : Counter) → c.value < u32_mod → (count_up b c).value < u32_mod
unfolding count_up
count_up-lt b c h = ground arith

count_down-lt : (b : Bool) (c : Counter) → c.value < u32_mod → (count_down b c).value < u32_mod
unfolding count_down
count_down-lt b c h = ground arith

update_counter-lt :
    (f : ℕ → Counter) (k : ℕ) (c : Counter)
    → ((j : ℕ) → (f j).value < u32_mod)
    → c.value < u32_mod
    → (j : ℕ) → (update f k c j).value < u32_mod
update_counter-lt f k c h hc j = ground (arith, h j)

pub op_ctu-KeepsFrame : KeepsFrame op_ctu
unfolding op_ctu
op_ctu-KeepsFrame vm i v =
    let id = vm.reg (ra i) in
    let hc = count_up-lt (rises (vm.ctu_prev_input id) (nonzero (vm.reg (rb i)))) _ (v.ctu id) in
    elim (Bool-cases (leb max_timers id)) [
      | inl e ↦ rw e (Framed-refl i v)
      | inr e ↦ rw e (
          set_a-Framed-trans _
            (Framed-quiet v refl (λ h. h) refl refl v.pc_word (update_counter-lt _ id _ v.ctu hc)
              v.ctd v.ctud)
            (to_nat-lt _))
    ]

pub op_ctd-KeepsFrame : KeepsFrame op_ctd
unfolding op_ctd
op_ctd-KeepsFrame vm i v =
    let id = vm.reg (ra i) in
    let hc = count_down-lt (rises (vm.ctd_prev_input id) (nonzero (vm.reg (rb i)))) _ (v.ctd id) in
    elim (Bool-cases (leb max_timers id)) [
      | inl e ↦ rw e (Framed-refl i v)
      | inr e ↦ rw e (
          set_a-Framed-trans _
            (Framed-quiet v refl (λ h. h) refl refl v.pc_word v.ctu
              (update_counter-lt _ id _ v.ctd hc) v.ctud)
            (to_nat-lt _))
    ]

pub op_ctud-KeepsFrame : KeepsFrame op_ctud
unfolding op_ctud
op_ctud-KeepsFrame vm i v =
    let id = vm.reg (ra i) in
    let up = rises (vm.ctud_prev_up id) (nonzero (vm.reg (rb i))) in
    let down = rises (vm.ctud_prev_down id) (nonzero (vm.reg (rc i))) in
    let hc = count_down-lt down _ (count_up-lt up _ (v.ctud id)) in
    elim (Bool-cases (leb max_timers id)) [
      | inl e ↦ rw e (Framed-refl i v)
      | inr e ↦ rw e (
          set_a-Framed-trans _
            (Framed-quiet v refl (λ h. h) refl refl v.pc_word v.ctu v.ctd
              (update_counter-lt _ id _ v.ctud hc))
            hc)
    ]
