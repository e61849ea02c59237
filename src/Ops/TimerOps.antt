-- ===== src/Ops/TimerOps.antt =====
-- TON, TOF and TP of prototype-integrator/src/funcs.c, over the `_set` and `_Q` functions of
-- prototype-integrator/src/timers.c.
use virtual_machine.Prelude.{
  ℕ, Bool, false, not, refl, leb, nonzero, to_nat, if◌then◌else◌, update, Bool-cases, inl, inr,
}
use virtual_machine.Timers.{
  IecTimer, update_ton, update_tof, update_tp, update_tonr, update_tofr, arm, zero_timer,
}
use virtual_machine.Instruction.{rb, rc, fimm, imm8}
use virtual_machine.Machine.{VmState, max_timers, set_a}
use virtual_machine.Machine.Frame.{
  Framed-refl, Framed-quiet, KeepsFrame, set_a-Framed-trans, to_nat-lt,
}

unfoldable pub timers_init : VmState → VmState
unfolding zero_timer
timers_init vm = record vm {
  ton_timers = λ _. zero_timer;
  tof_timers = λ _. zero_timer;
  tp_timers = λ _. zero_timer;
  tonr_timers = λ _. zero_timer;
  tofr_timers = λ _. zero_timer;
}

-- Entries from MAX_TIMERS on are not in the arrays, and stay.
unfoldable pub update_all_timers : VmState → VmState
update_all_timers vm =
    let each = λ (f : ℕ → IecTimer → IecTimer) (ts : ℕ → IecTimer) (k : ℕ).
      if leb max_timers k then ts k else f vm.time_ms (ts k) in
    record vm {
      ton_timers = each update_ton vm.ton_timers;
      tof_timers = each update_tof vm.tof_timers;
      tp_timers = each update_tp vm.tp_timers;
      tonr_timers = each update_tonr vm.tonr_timers;
      tofr_timers = each update_tofr vm.tofr_timers;
    }

unfoldable pub ton_set : VmState → ℕ → Bool → ℕ → VmState
unfolding arm
ton_set vm id input pt = if leb max_timers id then vm else record vm {
  ton_timers = update vm.ton_timers id (update_ton vm.time_ms (arm input pt (vm.ton_timers id)));
}

unfoldable pub ton_q : VmState → ℕ → Bool
ton_q vm id = if leb max_timers id then false else (vm.ton_timers id).output

unfoldable pub tof_set : VmState → ℕ → Bool → ℕ → VmState
unfolding arm
tof_set vm id input pt = if leb max_timers id then vm else record vm {
  tof_timers = update vm.tof_timers id (update_tof vm.time_ms (arm input pt (vm.tof_timers id)));
}

unfoldable pub tof_q : VmState → ℕ → Bool
tof_q vm id = if leb max_timers id then false else (vm.tof_timers id).output

unfoldable pub tp_set : VmState → ℕ → Bool → ℕ → VmState
unfolding arm
tp_set vm id input pt = if leb max_timers id then vm else record vm {
  tp_timers = update vm.tp_timers id (update_tp vm.time_ms (arm input pt (vm.tp_timers id)));
}

unfoldable pub tp_q : VmState → ℕ → Bool
tp_q vm id = if leb max_timers id then false else (vm.tp_timers id).output

unfoldable pub tonr_set : VmState → ℕ → Bool → ℕ → VmState
unfolding arm
tonr_set vm id input pt = if leb max_timers id then vm else record vm {
  tonr_timers =
      update vm.tonr_timers id (update_tonr vm.time_ms (arm input pt (vm.tonr_timers id)));
}

unfoldable pub tonr_q : VmState → ℕ → Bool
tonr_q vm id = if leb max_timers id then false else (vm.tonr_timers id).output

unfoldable pub tofr_set : VmState → ℕ → Bool → ℕ → VmState
unfolding arm
tofr_set vm id input pt = if leb max_timers id then vm else record vm {
  tofr_timers =
      update vm.tofr_timers id (update_tofr vm.time_ms (arm input pt (vm.tofr_timers id)));
}

unfoldable pub tofr_q : VmState → ℕ → Bool
tofr_q vm id = if leb max_timers id then false else (vm.tofr_timers id).output

unfoldable pub op_ton : VmState → ℕ → VmState
unfolding ton_set ton_q
op_ton vm i =
    let id = imm8 i in
    let vm₁ = ton_set vm id (nonzero (vm.reg (rb i))) (vm.reg (rc i)) in
    if not (fimm i)
    then vm
    else if leb max_timers id
    then vm
    else set_a vm₁ i (to_nat (ton_q vm₁ id))

unfoldable pub op_tof : VmState → ℕ → VmState
unfolding tof_set tof_q
op_tof vm i =
    let id = imm8 i in
    let vm₁ = tof_set vm id (nonzero (vm.reg (rb i))) (vm.reg (rc i)) in
    if not (fimm i)
    then vm
    else if leb max_timers id
    then vm
    else set_a vm₁ i (to_nat (tof_q vm₁ id))

unfoldable pub op_tp : VmState → ℕ → VmState
unfolding tp_set tp_q
op_tp vm i =
    let id = imm8 i in
    let vm₁ = tp_set vm id (nonzero (vm.reg (rb i))) (vm.reg (rc i)) in
    if not (fimm i)
    then vm
    else if leb max_timers id
    then vm
    else set_a vm₁ i (to_nat (tp_q vm₁ id))

pub op_ton-KeepsFrame : KeepsFrame op_ton
unfolding op_ton
op_ton-KeepsFrame vm i v = elim (Bool-cases (fimm i)) [
  | inl e ↦ elim (Bool-cases (leb max_timers (imm8 i))) [
    | inl f ↦ rw (e, f) (Framed-refl i v)
    | inr f ↦
        rw (e, f)
          (set_a-Framed-trans _
            (Framed-quiet v refl (λ h. h) refl refl v.pc_word v.ctu v.ctd v.ctud) (to_nat-lt _))
  ]
  | inr e ↦ rw e (Framed-refl i v)
]

pub op_tof-KeepsFrame : KeepsFrame op_tof
unfolding op_tof
op_tof-KeepsFrame vm i v = elim (Bool-cases (fimm i)) [
  | inl e ↦ elim (Bool-cases (leb max_timers (imm8 i))) [
    | inl f ↦ rw (e, f) (Framed-refl i v)
    | inr f ↦
        rw (e, f)
          (set_a-Framed-trans _
            (Framed-quiet v refl (λ h. h) refl refl v.pc_word v.ctu v.ctd v.ctud) (to_nat-lt _))
  ]
  | inr e ↦ rw e (Framed-refl i v)
]

pub op_tp-KeepsFrame : KeepsFrame op_tp
unfolding op_tp
op_tp-KeepsFrame vm i v = elim (Bool-cases (fimm i)) [
  | inl e ↦ elim (Bool-cases (leb max_timers (imm8 i))) [
    | inl f ↦ rw (e, f) (Framed-refl i v)
    | inr f ↦
        rw (e, f)
          (set_a-Framed-trans _
            (Framed-quiet v refl (λ h. h) refl refl v.pc_word v.ctu v.ctd v.ctud) (to_nat-lt _))
  ]
  | inr e ↦ rw e (Framed-refl i v)
]
