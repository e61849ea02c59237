-- ===== src/Ops/Counters/Runs.antt =====
-- What the counters hold after a sequence of scans. One scan loads the number of the counter and
-- its inputs into the operand registers, as a program does, and executes the instruction.
use virtual_machine.Prelude.{
  ℕ, Bool, ◌+◌, ◌-◌, ◌≤◌, ◌<◌, ◌≡◌, ◌≢◌, ap, arith, min, to_nat, update, List, [], ◌∷◌,
}
use virtual_machine.Word.{u32_max}
use virtual_machine.Instruction.{ra, rb, rc}
use virtual_machine.Machine.{VmState, max_timers, set_a}
use virtual_machine.Ops.Counters.{rises, op_ctu, op_ctd, op_ctud}

-- The rising edges of an input, after `prev`.
abbrev pub rising_edges : Bool → List Bool → ℕ
rising_edges prev [] = 0
rising_edges prev (b ∷ bs) = to_nat (rises prev b) + rising_edges b bs

-- The operands of one scan: the number in A, the input in B.
abbrev pub load : VmState → ℕ → ℕ → Bool → VmState
load vm i id input = record vm { reg = update (update vm.reg (ra i) id) (rb i) (to_nat input) }

abbrev pub scan_all : (VmState → ℕ → VmState) → ℕ → ℕ → VmState → List Bool → VmState
scan_all op i id vm [] = vm
scan_all op i id vm (b ∷ bs) = scan_all op i id (op (load vm i id b) i) bs

-- The operands of one scan of CTUD, and a sequence of such scans.
abbrev pub load_both : VmState → ℕ → ℕ → Bool → Bool → VmState
load_both vm i id up down = record vm {
  reg = update (update (update vm.reg (ra i) id) (rb i) (to_nat up)) (rc i) (to_nat down);
}

abbrev pub scan_both : ℕ → ℕ → VmState → List (Bool × Bool) → VmState
scan_both i id vm [] = vm
scan_both i id vm ((u, d) ∷ bs) = scan_both i id (op_ctud (load_both vm i id u d) i) bs

abbrev pub ups : List (Bool × Bool) → List Bool
ups [] = []
ups ((u, d) ∷ bs) = u ∷ ups bs

abbrev pub downs : List (Bool × Bool) → List Bool
downs [] = []
downs ((u, d) ∷ bs) = d ∷ downs bs

module _ (i id : ℕ) (distinct : ra i ≢ rb i) (small : id < max_timers) where
  ctu_scan :
      (vm : VmState) (b : Bool)
      → (vm.ctu_counters id).value ≤ u32_max
      → let vm' = op_ctu (load vm i id b) i in
        ((vm'.ctu_counters id).value
          ≡ min u32_max ((vm.ctu_counters id).value + to_nat (rises (vm.ctu_prev_input id) b)))
        × (vm'.ctu_prev_input id ≡ b)
  unfolding op_ctu set_a
  ctu_scan vm b h = ground arith

  ctd_scan :
      (vm : VmState) (b : Bool)
      → let vm' = op_ctd (load vm i id b) i in
        ((vm'.ctd_counters id).value
          ≡ (vm.ctd_counters id).value - to_nat (rises (vm.ctd_prev_input id) b))
        × (vm'.ctd_prev_input id ≡ b)
  unfolding op_ctd set_a
  ctd_scan vm b = ground arith

  -- Over scans with the number of the counter, below MAX_TIMERS, in A and the input in another
  -- register B, CTU adds the rising edges of its input to its value, a word, and stays at the
  -- largest word.
  pub ctu_counts :
      (vm : VmState) (bs : List Bool)
      → (vm.ctu_counters id).value ≤ u32_max
      → ((scan_all op_ctu i id vm bs).ctu_counters id).value
        ≡ min u32_max ((vm.ctu_counters id).value + rising_edges (vm.ctu_prev_input id) bs)
  ctu_counts vm [] h = omega arith
  ctu_counts vm (b ∷ bs) h =
      let vm' = op_ctu (load vm i id b) i in
      let (value, prev) = ctu_scan vm b h in
      let rest = ctu_counts vm' bs (omega arith) in
      omega (arith, rest, value, ap (λ p. rising_edges p bs) prev)

  -- Over scans with the number of the counter, below MAX_TIMERS, in A and the input in another
  -- register B, CTD takes the rising edges of its input from its value, and stays at 0.
  ctd_counts :
      (vm : VmState) (bs : List Bool)
      → ((scan_all op_ctd i id vm bs).ctd_counters id).value
        ≡ (vm.ctd_counters id).value - rising_edges (vm.ctd_prev_input id) bs
  ctd_counts vm [] = omega arith
  ctd_counts vm (b ∷ bs) =
      let vm' = op_ctd (load vm i id b) i in
      let (value, prev) = ctd_scan vm b in
      omega (arith, ctd_counts vm' bs, value, ap (λ p. rising_edges p bs) prev)

  module _ (distinct_a : ra i ≢ rc i) (distinct_b : rb i ≢ rc i) where
    ctud_scan :
        (vm : VmState) (u d : Bool)
        → (vm.ctud_counters id).value ≤ u32_max
        → let up = to_nat (rises (vm.ctud_prev_up id) u) in
          let down = to_nat (rises (vm.ctud_prev_down id) d) in
          let v = (vm.ctud_counters id).value in
          let vm' = op_ctud (load_both vm i id u d) i in
          ((vm'.ctud_counters id).value ≡ min u32_max (v + up) - down)
          × (vm'.ctud_prev_up id ≡ u)
          × (vm'.ctud_prev_down id ≡ d)
    unfolding op_ctud set_a
    ctud_scan vm u d h = ground arith

    -- Over scans with the number of the counter, below MAX_TIMERS, in A and the inputs in two other
    -- registers B and C, CTUD holds its value plus the rising edges of the up input less those of
    -- the down input, if the former sum is a word and the latter are no more than the value.
    pub ctud_counts :
        (vm : VmState) (bs : List (Bool × Bool))
        → (vm.ctud_counters id).value + rising_edges (vm.ctud_prev_up id) (ups bs) ≤ u32_max
        → rising_edges (vm.ctud_prev_down id) (downs bs) ≤ (vm.ctud_counters id).value
        → ((scan_both i id vm bs).ctud_counters id).value
            + rising_edges (vm.ctud_prev_down id) (downs bs)
          ≡ (vm.ctud_counters id).value + rising_edges (vm.ctud_prev_up id) (ups bs)
    ctud_counts vm [] h k = omega arith
    ctud_counts vm ((u, d) ∷ bs) h k =
        let vm' = op_ctud (load_both vm i id u d) i in
        let (value, up, down) = ctud_scan vm u d (omega arith) in
        let e = ap (λ p. rising_edges p (ups bs)) up in
        let f = ap (λ p. rising_edges p (downs bs)) down in
        let rest =
          ctud_counts vm' bs (omega (arith, e, value, h, k)) (omega (arith, f, value, h, k)) in
        omega (arith, rest, value, e, f, h, k)
