-- ===== src/OpTable/Frame.antt =====
-- Every instruction of the table keeps the frame of the machine.
use virtual_machine.Prelude.{ℕ, ◌≡◌, some, All, All-get_elem?, ◌&◌}
use virtual_machine.Host.{Host, GivesWords}
use virtual_machine.Machine.{VmState}
use virtual_machine.Machine.Frame.{IsValid, Framed, KeepsFrame}
use virtual_machine.OpTable.{Handler, default_op_ex, op_ex}
use virtual_machine.Ops.Arithmetic.{
  op_add-KeepsFrame, op_sub-KeepsFrame, op_mul-KeepsFrame, op_div-KeepsFrame, op_mod-KeepsFrame,
  op_expt-KeepsFrame, op_abs-KeepsFrame, op_sqrt-KeepsFrame, op_ln-KeepsFrame, op_log-KeepsFrame,
  op_exp-KeepsFrame, op_sin-KeepsFrame, op_cos-KeepsFrame, op_tan-KeepsFrame, op_asin-KeepsFrame,
  op_acos-KeepsFrame, op_atan-KeepsFrame,
}
use virtual_machine.Ops.Logic.{
  op_and-KeepsFrame, op_or-KeepsFrame, op_xor-KeepsFrame, op_not-KeepsFrame, op_eq-KeepsFrame,
  op_ne-KeepsFrame, op_gt-KeepsFrame, op_ge-KeepsFrame, op_lt-KeepsFrame, op_le-KeepsFrame,
}
use virtual_machine.Ops.Clock.{
  op_time-KeepsFrame, op_date-KeepsFrame, op_tod-KeepsFrame, op_dt-KeepsFrame,
  op_add_time-KeepsFrame, op_sub_time-KeepsFrame, op_year-KeepsFrame, op_month-KeepsFrame,
  op_day-KeepsFrame, op_hour-KeepsFrame, op_minute-KeepsFrame, op_second-KeepsFrame,
}
use virtual_machine.Ops.Strings.Frames.{
  op_len-KeepsFrame, op_concat-KeepsFrame, op_left-KeepsFrame, op_right-KeepsFrame,
  op_mid-KeepsFrame, op_insert-KeepsFrame, op_delete-KeepsFrame, op_replace-KeepsFrame,
}
use virtual_machine.Ops.TimerOps.{op_ton-KeepsFrame, op_tof-KeepsFrame, op_tp-KeepsFrame}
use virtual_machine.Ops.Counters.{op_ctu-KeepsFrame, op_ctd-KeepsFrame, op_ctud-KeepsFrame}
use virtual_machine.Ops.Select.{
  op_limit-KeepsFrame, op_sel-KeepsFrame, op_mux-KeepsFrame, op_demux-KeepsFrame,
}
use virtual_machine.Ops.Edges.{
  op_rising_edge-KeepsFrame, op_falling_edge-KeepsFrame, op_edge_both-KeepsFrame,
  op_rs_latch-KeepsFrame, op_sr_latch-KeepsFrame,
}
use virtual_machine.Ops.Control.{
  op_jmp-KeepsFrame, op_jmp_if-KeepsFrame, op_jmp_if_not-KeepsFrame, op_exit-KeepsFrame,
  op_halt-KeepsFrame, op_nop-KeepsFrame,
}

module _ (host : Host) (words : GivesWords host) where
  table-KeepsFrame : All KeepsFrame (default_op_ex host)
  unfolding default_op_ex
  table-KeepsFrame =
      op_add-KeepsFrame
      & op_sub-KeepsFrame
      & op_mul-KeepsFrame
      & op_div-KeepsFrame
      & op_mod-KeepsFrame
      & op_expt-KeepsFrame host words
      & op_abs-KeepsFrame
      & op_sqrt-KeepsFrame host words
      & op_ln-KeepsFrame host words
      & op_log-KeepsFrame host words
      & op_exp-KeepsFrame host words
      & op_sin-KeepsFrame host words
      & op_cos-KeepsFrame host words
      & op_tan-KeepsFrame host words
      & op_asin-KeepsFrame host words
      & op_acos-KeepsFrame host words
      & op_atan-KeepsFrame host words
      & op_and-KeepsFrame
      & op_or-KeepsFrame
      & op_xor-KeepsFrame
      & op_not-KeepsFrame
      & op_eq-KeepsFrame
      & op_ne-KeepsFrame
      & op_gt-KeepsFrame
      & op_ge-KeepsFrame
      & op_lt-KeepsFrame
      & op_le-KeepsFrame
      & op_time-KeepsFrame host
      & op_date-KeepsFrame host
      & op_tod-KeepsFrame host
      & op_dt-KeepsFrame host
      & op_add_time-KeepsFrame
      & op_sub_time-KeepsFrame
      & op_year-KeepsFrame host
      & op_month-KeepsFrame host
      & op_day-KeepsFrame host
      & op_hour-KeepsFrame host
      & op_minute-KeepsFrame host
      & op_second-KeepsFrame host
      & op_len-KeepsFrame
      & op_concat-KeepsFrame
      & op_left-KeepsFrame
      & op_right-KeepsFrame
      & op_mid-KeepsFrame
      & op_insert-KeepsFrame
      & op_delete-KeepsFrame
      & op_replace-KeepsFrame
      & op_ton-KeepsFrame
      & op_tof-KeepsFrame
      & op_tp-KeepsFrame
      & op_ctu-KeepsFrame
      & op_ctd-KeepsFrame
      & op_ctud-KeepsFrame
      & op_limit-KeepsFrame
      & op_sel-KeepsFrame
      & op_mux-KeepsFrame
      & op_rising_edge-KeepsFrame
      & op_falling_edge-KeepsFrame
      & op_edge_both-KeepsFrame
      & op_rs_latch-KeepsFrame
      & op_sr_latch-KeepsFrame
      & op_demux-KeepsFrame
      & op_jmp-KeepsFrame
      & op_jmp_if-KeepsFrame
      & op_jmp_if_not-KeepsFrame
      & op_exit-KeepsFrame
      & op_halt-KeepsFrame
      & op_nop-KeepsFrame
      & tt

  -- Whatever instruction of the table is executed on whatever operands, on a valid machine and a
  -- host that gives words: registers, counters and program counter stay 32-bit words and the memory
  -- bytes, no byte beyond the memory is written, no register but A changes, modules, configuration
  -- and the other settings of the machine stay, and a request to stop stays.
  pub op_ex-Framed :
      (opcode : ℕ) {op : Handler} (vm : VmState) (i : ℕ)
      → op_ex host opcode ≡ some op
      → IsValid vm
      → Framed i vm (op vm i)
  unfolding op_ex
  op_ex-Framed opcode vm i h v =
      All-get_elem? KeepsFrame (default_op_ex host) opcode table-KeepsFrame h vm i v
