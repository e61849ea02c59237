-- ===== src/OpTable.antt =====
-- The table of instructions of prototype-integrator/src/vm_lifecycle.c.
pub mod Frame
use virtual_machine.Prelude.{ℕ, List, [], ◌∷◌, Option, get_elem?}
use virtual_machine.Host.{Host}
use virtual_machine.Machine.{VmState}
use virtual_machine.Ops.Arithmetic.{
  op_add, op_sub, op_mul, op_div, op_mod, op_expt, op_abs, op_sqrt, op_ln, op_log, op_exp, op_sin,
  op_cos, op_tan, op_asin, op_acos, op_atan,
}
use virtual_machine.Ops.Logic.{
  op_and, op_or, op_xor, op_not, op_eq, op_ne, op_gt, op_ge, op_lt, op_le,
}
use virtual_machine.Ops.Clock.{
  op_time, op_date, op_tod, op_dt, op_add_time, op_sub_time, op_year, op_month, op_day, op_hour,
  op_minute, op_second,
}
use virtual_machine.Ops.Strings.{
  op_len, op_concat, op_left, op_right, op_mid, op_insert, op_delete, op_replace,
}
use virtual_machine.Ops.TimerOps.{op_ton, op_tof, op_tp}
use virtual_machine.Ops.Counters.{op_ctu, op_ctd, op_ctud}
use virtual_machine.Ops.Select.{op_limit, op_sel, op_mux, op_demux}
use virtual_machine.Ops.Edges.{
  op_rising_edge, op_falling_edge, op_edge_both, op_rs_latch, op_sr_latch,
}
use virtual_machine.Ops.Control.{op_jmp, op_jmp_if, op_jmp_if_not, op_exit, op_halt, op_nop}

abbrev pub Handler : Type 0
Handler = VmState → ℕ → VmState

unfoldable pub default_op_ex : Host → List Handler
default_op_ex host =
    op_add
    ∷ op_sub
    ∷ op_mul
    ∷ op_div
    ∷ op_mod
    ∷ op_expt host
    ∷ op_abs
    ∷ op_sqrt host
    ∷ op_ln host
    ∷ op_log host
    ∷ op_exp host
    ∷ op_sin host
    ∷ op_cos host
    ∷ op_tan host
    ∷ op_asin host
    ∷ op_acos host
    ∷ op_atan host
    ∷ op_and
    ∷ op_or
    ∷ op_xor
    ∷ op_not
    ∷ op_eq
    ∷ op_ne
    ∷ op_gt
    ∷ op_ge
    ∷ op_lt
    ∷ op_le
    ∷ op_time host
    ∷ op_date host
    ∷ op_tod host
    ∷ op_dt host
    ∷ op_add_time
    ∷ op_sub_time
    ∷ op_year host
    ∷ op_month host
    ∷ op_day host
    ∷ op_hour host
    ∷ op_minute host
    ∷ op_second host
    ∷ op_len
    ∷ op_concat
    ∷ op_left
    ∷ op_right
    ∷ op_mid
    ∷ op_insert
    ∷ op_delete
    ∷ op_replace
    ∷ op_ton
    ∷ op_tof
    ∷ op_tp
    ∷ op_ctu
    ∷ op_ctd
    ∷ op_ctud
    ∷ op_limit
    ∷ op_sel
    ∷ op_mux
    ∷ op_rising_edge
    ∷ op_falling_edge
    ∷ op_edge_both
    ∷ op_rs_latch
    ∷ op_sr_latch
    ∷ op_demux
    ∷ op_jmp
    ∷ op_jmp_if
    ∷ op_jmp_if_not
    ∷ op_exit
    ∷ op_halt
    ∷ op_nop
    ∷ []

-- `op_ex[opcode]`; the entries behind the table are null.
unfoldable pub op_ex : Host → ℕ → Option Handler
op_ex host opcode = get_elem? (default_op_ex host) opcode
