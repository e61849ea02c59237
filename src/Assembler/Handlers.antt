-- ===== src/Assembler/Handlers.antt =====
-- The order of the assembler's table is that of the machine's.
use Prim.Native.String.{String}
use virtual_machine.Prelude.{ℕ, ◌≡◌, refl, Option, none, some, List, [], ◌∷◌, All, ◌&◌}
use virtual_machine.Host.{Host}
use virtual_machine.OpTable.{Handler, default_op_ex, op_ex}
use virtual_machine.Assembler.Opcodes.{
  codes, op_table, to_lower, same_name, find_opcode, opcode_from_name,
}
use virtual_machine.Ops.Arithmetic.{
  op_add, op_sub, op_mul, op_div, op_mod, op_expt, op_abs, op_sqrt, op_ln, op_log, op_exp, op_sin,
  op_cos, op_tan, op_asin, op_acos, op_atan,
}
use virtual_machine.Ops.Logic.{
  op_and, op_or, op_xor, op_not, op_eq, op_ne, op_gt, op_ge, op_lt, op_le,
}
use virtual_machine.Ops.Clock.{
  op_time, op_date, op_tod, op_dt, op_add_time, op_sub_time, op_year, op_month, op_day, op_hour,
  op_minute, op_second,
}
use virtual_machine.Ops.Strings.{
  op_len, op_concat, op_left, op_right, op_mid, op_insert, op_delete, op_replace,
}
use virtual_machine.Ops.TimerOps.{op_ton, op_tof, op_tp}
use virtual_machine.Ops.Counters.{op_ctu, op_ctd, op_ctud}
use virtual_machine.Ops.Select.{op_limit, op_sel, op_mux, op_demux}
use virtual_machine.Ops.Edges.{
  op_rising_edge, op_falling_edge, op_edge_both, op_rs_latch, op_sr_latch,
}
use virtual_machine.Ops.Control.{op_jmp, op_jmp_if, op_jmp_if_not, op_exit, op_halt, op_nop}

-- The handler that the machine finds for an opcode that the assembler may have found.
abbrev pub handler_at : Host → Option ℕ → Option Handler
handler_at host none = none
handler_at host (some k) = op_ex host k

-- The instructions by name.
abbrev pub named_handlers : Host → List (String × Handler)
named_handlers host =
    ("add", op_add)
    ∷ ("sub", op_sub)
    ∷ ("mul", op_mul)
    ∷ ("div", op_div)
    ∷ ("mod", op_mod)
    ∷ ("expt", op_expt host)
    ∷ ("abs", op_abs)
    ∷ ("sqrt", op_sqrt host)
    ∷ ("ln", op_ln host)
    ∷ ("log", op_log host)
    ∷ ("exp", op_exp host)
    ∷ ("sin", op_sin host)
    ∷ ("cos", op_cos host)
    ∷ ("tan", op_tan host)
    ∷ ("asin", op_asin host)
    ∷ ("acos", op_acos host)
    ∷ ("atan", op_atan host)
    ∷ ("and", op_and)
    ∷ ("or", op_or)
    ∷ ("xor", op_xor)
    ∷ ("not", op_not)
    ∷ ("eq", op_eq)
    ∷ ("ne", op_ne)
    ∷ ("gt", op_gt)
    ∷ ("ge", op_ge)
    ∷ ("lt", op_lt)
    ∷ ("le", op_le)
    ∷ ("time", op_time host)
    ∷ ("date", op_date host)
    ∷ ("tod", op_tod host)
    ∷ ("dt", op_dt host)
    ∷ ("add_time", op_add_time)
    ∷ ("sub_time", op_sub_time)
    ∷ ("year", op_year host)
    ∷ ("month", op_month host)
    ∷ ("day", op_day host)
    ∷ ("hour", op_hour host)
    ∷ ("minute", op_minute host)
    ∷ ("second", op_second host)
    ∷ ("len", op_len)
    ∷ ("concat", op_concat)
    ∷ ("left", op_left)
    ∷ ("right", op_right)
    ∷ ("mid", op_mid)
    ∷ ("insert", op_insert)
    ∷ ("delete", op_delete)
    ∷ ("replace", op_replace)
    ∷ ("ton", op_ton)
    ∷ ("tof", op_tof)
    ∷ ("tp", op_tp)
    ∷ ("ctu", op_ctu)
    ∷ ("ctd", op_ctd)
    ∷ ("ctud", op_ctud)
    ∷ ("limit", op_limit)
    ∷ ("sel", op_sel)
    ∷ ("mux", op_mux)
    ∷ ("rising_edge", op_rising_edge)
    ∷ ("falling_edge", op_falling_edge)
    ∷ ("edge_both", op_edge_both)
    ∷ ("rs_latch", op_rs_latch)
    ∷ ("sr_latch", op_sr_latch)
    ∷ ("demux", op_demux)
    ∷ ("jmp", op_jmp)
    ∷ ("jmp_if", op_jmp_if)
    ∷ ("jmp_if_not", op_jmp_if_not)
    ∷ ("exit", op_exit)
    ∷ ("halt", op_halt)
    ∷ ("nop", op_nop)
    ∷ []

-- For each of the 68 names, the opcode that the assembler finds for the name is the one at which
-- the machine finds the instruction of that name.
pub tables_agree :
    (host : Host)
    → All
        (λ row. handler_at host (opcode_from_name (codes (row.0))) ≡ some (row.1))
        (named_handlers host)
unfolding op_ex default_op_ex op_table to_lower same_name find_opcode opcode_from_name
tables_agree host =
    refl & refl & refl & refl & refl & refl & refl & refl & refl & refl & refl & refl & refl & refl
    & refl & refl & refl & refl & refl & refl & refl & refl & refl & refl & refl & refl & refl
    & refl & refl & refl & refl & refl & refl & refl & refl & refl & refl & refl & refl & refl
    & refl & refl & refl & refl & refl & refl & refl & refl & refl & refl & refl & refl & refl
    & refl & refl & refl & refl & refl & refl & refl & refl & refl & refl & refl & refl & refl
    & refl & refl & tt
