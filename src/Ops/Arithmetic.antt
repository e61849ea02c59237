-- ===== src/Ops/Arithmetic.antt =====
-- The arithmetic instructions of prototype-integrator/src/funcs.c.
use virtual_machine.Prelude.{
  ℕ, ◌+◌, ◌-◌, ◌*◌, ◌/◌, ◌%◌, ◌^◌, ◌<◌, ◌≡◌, ◌⊎◌, inl, inr, Bool-cases, arith, ◌==◌, ltb,
  if◌then◌else◌,
}
use virtual_machine.Word.{u32_mod, add32, sub32, mul32}
use virtual_machine.Host.{Host, GivesWords}
use virtual_machine.Instruction.{ra}
use virtual_machine.Machine.{VmState, bv, cv_or_imm, set_a}
use virtual_machine.Machine.Frame.{KeepsFrame, set_a-Framed, bv-lt}

unfoldable pub op_add : VmState → ℕ → VmState
unfolding add32
op_add vm i = set_a vm i (add32 (bv vm i) (cv_or_imm vm i))

unfoldable pub op_sub : VmState → ℕ → VmState
unfolding sub32
op_sub vm i = set_a vm i (sub32 (bv vm i) (cv_or_imm vm i))

unfoldable pub op_mul : VmState → ℕ → VmState
unfolding mul32
op_mul vm i = set_a vm i (mul32 (bv vm i) (cv_or_imm vm i))

unfoldable pub op_div : VmState → ℕ → VmState
op_div vm i = let c = cv_or_imm vm i in set_a vm i (if c == 0 then 0 else bv vm i / c)

unfoldable pub op_mod : VmState → ℕ → VmState
op_mod vm i = let c = cv_or_imm vm i in set_a vm i (if c == 0 then 0 else bv vm i % c)

-- `abs` of the most negative number is left to the machine, which gives it back.
unfoldable pub abs32 : ℕ → ℕ
abs32 x = if ltb x (2 ^ 31) then x else u32_mod - x

unfoldable pub op_abs : VmState → ℕ → VmState
unfolding abs32
op_abs vm i = set_a vm i (abs32 (bv vm i))

module _ (host : Host) where
  unfoldable pub op_expt : VmState → ℕ → VmState
  op_expt vm i = set_a vm i (host.pow (bv vm i) (cv_or_imm vm i))

  unfoldable pub op_sqrt : VmState → ℕ → VmState
  op_sqrt vm i = set_a vm i (host.sqrt (bv vm i))

  unfoldable pub op_ln : VmState → ℕ → VmState
  op_ln vm i = set_a vm i (host.log (bv vm i))

  unfoldable pub op_log : VmState → ℕ → VmState
  op_log vm i = set_a vm i (host.log10 (bv vm i))

  unfoldable pub op_exp : VmState → ℕ → VmState
  op_exp vm i = set_a vm i (host.exp (bv vm i))

  unfoldable pub op_sin : VmState → ℕ → VmState
  op_sin vm i = set_a vm i (host.sin (bv vm i))

  unfoldable pub op_cos : VmState → ℕ → VmState
  op_cos vm i = set_a vm i (host.cos (bv vm i))

  unfoldable pub op_tan : VmState → ℕ → VmState
  op_tan vm i = set_a vm i (host.tan (bv vm i))

  unfoldable pub op_asin : VmState → ℕ → VmState
  op_asin vm i = set_a vm i (host.asin (bv vm i))

  unfoldable pub op_acos : VmState → ℕ → VmState
  op_acos vm i = set_a vm i (host.acos (bv vm i))

  unfoldable pub op_atan : VmState → ℕ → VmState
  op_atan vm i = set_a vm i (host.atan (bv vm i))

pub op_add-KeepsFrame : KeepsFrame op_add
unfolding op_add
op_add-KeepsFrame vm i v = set_a-Framed vm i _ v (omega arith)

pub op_sub-KeepsFrame : KeepsFrame op_sub
unfolding op_sub
op_sub-KeepsFrame vm i v = set_a-Framed vm i _ v (omega arith)

pub op_mul-KeepsFrame : KeepsFrame op_mul
unfolding op_mul
op_mul-KeepsFrame vm i v = set_a-Framed vm i _ v (omega arith)

div-lt : (b c n : ℕ) → b < n → (if c == 0 then 0 else b / c) < n
div-lt b c n h = ground arith

mod-lt : (b c n : ℕ) → b < n → (if c == 0 then 0 else b % c) < n
mod-lt b c n h = ground arith

pub op_div-KeepsFrame : KeepsFrame op_div
unfolding op_div
op_div-KeepsFrame vm i v = set_a-Framed vm i _ v (div-lt _ (cv_or_imm vm i) _ (bv-lt vm i v))

pub op_mod-KeepsFrame : KeepsFrame op_mod
unfolding op_mod
op_mod-KeepsFrame vm i v = set_a-Framed vm i _ v (mod-lt _ (cv_or_imm vm i) _ (bv-lt vm i v))

abs32-lt : (x : ℕ) → x < u32_mod → abs32 x < u32_mod
unfolding abs32
abs32-lt x h = ground arith

pub op_abs-KeepsFrame : KeepsFrame op_abs
unfolding op_abs
op_abs-KeepsFrame vm i v = set_a-Framed vm i _ v (abs32-lt _ (bv-lt vm i v))

module _ (host : Host) (words : GivesWords host) where
  pub op_expt-KeepsFrame : KeepsFrame (op_expt host)
  unfolding op_expt
  op_expt-KeepsFrame vm i v = set_a-Framed vm i _ v (words.pow_word _ _)

  pub op_sqrt-KeepsFrame : KeepsFrame (op_sqrt host)
  unfolding op_sqrt
  op_sqrt-KeepsFrame vm i v = set_a-Framed vm i _ v (words.sqrt_word _)

  pub op_ln-KeepsFrame : KeepsFrame (op_ln host)
  unfolding op_ln
  op_ln-KeepsFrame vm i v = set_a-Framed vm i _ v (words.log_word _)

  pub op_log-KeepsFrame : KeepsFrame (op_log host)
  unfolding op_log
  op_log-KeepsFrame vm i v = set_a-Framed vm i _ v (words.log10_word _)

  pub op_exp-KeepsFrame : KeepsFrame (op_exp host)
  unfolding op_exp
  op_exp-KeepsFrame vm i v = set_a-Framed vm i _ v (words.exp_word _)

  pub op_sin-KeepsFrame : KeepsFrame (op_sin host)
  unfolding op_sin
  op_sin-KeepsFrame vm i v = set_a-Framed vm i _ v (words.sin_word _)

  pub op_cos-KeepsFrame : KeepsFrame (op_cos host)
  unfolding op_cos
  op_cos-KeepsFrame vm i v = set_a-Framed vm i _ v (words.cos_word _)

  pub op_tan-KeepsFrame : KeepsFrame (op_tan host)
  unfolding op_tan
  op_tan-KeepsFrame vm i v = set_a-Framed vm i _ v (words.tan_word _)

  pub op_asin-KeepsFrame : KeepsFrame (op_asin host)
  unfolding op_asin
  op_asin-KeepsFrame vm i v = set_a-Framed vm i _ v (words.asin_word _)

  pub op_acos-KeepsFrame : KeepsFrame (op_acos host)
  unfolding op_acos
  op_acos-KeepsFrame vm i v = set_a-Framed vm i _ v (words.acos_word _)

  pub op_atan-KeepsFrame : KeepsFrame (op_atan host)
  unfolding op_atan
  op_atan-KeepsFrame vm i v = set_a-Framed vm i _ v (words.atan_word _)

-- DIV and MOD write the quotient and the remainder; for a divisor of 0 both write 0.
pub op_div-op_mod :
    (vm : VmState) (i : ℕ)
    → let q = (op_div vm i).reg (ra i) in
      let r = (op_mod vm i).reg (ra i) in
      let c = cv_or_imm vm i in ((q * c + r ≡ bv vm i) × (r < c)) ⊎ ((c ≡ 0) × (q ≡ 0) × (r ≡ 0))
unfolding op_div op_mod set_a
op_div-op_mod vm i = elim (Bool-cases (cv_or_imm vm i == 0)) [
  | inl e ↦ inr (grind arith)
  | inr e ↦ inl (grind arith)
]

-- SUB of the operand that ADD added, on the sum of the two words, gives the first operand back,
-- whatever wrapped.
pub op_sub-op_add :
    (vm : VmState) (i j : ℕ)
    → bv vm i < u32_mod
    → cv_or_imm vm i < u32_mod
    → bv (op_add vm i) j ≡ (op_add vm i).reg (ra i)
    → cv_or_imm (op_add vm i) j ≡ cv_or_imm vm i
    → (op_sub (op_add vm i) j).reg (ra j) ≡ bv vm i
unfolding op_add op_sub set_a
op_sub-op_add vm i j hb hc eb ec = ground arith
