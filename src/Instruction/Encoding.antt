-- ===== src/Instruction/Encoding.antt =====
-- The word that the assembler of prototype-integrator/tools/converter.c writes for one line, and
-- the round trip through the decoder of the machine.
use virtual_machine.Prelude.{
  ℕ, zero, suc, Bool, true, false, ◌+◌, ◌-◌, ◌*◌, ◌/◌, ◌%◌, ◌^◌, ◌<◌, ◌≡◌, refl, arith, ◌==◌,
  Bool-cases, inl, inr, ltb, if◌then◌else◌,
}
use virtual_machine.Word.{u32_mod, sext}
use virtual_machine.Instruction.{opc, ra, rb, rc, fimm, imm8, sextimm8}

-- The third operand: a register or a signed immediate, the latter as its 8-bit two's complement
-- pattern, which is all of it that the assembler keeps.
pub data Operand : Type 0 where
  reg : ℕ → Operand
  imm : ℕ → Operand

-- The 9 low bits.
unfoldable pub c_field : Operand → ℕ
c_field (reg r) = r % 256
c_field (imm v) = 2 ^ 8 + v % 256

-- `word`; the fields do not overlap, so that `|` is a sum.
unfoldable pub encode : ℕ → ℕ → ℕ → Operand → ℕ
unfolding c_field
encode op a b c = (op * 2 ^ 25 + a % 256 * 2 ^ 17 + b % 256 * 2 ^ 9 + c_field c) % u32_mod

-- The four bytes that are written to the file.
unfoldable pub word_bytes : ℕ → ℕ → ℕ
word_bytes word k = word / 2 ^ (8 * k) % 256

-- The byte that an operand puts into the low byte of the word.
abbrev pub low_byte : Operand → ℕ
low_byte (reg r) = r
low_byte (imm v) = v

abbrev pub is_imm : Operand → Bool
is_imm (reg r) = false
is_imm (imm v) = true

-- The machine decodes the fields of every word that the assembler writes, for an opcode, register
-- numbers and a low byte that pass the assembler's range checks.
pub decode-encode :
    (op a b : ℕ) (c : Operand)
    → op < 128
    → a < 256
    → b < 256
    → low_byte c < 256
    → let i = encode op a b c in
      (opc i ≡ op)
      × (ra i ≡ a)
      × (rb i ≡ b)
      × (fimm i ≡ is_imm c)
      × (rc i ≡ low_byte c)
      × (imm8 i ≡ low_byte c)
unfolding opc ra rb fimm rc imm8 encode
decode-encode op a b (reg r) ho ha hb hc = ground arith
decode-encode op a b (imm v) ho ha hb hc = ground arith

-- Decoding is complete: a word below 2 ^ 32 is the encoding of its own fields.
pub encode-decode :
    (i : ℕ)
    → i < u32_mod
    → encode (opc i) (ra i) (rb i) (if fimm i then imm (imm8 i) else reg (rc i)) ≡ i
unfolding opc ra rb fimm rc imm8 encode
encode-decode i h = ground arith

-- The four bytes of a word are bytes, and give the word back little endian.
pub word_bytes_lem :
    (w : ℕ)
    → w < u32_mod
    → word_bytes w 0 + word_bytes w 1 * 2 ^ 8 + word_bytes w 2 * 2 ^ 16 + word_bytes w 3 * 2 ^ 24
      ≡ w
unfolding word_bytes
word_bytes_lem w h = omega arith

-- The value of an 8-bit pattern as a signed number, modulo 2 ^ 32.
abbrev pub signed8 : ℕ → ℕ
signed8 v = if ltb v 128 then v else u32_mod - 256 + v

-- That `sext` and `signed8` agree on the first `bound` patterns.
sext_agrees : ℕ → Bool
sext_agrees zero = true
sext_agrees (suc v) = if sext v 8 == signed8 v then sext_agrees v else false

sext_agrees_at : (v bound : ℕ) → sext_agrees bound ≡ true → v < bound → sext v 8 ≡ signed8 v
unfolding sext_agrees
sext_agrees_at v zero all lt = absurd (omega arith)
sext_agrees_at v (suc w) all lt = elim (Bool-cases (v == w)) [
  | inl e ↦ ground (arith, all, e)
  | inr e ↦ ground (arith, all, e, sext_agrees_at v w)
]

sext_checked : sext_agrees 256 ≡ true
unfolding sext_agrees sext
sext_checked = refl

-- SEXTIMM8 is the two's complement value of the low byte of the instruction.
pub sextimm8_lem : (i : ℕ) → sextimm8 i ≡ signed8 (i % 256)
unfolding sextimm8
sextimm8_lem i = sext_agrees_at (i % 256) 256 sext_checked (omega arith)

pub sextimm8-lt : (i : ℕ) → sextimm8 i < u32_mod
sextimm8-lt i = rw sextimm8_lem (ground arith)
