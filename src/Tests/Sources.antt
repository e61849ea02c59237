-- ===== src/Tests/Sources.antt =====
-- Sources of programs, and the text of instructions.
use virtual_machine.Prelude.{
  ℕ, zero, suc, Bool, true, false, not, ◌+◌, ◌-◌, ◌*◌, ◌<◌, ◌≡◌, ◌==◌, ◌&&◌, leb, arith, refl,
  if◌then◌else◌, Bool-cases, inl, inr, some, List, [], ◌∷◌, ◌++◌, map, length, get_elem?,
}
use virtual_machine.Machine.{VmState, mr32}
use virtual_machine.Instruction.{opc, fimm}
use virtual_machine.Assembler.{
  ℤ, pos, negsuc, assemble, assemble_line, mnemonic, parse_register, parse_c, register_number,
  check_reg_range, check_must_reg, must_reg, allows_imm, low8,
}
use virtual_machine.Assembler.Opcodes.{
  codes, op_table, opcode_from_name, find_opcode, same_name, to_lower,
}
use virtual_machine.Assembler.Text.{
  Signed, word, outcome, bytes_of, source_line, trimmed_line, instruction, strtok, first_token,
  take_until, drop_until, operand, classify, parse_reg, parse_immediate, parsed, to_int,
  assemble_lines, write_word, assemble_file, read_lines, fgets,
}
use virtual_machine.Assembler.Tokens.{source_line-comment}
use virtual_machine.Assembler.Files.{concat}
use virtual_machine.Loader.{load_programs}
use virtual_machine.Toolchain.{
  accepted, none_refused, assemble_lines-accepted, whole_file, program_words,
}
use virtual_machine.Instruction.Encoding.{encode, c_field}
use virtual_machine.Debug.{fprintf_inst, decimal, decimal_digits}
use virtual_machine.Debug.Reassembly.{ReadsDecimals, source_line-inverse}
use virtual_machine.Debug.Listing.{IsTaken, listing, assemble_file-listing}
use virtual_machine.Tests.Running.{loaded}

-- The number of a decimal numeral.
abbrev number : List ℕ → ℕ → ℕ
number [] n = n
number (c ∷ s) n = number s (n * 10 + (c - b'0'))

abbrev unsigned : List ℕ → Signed
unsigned s = record { value = pos (number s 0); end_at_start = false; fails = false }

abbrev negated : ℕ → ℤ
negated zero = pos 0
negated (suc n) = negsuc n

abbrev signed_number : List ℕ → Signed
signed_number [] = record { value = pos 0; end_at_start = true; fails = false }
signed_number (c ∷ s) =
    if c == b'-'
    then record { value = negated (number s 0); end_at_start = false; fails = false }
    else if leb b'0' c && leb c b'9'
    then unsigned (c ∷ s)
    else record { value = pos 0; end_at_start = true; fails = false }

-- The numbers below a bound are read back.
abbrev is_number : ℕ → Signed → Bool
is_number n r = elim r.value [
  | pos m ↦ m == n && (not r.end_at_start && not r.fails)
  | negsuc m ↦ false
]

abbrev is_negative : ℕ → Signed → Bool
is_negative n r = elim r.value [
  | pos m ↦ false
  | negsuc m ↦ m == n && (not r.end_at_start && not r.fails)
]

all_read : ℕ → Bool
all_read zero = true
all_read (suc n) = is_number n (signed_number (decimal n)) && all_read n

all_negative : ℕ → Bool
all_negative zero = true
all_negative (suc n) = is_negative n (signed_number (b'-' ∷ decimal (n + 1))) && all_negative n

read_checked : (all_read 256 ≡ true) × (all_negative 128 ≡ true)
unfolding all_read all_negative decimal decimal_digits
read_checked = (refl, refl)

is_number_lem :
    (n : ℕ) (v : ℤ) (a b : Bool)
    → is_number n (record { value = v; end_at_start = a; fails = b }) ≡ true
    → ◌≡◌ {A = Signed}
        (record { value = v; end_at_start = a; fails = b })
        (record { value = pos n; end_at_start = false; fails = false })
is_number_lem n (pos m) a b h = ground (arith, h)
is_number_lem n (negsuc m) a b h = absurd (cc)

is_negative_lem :
    (n : ℕ) (v : ℤ) (a b : Bool)
    → is_negative n (record { value = v; end_at_start = a; fails = b }) ≡ true
    → ◌≡◌ {A = Signed}
        (record { value = v; end_at_start = a; fails = b })
        (record { value = negsuc n; end_at_start = false; fails = false })
is_negative_lem n (pos m) a b h = absurd (cc)
is_negative_lem n (negsuc m) a b h = ground (arith, h)

read_below :
    (n bound : ℕ)
    → all_read bound ≡ true
    → n < bound
    → is_number n (signed_number (decimal n)) ≡ true
unfolding all_read
read_below n zero h lt = absurd (omega arith)
read_below n (suc m) h lt = elim (Bool-cases (n == m)) [
  | inl e ↦ ground (arith, h, e)
  | inr e ↦ ground (arith, h, e, read_below n m)
]

negative_below :
    (n bound : ℕ)
    → all_negative bound ≡ true
    → n < bound
    → is_negative n (signed_number (b'-' ∷ decimal (n + 1))) ≡ true
unfolding all_negative
negative_below n zero h lt = absurd (omega arith)
negative_below n (suc m) h lt = elim (Bool-cases (n == m)) [
  | inl e ↦ ground (arith, h, e)
  | inr e ↦ ground (arith, h, e, negative_below n m)
]

signed_number-ReadsDecimals : ReadsDecimals signed_number
signed_number-ReadsDecimals = record {
  reads = λ n lt.
      is_number_lem n (signed_number (decimal n)).value (signed_number (decimal n)).end_at_start
        (signed_number (decimal n)).fails (read_below n 256 (read_checked.0) (omega (arith, lt)));
  reads_minus = λ n lt.
      let r = signed_number (b'-' ∷ decimal (n + 1)) in
      is_negative_lem n r.value r.end_at_start r.fails
        (negative_below n 128 (read_checked.1) (omega (arith, lt)));
}

-- SUB R1, R2, #-5
abbrev sub_word : ℕ
sub_word = 33687035

source_line-inverse_example :
    source_line signed_number false (fprintf_inst sub_word ++ b'\n' ∷ []) ≡ word sub_word
unfolding opc fimm op_table allows_imm
source_line-inverse_example =
    source_line-inverse signed_number signed_number-ReadsDecimals false sub_word (omega arith)
      (omega arith) refl

sub_word-IsTaken : IsTaken false sub_word
unfolding opc fimm op_table allows_imm
sub_word-IsTaken = record { bound = omega arith; known = omega arith; kept = refl; allowed = refl }

assemble_file-listing_example :
    assemble_file signed_number false (listing (sub_word ∷ sub_word ∷ []))
    ≡ record { output = concat (map bytes_of (sub_word ∷ sub_word ∷ [])); succeeds = true }
assemble_file-listing_example =
    assemble_file-listing signed_number signed_number-ReadsDecimals false (sub_word ∷ sub_word ∷ [])
      (sub_word-IsTaken, (sub_word-IsTaken, tt))

source_line-comment_example :
    source_line signed_number false (codes "NOP " ++ b';' ∷ codes " to do")
    ≡ source_line signed_number false (codes "NOP ")
source_line-comment_example =
    source_line-comment signed_number false (codes "NOP ") (codes " to do")
      (refl, (refl, (refl, (refl, tt)))) (refl, (refl, (refl, (refl, tt))))

-- The second line has no instruction of that name.
abbrev bad_lines : List (List ℕ)
bad_lines = codes "ADD R1, R2" ∷ codes "JUMP R1" ∷ codes "NOP" ∷ []

assemble_lines-accepted_example :
    let os = map (source_line signed_number false) bad_lines in
    assemble_lines signed_number false bad_lines
    ≡ record { output = concat (map bytes_of (accepted os)); succeeds = none_refused os }
assemble_lines-accepted_example = assemble_lines-accepted signed_number false bad_lines

bad_lines_written :
    assemble_lines signed_number false bad_lines
    ≡ record { output = bytes_of 132096; succeeds = false }
unfolding assemble_lines source_line trimmed_line instruction strtok first_token take_until
    drop_until operand classify parse_reg parse_immediate parsed to_int outcome write_word bytes_of
    assemble_line mnemonic same_name to_lower opcode_from_name find_opcode op_table assemble
    parse_register register_number check_reg_range parse_c check_must_reg must_reg low8 encode
    c_field
bad_lines_written = refl

-- A comment, then one instruction.
abbrev small_source : List ℕ
small_source = codes "; start" ++ b'\n' ∷ codes "NOP" ++ b'\n' ∷ []

small_source_succeeds : (assemble_file signed_number false small_source).succeeds ≡ true
unfolding assemble_file read_lines fgets assemble_lines source_line trimmed_line instruction strtok
    first_token take_until drop_until operand classify outcome write_word bytes_of assemble_line
    mnemonic same_name to_lower opcode_from_name find_opcode op_table assemble parse_register
    parse_c check_must_reg must_reg encode c_field
small_source_succeeds = refl

length-small_source : length (assemble_file signed_number false small_source).output ≡ 4
unfolding assemble_file read_lines fgets assemble_lines source_line trimmed_line instruction strtok
    first_token take_until drop_until operand classify outcome write_word bytes_of assemble_line
    mnemonic same_name to_lower opcode_from_name find_opcode op_table assemble parse_register
    parse_c check_must_reg must_reg encode c_field
length-small_source = refl

program_words_example :
    let made = assemble_file signed_number false small_source in
    let words =
      accepted
        (map (source_line signed_number false) (read_lines (length small_source) small_source)) in
    (vm' : VmState) × (load_programs loaded (some (whole_file made.output) ∷ []) ≡ (true, vm'))
    × ((j i : ℕ) → get_elem? words j ≡ some i → mr32 vm' (12288 + 4 * j) ≡ i)
program_words_example =
    program_words signed_number false small_source loaded small_source_succeeds
      (omega (arith, length-small_source))
