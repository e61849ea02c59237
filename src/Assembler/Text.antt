-- ===== src/Assembler/Text.antt =====
-- The reading of the source in `main` of prototype-integrator/tools/converter.c: lines, comments,
-- tokens and operands. Texts are lists of bytes; `strtol` of the C library is a parameter. The
-- messages on stderr and the failures to open and to write files are left out.
use virtual_machine.Prelude.{
  ℕ, zero, suc, Bool, true, false, not, ◌-◌, ◌%◌, ◌^◌, ◌||◌, ◌==◌, leb, ltb, if◌then◌else◌, Option,
  none, some, List, [], ◌∷◌, ◌++◌, length, drop,
}
use virtual_machine.Instruction.Encoding.{word_bytes}
use virtual_machine.Assembler.{
  ℤ, pos, negsuc, Token, missing, register, immediate, malformed, assemble_line,
}

-- The result of `strtol(s, &end, 0)`: the value, `end == s` and `errno != 0`.
pub record Signed : Type 0 where
  pub value : ℤ
  pub end_at_start : Bool
  pub fails : Bool

abbrev pub Strtol : Type 0
Strtol = List ℕ → Signed

-- `(int)v` of a `long`
unfoldable pub to_int : ℤ → ℤ
to_int (pos n) =
    if ltb (n % 2 ^ 32) (2 ^ 31) then pos (n % 2 ^ 32) else negsuc (2 ^ 32 - 1 - n % 2 ^ 32)
to_int (negsuc n) =
    if ltb (n % 2 ^ 32) (2 ^ 31) then negsuc (n % 2 ^ 32) else pos (2 ^ 32 - 1 - n % 2 ^ 32)

-- The bytes before the first that satisfies the test, and those from there on.
unfoldable pub take_until : (ℕ → Bool) → List ℕ → List ℕ
take_until stop [] = []
take_until stop (c ∷ s) = if stop c then [] else c ∷ take_until stop s

unfoldable pub drop_until : (ℕ → Bool) → List ℕ → List ℕ
drop_until stop [] = []
drop_until stop (c ∷ s) = if stop c then c ∷ s else drop_until stop s

abbrev pub is_nul : ℕ → Bool
is_nul c = c == 0

abbrev pub is_newline : ℕ → Bool
is_newline c = c == b'\n'

abbrev pub is_semicolon : ℕ → Bool
is_semicolon c = c == b';'

-- `isspace` in the "C" locale
abbrev pub is_space : ℕ → Bool
is_space c = c == b' ' || (if leb 9 c then leb c 13 else false)

-- The delimiters of the calls of `strtok`.
abbrev pub is_delimiter : ℕ → Bool
is_delimiter c = c == b' ' || c == b'\t' || c == b','

-- The token at the start of a text without leading delimiters, and what `strtok` goes on with.
unfoldable pub first_token : List ℕ → Option (List ℕ) × List ℕ
unfolding take_until drop_until
first_token [] = (none, [])
first_token (c ∷ s) =
    (some (take_until is_delimiter (c ∷ s)), drop 1 (drop_until is_delimiter (c ∷ s)))

unfoldable pub strtok : List ℕ → Option (List ℕ) × List ℕ
unfolding first_token drop_until
strtok s = first_token (drop_until (λ c. not (is_delimiter c)) s)

-- The number behind the first letter of an operand.
unfoldable pub parsed : Signed → Option ℤ
unfolding to_int
parsed r = if r.end_at_start || r.fails then none else some (to_int r.value)

unfoldable pub parse_reg : Strtol → List ℕ → Option ℤ
unfolding parsed
parse_reg strtol [] = none
parse_reg strtol (c ∷ s) = if c == b'r' || c == b'R' then parsed (strtol s) else none

unfoldable pub parse_immediate : Strtol → List ℕ → Option ℤ
unfolding parsed
parse_immediate strtol [] = none
parse_immediate strtol (c ∷ s) = if c == b'#' then parsed (strtol s) else none

-- What the two parsers make of an operand.
unfoldable pub classify : Option ℤ → Option ℤ → Token
classify (some r) v = register r
classify none (some v) = immediate v
classify none none = malformed

unfoldable pub operand : Strtol → Option (List ℕ) → Token
unfolding classify parse_reg parse_immediate
operand strtol none = missing
operand strtol (some tok) = classify (parse_reg strtol tok) (parse_immediate strtol tok)

-- What becomes of a line: nothing, a word, or an error at which the assembler stops.
pub data Outcome : Type 0 where
  skipped refused : Outcome
  word : ℕ → Outcome

unfoldable pub outcome : Option ℕ → Outcome
outcome none = refused
outcome (some w) = word w

-- The mnemonic, and the rest of the line.
unfoldable pub instruction : Strtol → Bool → Option (List ℕ) × List ℕ → Outcome
instruction strtol raw_halt (none, rest) = skipped
instruction strtol raw_halt (some tok, rest) =
    let a = strtok rest in
    let b = strtok (a.1) in
    let c = strtok (b.1) in
    outcome (
      assemble_line raw_halt tok (operand strtol (a.0)) (operand strtol (b.0))
        (operand strtol (c.0)))

-- The line behind the white space at its start.
unfoldable pub trimmed_line : Strtol → Bool → List ℕ → Outcome
unfolding instruction strtok take_until
trimmed_line strtol raw_halt [] = skipped
trimmed_line strtol raw_halt (c ∷ p) =
    if is_newline c || is_semicolon c
    then skipped
    else instruction strtol raw_halt
        (strtok (take_until is_semicolon (take_until is_newline (c ∷ p))))

-- One round of the loop on a line that `fgets` delivers; a NUL byte ends the text.
unfoldable pub source_line : Strtol → Bool → List ℕ → Outcome
unfolding trimmed_line drop_until take_until
source_line strtol raw_halt line =
    trimmed_line strtol raw_halt (drop_until (λ c. not (is_space c)) (take_until is_nul line))

abbrev pub max_line : ℕ
max_line = 512

-- `fgets`: at most `n` bytes, up to and with a newline; and the rest of the file.
unfoldable pub fgets : ℕ → List ℕ → List ℕ × List ℕ
fgets zero input = ([], input)
fgets (suc n) [] = ([], [])
fgets (suc n) (c ∷ input) =
    let r = fgets n input in if is_newline c then (c ∷ [], input) else (c ∷ r.0, r.1)

-- The lines that the calls of `fgets` deliver; the length of the file is enough fuel.
unfoldable pub read_lines : ℕ → List ℕ → List (List ℕ)
unfolding fgets
read_lines zero input = []
read_lines (suc fuel) [] = []
read_lines (suc fuel) (c ∷ input) =
    let r = fgets (max_line - 1) (c ∷ input) in (r.0) ∷ read_lines fuel (r.1)

unfoldable pub bytes_of : ℕ → List ℕ
unfolding word_bytes
bytes_of w = word_bytes w 0 ∷ word_bytes w 1 ∷ word_bytes w 2 ∷ word_bytes w 3 ∷ []

-- The bytes written to the output, and whether `main` returns 0.
pub record Assembled : Type 0 where
  pub output : List ℕ
  pub succeeds : Bool

-- One round of the loop, with what the later rounds make.
unfoldable pub write_word : Outcome → Assembled → Assembled
unfolding bytes_of
write_word skipped rest = rest
write_word refused rest = record { output = []; succeeds = false }
write_word (word w) rest = record rest { output = bytes_of w ++ rest.output }

unfoldable pub assemble_lines : Strtol → Bool → List (List ℕ) → Assembled
unfolding source_line write_word
assemble_lines strtol raw_halt [] = record { output = []; succeeds = true }
assemble_lines strtol raw_halt (line ∷ lines) =
    write_word (source_line strtol raw_halt line) (assemble_lines strtol raw_halt lines)

-- The loop of `main` on the whole file.
unfoldable pub assemble_file : Strtol → Bool → List ℕ → Assembled
unfolding assemble_lines read_lines
assemble_file strtol raw_halt input =
    assemble_lines strtol raw_halt (read_lines (length input) input)
