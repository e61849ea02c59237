-- ===== src/Toolchain.antt =====
-- From the source of a program to the words that the machine fetches: the assembler of
-- prototype-integrator/tools/converter.c, then the loader of prototype-integrator/src/loader.c.
use mathlib.Core.List.{append-nil}
use mathlib.Core.Path.{subst}
use mathlib.Core.Option.{some-injective}
use virtual_machine.Prelude.{
  ℕ, zero, suc, Bool, true, false, not, ◌+◌, ◌*◌, ◌<◌, ◌≤◌, ◌≡◌, refl, arith, sym, ap, ◌∙◌,
  if◌then◌else◌, Option, some, none, List, [], ◌∷◌, ◌++◌, map, length, get_elem?, All, ◌||◌,
}
use virtual_machine.Word.{u32_mod}
use virtual_machine.Machine.{VmState, mr32, mem_bytes}
use virtual_machine.Instruction.Encoding.{word_bytes, word_bytes_lem}
use virtual_machine.Hashing.{memory_bytes}
use virtual_machine.Assembler.Text.{
  Strtol, Outcome, skipped, refused, word, outcome, Assembled, bytes_of, source_line, write_word,
  assemble_lines, assemble_file, read_lines, instruction, trimmed_line, is_newline, is_semicolon,
  is_space, is_nul, take_until, drop_until,
}
use virtual_machine.Assembler.Words.{assemble_line-lt}
use virtual_machine.Loader.{OpenFile, load_programs}
use virtual_machine.Loader.Placed.{IsReadable, image, load_programs-placed}
use virtual_machine.Assembler.Files.{concat}

-- The words of the lines in front of the first that is refused.
abbrev pub accepted : List Outcome → List ℕ
accepted [] = []
accepted (skipped ∷ os) = accepted os
accepted (refused ∷ os) = []
accepted (word w ∷ os) = w ∷ accepted os

abbrev pub none_refused : List Outcome → Bool
none_refused [] = true
none_refused (skipped ∷ os) = none_refused os
none_refused (refused ∷ os) = false
none_refused (word w ∷ os) = none_refused os

written :
    (o : Outcome) (os : List Outcome)
    → write_word o
        (record { output = concat (map bytes_of (accepted os)); succeeds = none_refused os })
      ≡ record {
        output = concat (map bytes_of (accepted (o ∷ os)));
        succeeds = none_refused (o ∷ os);
      }
unfolding write_word
written skipped os = refl
written refused os = refl
written (word w) os = refl

-- The assembler writes the words of the lines in front of the first that it refuses, each as four
-- bytes, in order; lines that it skips write nothing, and it succeeds exactly if no line is
-- refused.
pub assemble_lines-accepted :
    (strtol : Strtol) (raw_halt : Bool) (lines : List (List ℕ))
    → let os = map (source_line strtol raw_halt) lines in
      assemble_lines strtol raw_halt lines
      ≡ record { output = concat (map bytes_of (accepted os)); succeeds = none_refused os }
unfolding assemble_lines
assemble_lines-accepted strtol raw_halt [] = refl
assemble_lines-accepted strtol raw_halt (l ∷ ls) =
    rw (assemble_lines-accepted strtol raw_halt ls)
      (written (source_line strtol raw_halt l) (map (source_line strtol raw_halt) ls))

-- The bytes of the first word, and what stands behind them.
held_word :
    (mem : ℕ → ℕ) (base w : ℕ) (rest : List ℕ)
    → memory_bytes mem base (length (bytes_of w ++ rest)) ≡ bytes_of w ++ rest
    → (mem base ≡ word_bytes w 0)
      × (mem (base + 1) ≡ word_bytes w 1)
      × (mem (base + 2) ≡ word_bytes w 2)
      × (mem (base + 3) ≡ word_bytes w 3)
      × (memory_bytes mem (base + 4) (length rest) ≡ rest)
unfolding memory_bytes bytes_of
held_word mem base w rest h =
    let two : base + 1 + 1 ≡ base + 2 = omega arith in
    let three : base + 1 + 1 + 1 ≡ base + 3 = omega arith in
    let four : base + 1 + 1 + 1 + 1 ≡ base + 4 = omega arith in
    let b₀ : mem base ≡ word_bytes w 0 = cc in
    let b₁ : mem (base + 1) ≡ word_bytes w 1 = cc in
    let b₂ : mem (base + 1 + 1) ≡ word_bytes w 2 = cc in
    let b₃ : mem (base + 1 + 1 + 1) ≡ word_bytes w 3 = cc in
    let r : memory_bytes mem (base + 1 + 1 + 1 + 1) (length rest) ≡ rest = cc in
    (
      b₀,
      b₁,
      ap mem (sym two) ∙ b₂,
      ap mem (sym three) ∙ b₃,
      ap (λ a. memory_bytes mem a (length rest)) (sym four) ∙ r,
    )

first_word :
    (vm : VmState) (base w : ℕ)
    → w < u32_mod
    → vm.mem base ≡ word_bytes w 0
    → vm.mem (base + 1) ≡ word_bytes w 1
    → vm.mem (base + 2) ≡ word_bytes w 2
    → vm.mem (base + 3) ≡ word_bytes w 3
    → mr32 vm base ≡ w
unfolding mr32
first_word vm base w lt b₀ b₁ b₂ b₃ = rw b₀ (rw b₁ (rw b₂ (rw b₃ (word_bytes_lem w lt))))

-- Memory that holds the bytes of words holds the words.
pub mr32-bytes_of :
    (vm : VmState) (base j i : ℕ) (is : List ℕ)
    → All (λ w. w < u32_mod) is
    → memory_bytes vm.mem base (length (concat (map bytes_of is))) ≡ concat (map bytes_of is)
    → get_elem? is j ≡ some i
    → mr32 vm (base + 4 * j) ≡ i
mr32-bytes_of vm base j i [] all held at = absurd (cc)
mr32-bytes_of vm base zero i (w ∷ is) all held at =
    let (b₀, b₁, b₂, b₃, r) = held_word vm.mem base w (concat (map bytes_of is)) held in
    let here : mr32 vm base ≡ w = first_word vm base w (all.0) b₀ b₁ b₂ b₃ in
    let e : base + 4 * 0 ≡ base = omega arith in ap (mr32 vm) e ∙ here ∙ some-injective _ _ at
mr32-bytes_of vm base (suc j) i (w ∷ is) all held at =
    let (b₀, b₁, b₂, b₃, r) = held_word vm.mem base w (concat (map bytes_of is)) held in
    let e : base + 4 * suc j ≡ base + 4 + 4 * j = omega arith in
    ap (mr32 vm) e ∙ mr32-bytes_of vm (base + 4) j i is (all.1) r at

all_step :
    (o : Outcome) (os : List Outcome)
    → ((w : ℕ) → o ≡ word w → w < u32_mod)
    → All (λ w. w < u32_mod) (accepted os)
    → All (λ w. w < u32_mod) (accepted (o ∷ os))
all_step skipped os small rest = rest
all_step refused os small rest = tt
all_step (word w) os small rest = (small w refl, rest)

outcome_inv : (o : Option ℕ) (w : ℕ) → outcome o ≡ word w → o ≡ some w
unfolding outcome
outcome_inv none w h = absurd (cc)
outcome_inv (some v) w h = cc

instruction-lt :
    (strtol : Strtol) (raw_halt : Bool) (t : Option (List ℕ) × List ℕ) (w : ℕ)
    → instruction strtol raw_halt t ≡ word w
    → w < u32_mod
unfolding instruction
instruction-lt strtol raw_halt (none, rest) w h = absurd (cc)
instruction-lt strtol raw_halt (some tok, rest) w h =
    assemble_line-lt raw_halt tok _ _ _ w (outcome_inv _ w h)

line_word :
    (b : Bool) (o : Outcome) (w : ℕ)
    → (if b then skipped else o) ≡ word w
    → (o ≡ word w → w < u32_mod)
    → w < u32_mod
line_word true o w h f = absurd (cc)
line_word false o w h f = f h

trimmed_line-lt :
    (strtol : Strtol) (raw_halt : Bool) (p : List ℕ) (w : ℕ)
    → trimmed_line strtol raw_halt p ≡ word w
    → w < u32_mod
unfolding trimmed_line
trimmed_line-lt strtol raw_halt [] w h = absurd (cc)
trimmed_line-lt strtol raw_halt (c ∷ p) w h =
    line_word (is_newline c || is_semicolon c) _ w h (λ k. instruction-lt strtol raw_halt _ w k)

source_line-lt :
    (strtol : Strtol) (raw_halt : Bool) (line : List ℕ) (w : ℕ)
    → source_line strtol raw_halt line ≡ word w
    → w < u32_mod
unfolding source_line
source_line-lt strtol raw_halt line w h =
    trimmed_line-lt strtol raw_halt (drop_until (λ c. not (is_space c)) (take_until is_nul line)) w
      h

accepted-lt :
    (strtol : Strtol) (raw_halt : Bool) (lines : List (List ℕ))
    → All (λ w. w < u32_mod) (accepted (map (source_line strtol raw_halt) lines))
accepted-lt strtol raw_halt [] = tt
accepted-lt strtol raw_halt (l ∷ ls) =
    all_step (source_line strtol raw_halt l) _ (source_line-lt strtol raw_halt l)
      (accepted-lt strtol raw_halt ls)

-- A file that is read to its end.
abbrev pub whole_file : List ℕ → OpenFile
whole_file bytes = record { seeks = true; fsize = length bytes; read = bytes }

-- A source that the assembler accepts, loaded as the only program on a machine with room for it
-- behind PC_START: the load succeeds, and the machine reads at PC_START + 4 j the word of the j-th
-- line that has one.
pub program_words :
    (strtol : Strtol) (raw_halt : Bool) (source : List ℕ) (vm : VmState)
    → let made = assemble_file strtol raw_halt source in
      let words =
        accepted (map (source_line strtol raw_halt) (read_lines (length source) source)) in
      made.succeeds ≡ true
      → vm.pc_start + length made.output ≤ mem_bytes
      → (vm' : VmState) × (load_programs vm (some (whole_file made.output) ∷ []) ≡ (true, vm'))
        × ((j i : ℕ) → get_elem? words j ≡ some i → mr32 vm' (vm.pc_start + 4 * j) ≡ i)
unfolding assemble_file
program_words strtol raw_halt source vm ok fits =
    let lines = read_lines (length source) source in
    let words = accepted (map (source_line strtol raw_halt) lines) in
    let made = assemble_file strtol raw_halt source in
    let e : made.output ≡ concat (map bytes_of words) =
      ap (λ (r : Assembled). r.output) (assemble_lines-accepted strtol raw_halt lines) in
    let readable : IsReadable (whole_file made.output) = record { seeks = refl; whole = refl } in
    let one : image (whole_file made.output ∷ []) ≡ concat (map bytes_of words) =
      append-nil made.output ∙ e in
    let room : vm.pc_start + length (image (whole_file made.output ∷ [])) ≤ mem_bytes =
      rw (append-nil made.output) fits in
    let (vm', loaded, _, _, held, _, _, _, _) =
      load_programs-placed vm (whole_file made.output) [] (readable, tt) room in
    (
      vm',
      loaded,
      λ j i at.
          mr32-bytes_of vm' vm.pc_start j i words (accepted-lt strtol raw_halt lines)
            (subst (λ t. memory_bytes vm'.mem vm.pc_start (length t) ≡ t) one held) at,
    )
