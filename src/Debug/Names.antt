-- ===== src/Debug/Names.antt =====
-- The names that the log prints, and the table of the assembler.
use virtual_machine.Prelude.{
  ℕ, zero, suc, Bool, true, false, not, ◌<◌, ◌≡◌, ◌&&◌, ◌==◌, leb, refl, arith, if◌then◌else◌,
  Option, none, some, List, [], ◌∷◌, get_elem?, length, ◌≤◌, All, Bool-cases, inl, inr,
}
use virtual_machine.Assembler.Opcodes.{
  CFlags, cflag_none, codes, op_table, opcode_from_name, same_name, to_lower, find_opcode,
}
use virtual_machine.Assembler.Tokens.{IsPlain}
use virtual_machine.Debug.{opcode_name, opcode_names}

-- The opcodes with a name.
abbrev pub named_count : ℕ
named_count = 68

-- The flags of an opcode.
abbrev pub entry_flags : Option (List ℕ × CFlags) → CFlags
entry_flags none = cflag_none
entry_flags (some e) = e.1

abbrev has_entry : Option (List ℕ × CFlags) → Bool
has_entry none = false
has_entry (some e) = true

abbrev is_opcode : ℕ → Option ℕ → Bool
is_opcode k none = false
is_opcode k (some n) = n == k

abbrev all_plain : List ℕ → Bool
all_plain [] = true
all_plain (c ∷ s) = leb 33 c && not (c == b',') && not (c == b';') && all_plain s

abbrev is_word : List ℕ → Bool
is_word [] = false
is_word (c ∷ s) = all_plain (c ∷ s)

-- What the table says of one opcode.
name_agrees : ℕ → Bool
name_agrees k =
    is_opcode k (opcode_from_name (opcode_name k))
    && has_entry (get_elem? op_table k)
    && is_word (opcode_name k)
    && leb (length (opcode_name k)) 12
    && (if same_name (opcode_name k) (codes "halt") then k == 66 else true)

names_agree : ℕ → Bool
names_agree zero = true
names_agree (suc k) = name_agrees k && names_agree k

names_checked : names_agree named_count ≡ true
unfolding names_agree name_agrees opcode_name opcode_names op_table to_lower same_name find_opcode
    opcode_from_name
names_checked = refl

name_agrees_at : (k bound : ℕ) → names_agree bound ≡ true → k < bound → name_agrees k ≡ true
unfolding names_agree
name_agrees_at k zero all lt = absurd (omega arith)
name_agrees_at k (suc n) all lt = elim (Bool-cases (k == n)) [
  | inl e ↦ ground (arith, all, e)
  | inr e ↦ ground (arith, all, e, name_agrees_at k n)
]

is_opcode_lem : (k : ℕ) (o : Option ℕ) → is_opcode k o ≡ true → o ≡ some k
is_opcode_lem k none h = absurd (cc)
is_opcode_lem k (some n) h = ground (arith, h)

-- Each name that the log prints for an opcode is the assembler's name of that opcode.
pub opcode_from_name-opcode_name :
    (k : ℕ) → k < named_count → opcode_from_name (opcode_name k) ≡ some k
unfolding name_agrees
opcode_from_name-opcode_name k lt =
    is_opcode_lem k _ (ground (arith, name_agrees_at k named_count names_checked lt))

has_entry_lem :
    (o : Option (List ℕ × CFlags)) → has_entry o ≡ true → (e : List ℕ × CFlags) × (o ≡ some e)
has_entry_lem none h = absurd (cc)
has_entry_lem (some e) h = (e, refl)

pub entry_at : (k : ℕ) → k < named_count → (e : List ℕ × CFlags) × (get_elem? op_table k ≡ some e)
unfolding name_agrees
entry_at k lt = has_entry_lem _ (ground (arith, name_agrees_at k named_count names_checked lt))

all_plain_lem : (s : List ℕ) → all_plain s ≡ true → All IsPlain s
all_plain_lem [] h = tt
all_plain_lem (c ∷ s) h = (ground (arith, h), all_plain_lem s (ground (arith, h)))

is_word_lem :
    (s : List ℕ) → is_word s ≡ true → (c : ℕ) × (w : List ℕ) × (s ≡ c ∷ w) × All IsPlain (c ∷ w)
is_word_lem [] h = absurd (cc)
is_word_lem (c ∷ s) h = (c, s, refl, all_plain_lem (c ∷ s) h)

pub name_word :
    (k : ℕ)
    → k < named_count
    → (c : ℕ) × (w : List ℕ) × (opcode_name k ≡ c ∷ w) × All IsPlain (c ∷ w)
unfolding name_agrees
name_word k lt =
    is_word_lem (opcode_name k) (ground (arith, name_agrees_at k named_count names_checked lt))

pub halt_name : (k : ℕ) → k < named_count → same_name (opcode_name k) (codes "halt") ≡ true → k ≡ 66
unfolding name_agrees
halt_name k lt h = ground (arith, name_agrees_at k named_count names_checked lt, h)

pub length-opcode_name : (k : ℕ) → k < named_count → length (opcode_name k) ≤ 12
unfolding name_agrees
length-opcode_name k lt = ground (arith, name_agrees_at k named_count names_checked lt)
