-- ===== src/Hashing/Serial.antt =====
-- The CRC-32 of prototype-integrator/src/hashing.c against its definition bit by bit, and the changes
-- of a buffer that it detects.
use Prim.Native.Nat.{differ}
use virtual_machine.Prelude.{
  ℕ, zero, suc, ◌*◌, ◌/◌, ◌%◌, ◌<◌, ◌≡◌, ◌==◌, arith, refl, sym, ap, ◌∙◌, bit_xor, List, [], ◌∷◌,
  Bool-cases, inl, inr, All, if◌then◌else◌,
}
use virtual_machine.Word.{xor-half, xor-parity, xor_comm, xor_zero, xor_assoc, xor_high, xor_split}
use virtual_machine.Hashing.{crc32_round, crc32_rounds, crc32_table, crc32_update}

-- A byte at a time, with eight rounds each and no table.
unfoldable pub crc32_serial : ℕ → List ℕ → ℕ
unfolding crc32_rounds
crc32_serial crc [] = crc
crc32_serial crc (b ∷ bytes) = crc32_serial (crc32_rounds 8 (bit_xor crc b)) bytes

-- Every element is a byte.
abbrev pub IsBytes : List ℕ → Type 0
IsBytes bytes = All (λ (b : ℕ). b < 256) bytes

-- What a round adds to the half: the polynomial for an odd word.
abbrev pub added : ℕ → ℕ
added d = if d == 1 then 3988292384 else 0

pub round_adds : (crc : ℕ) → crc32_round crc ≡ bit_xor (crc / 2) (added (crc % 2))
unfolding crc32_round
round_adds crc = elim (Bool-cases (crc % 2 == 1)) [
  | inl e ↦ rw e refl
  | inr e ↦ rw e (sym (xor_zero (crc / 2)))
]

added-differ : (p q : ℕ) → p < 2 → q < 2 → added (differ p q) ≡ bit_xor (added p) (added q)
added-differ zero zero hp hq = refl
added-differ zero (suc zero) hp hq = refl
added-differ zero (suc (suc q)) hp hq = absurd (omega arith)
added-differ (suc zero) zero hp hq = refl
added-differ (suc zero) (suc zero) hp hq = refl
added-differ (suc zero) (suc (suc q)) hp hq = absurd (omega arith)
added-differ (suc (suc p)) q hp hq = absurd (omega arith)

added_xor : (a b : ℕ) → added (bit_xor a b % 2) ≡ bit_xor (added (a % 2)) (added (b % 2))
added_xor a b = ap added (xor-parity a b) ∙ added-differ (a % 2) (b % 2) (omega arith) (omega arith)

swap_middle :
    (a b c d : ℕ) → bit_xor (bit_xor a b) (bit_xor c d) ≡ bit_xor (bit_xor a c) (bit_xor b d)
swap_middle a b c d =
    rw
      (
        xor_assoc a b (bit_xor c d),
        sym (xor_assoc b c d),
        xor_comm b c,
        xor_assoc c b d,
        sym (xor_assoc a c (bit_xor b d)),
      )
      refl

crc32_round-bit_xor :
    (a b : ℕ) → crc32_round (bit_xor a b) ≡ bit_xor (crc32_round a) (crc32_round b)
crc32_round-bit_xor a b =
    rw (round_adds (bit_xor a b), round_adds a, round_adds b, xor-half a b, added_xor a b)
      (swap_middle (a / 2) (b / 2) (added (a % 2)) (added (b % 2)))

pub crc32_rounds-bit_xor :
    (j a b : ℕ) → crc32_rounds j (bit_xor a b) ≡ bit_xor (crc32_rounds j a) (crc32_rounds j b)
unfolding crc32_rounds
crc32_rounds-bit_xor zero a b = refl
crc32_rounds-bit_xor (suc j) a b =
    rw (crc32_round-bit_xor a b) (crc32_rounds-bit_xor j (crc32_round a) (crc32_round b))

round_even : (h : ℕ) → crc32_round (h * 2) ≡ h
round_even h =
    round_adds (h * 2)
    ∙ ap (λ d. bit_xor (h * 2 / 2) (added d)) {x = h * 2 % 2} {y = 0} (omega arith)
    ∙ xor_zero (h * 2 / 2)
    ∙ omega arith

eight_doubles : (h : ℕ) → h * 256 ≡ h * 2 * 2 * 2 * 2 * 2 * 2 * 2 * 2
eight_doubles h = omega arith

pub rounds_shift : (h : ℕ) → crc32_rounds 8 (h * 256) ≡ h
unfolding crc32_rounds
rounds_shift h =
    rw
      (
        eight_doubles h,
        round_even (h * 2 * 2 * 2 * 2 * 2 * 2 * 2),
        round_even (h * 2 * 2 * 2 * 2 * 2 * 2),
        round_even (h * 2 * 2 * 2 * 2 * 2),
        round_even (h * 2 * 2 * 2 * 2),
        round_even (h * 2 * 2 * 2),
        round_even (h * 2 * 2),
        round_even (h * 2),
        round_even h,
      )
      refl

split_word : (w : ℕ) → w ≡ bit_xor (w / 256 * 256) (w % 256)
split_word w = omega (arith, xor_split 8 (w / 256) (w % 256) (omega arith))

table_step :
    (crc b : ℕ)
    → b < 256
    → bit_xor (crc / 256) (crc32_table (bit_xor crc b % 256)) ≡ crc32_rounds 8 (bit_xor crc b)
unfolding crc32_table
table_step crc b hb = sym (
    ap (crc32_rounds 8) (split_word (bit_xor crc b))
    ∙ crc32_rounds-bit_xor 8 (bit_xor crc b / 256 * 256) (bit_xor crc b % 256)
    ∙ ap (λ x. bit_xor x (crc32_rounds 8 (bit_xor crc b % 256)))
        (rounds_shift (bit_xor crc b / 256)
          ∙ xor_high crc b
          ∙ ap (bit_xor (crc / 256)) {x = b / 256} {y = 0} (omega arith)
          ∙ xor_zero (crc / 256)))

-- The table-driven CRC-32 of a buffer of bytes, from any state, is the one bit by bit, without a
-- table: each byte is mixed into the state, then eight rounds of the polynomial division follow.
pub crc32_update-crc32_serial :
    (bytes : List ℕ) (crc : ℕ) → IsBytes bytes → crc32_update crc bytes ≡ crc32_serial crc bytes
unfolding crc32_update crc32_serial
crc32_update-crc32_serial [] crc h = refl
crc32_update-crc32_serial (b ∷ bytes) crc h =
    rw (table_step crc b (h.0))
      (crc32_update-crc32_serial bytes (crc32_rounds 8 (bit_xor crc b)) (h.1))
