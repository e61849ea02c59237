-- ===== src/Hashing/Stream.antt =====
-- Hashing in pieces, and the range of the hashes.
use virtual_machine.Prelude.{
  ℕ, zero, suc, ◌/◌, ◌%◌, ◌^◌, ◌<◌, ◌≡◌, ap, arith, refl, bit_xor, ◌==◌, Bool-cases, inl, inr, List,
  [], ◌∷◌, ◌++◌,
}
use virtual_machine.Word.{u32_mod, u32_max, mul32, bit_xor-lt}
use virtual_machine.Machine.{HashAlgorithm, simple_fnv1a, crc32}
use virtual_machine.Hashing.{
  fnv1a32_begin, fnv1a32_update, fnv1a32, crc32_round, crc32_rounds, crc32_table, crc32_begin,
  crc32_update, crc32_finalize, crc32_of, hash_buffer,
}

pub crc32_update-append :
    (xs ys : List ℕ) (crc : ℕ) → crc32_update crc (xs ++ ys) ≡ crc32_update (crc32_update crc xs) ys
unfolding crc32_update
crc32_update-append [] ys crc = refl
crc32_update-append (x ∷ xs) ys crc = crc32_update-append xs ys _

fnv1a32_update-append :
    (xs ys : List ℕ) (hash : ℕ)
    → fnv1a32_update hash (xs ++ ys) ≡ fnv1a32_update (fnv1a32_update hash xs) ys
unfolding fnv1a32_update
fnv1a32_update-append [] ys hash = refl
fnv1a32_update-append (x ∷ xs) ys hash = fnv1a32_update-append xs ys _

-- Hashing a buffer in two pieces, with either algorithm, gives the hash of the whole.
pub hash_streamed :
    (xs ys : List ℕ)
    → (hash_buffer crc32 (xs ++ ys)
        ≡ crc32_finalize (crc32_update (crc32_update crc32_begin xs) ys))
      × (hash_buffer simple_fnv1a (xs ++ ys) ≡ fnv1a32_update (fnv1a32_update fnv1a32_begin xs) ys)
unfolding hash_buffer crc32_of fnv1a32
hash_streamed xs ys = (
  ap crc32_finalize (crc32_update-append xs ys crc32_begin),
  fnv1a32_update-append xs ys fnv1a32_begin,
)

pub crc32_round-lt : (crc : ℕ) → crc < 2 ^ 32 → crc32_round crc < 2 ^ 32
unfolding crc32_round
crc32_round-lt crc h = elim (Bool-cases (crc % 2 == 1)) [
  | inl e ↦ rw e (bit_xor-lt 32 (crc / 2) 3988292384 (omega arith) (omega arith))
  | inr e ↦ rw e (omega arith)
]

pub crc32_rounds-lt : (j crc : ℕ) → crc < 2 ^ 32 → crc32_rounds j crc < 2 ^ 32
unfolding crc32_rounds
crc32_rounds-lt zero crc h = h
crc32_rounds-lt (suc j) crc h = crc32_rounds-lt j (crc32_round crc) (crc32_round-lt crc h)

pub crc32_update-lt : (bytes : List ℕ) (crc : ℕ) → crc < 2 ^ 32 → crc32_update crc bytes < 2 ^ 32
unfolding crc32_update crc32_table
crc32_update-lt [] crc h = h
crc32_update-lt (b ∷ bytes) crc h = crc32_update-lt bytes _ (
    bit_xor-lt 32 (crc / 256) _ (omega arith)
      (crc32_rounds-lt 8 (bit_xor crc b % 256) (omega arith)))

fnv1a32_update-lt : (bytes : List ℕ) (hash : ℕ) → hash < 2 ^ 32 → fnv1a32_update hash bytes < 2 ^ 32
unfolding fnv1a32_update mul32
fnv1a32_update-lt [] hash h = h
fnv1a32_update-lt (b ∷ bytes) hash h = fnv1a32_update-lt bytes _ (omega arith)

-- A hash of any buffer is a 32-bit word.
pub hash_buffer-lt : (algo : HashAlgorithm) (bytes : List ℕ) → hash_buffer algo bytes < u32_mod
unfolding hash_buffer crc32_of crc32_finalize fnv1a32
hash_buffer-lt simple_fnv1a bytes = fnv1a32_update-lt bytes fnv1a32_begin (omega arith)
hash_buffer-lt crc32 bytes =
    bit_xor-lt 32 _ u32_max (crc32_update-lt bytes crc32_begin (omega arith)) (omega arith)
