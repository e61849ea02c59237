-- ===== src/Hashing/Cancel.antt =====
-- The CRC-32 of prototype-integrator/src/hashing.c loses nothing of the state: each round has an inverse.
use virtual_machine.Prelude.{
  ℕ, zero, suc, ◌/◌, ◌%◌, ◌^◌, ◌<◌, ◌≡◌, arith, refl, sym, ap, ◌∙◌, bit_xor, List, [], ◌∷◌,
}
use virtual_machine.Word.{bit_xor-lt, xor_comm, xor_zero, xor_twice, xor_cancel}
use virtual_machine.Hashing.{crc32_round, crc32_rounds}
use virtual_machine.Hashing.Stream.{crc32_rounds-lt, crc32_round-lt}
use virtual_machine.Hashing.Serial.{added, round_adds, IsBytes, crc32_serial}

top_of_odd : (x : ℕ) → x < 2 ^ 31 → bit_xor x (added 1) < 2 ^ 31 → ⊥
top_of_odd x hx h =
    let back : bit_xor (bit_xor x (added 1)) x ≡ added 1 =
      ap (λ y. bit_xor y x) (xor_comm x (added 1)) ∙ xor_twice (added 1) x in
    omega (arith, back, bit_xor-lt 31 (bit_xor x (added 1)) x h hx)

transport_lt : {x y : ℕ} → x ≡ y → x < 2 ^ 31 → y < 2 ^ 31
transport_lt e h = omega (arith, e, h)

cancel_added :
    (p q x y : ℕ)
    → p < 2
    → q < 2
    → x < 2 ^ 31
    → y < 2 ^ 31
    → bit_xor x (added p) ≡ bit_xor y (added q)
    → (x ≡ y) × (p ≡ q)
cancel_added zero zero x y hp hq hx hy e = (xor_cancel x y 0 e, refl)
cancel_added (suc zero) (suc zero) x y hp hq hx hy e = (xor_cancel x y (added 1) e, refl)
cancel_added zero (suc zero) x y hp hq hx hy e =
    absurd (top_of_odd y hy (transport_lt (sym (xor_zero x) ∙ e) hx))
cancel_added (suc zero) zero x y hp hq hx hy e =
    absurd (top_of_odd x hx (transport_lt (sym (xor_zero y) ∙ sym e) hy))
cancel_added (suc (suc p)) q x y hp hq hx hy e = absurd (omega arith)
cancel_added p (suc (suc q)) x y hp hq hx hy e = absurd (omega arith)

round_cancel : (a b : ℕ) → a < 2 ^ 32 → b < 2 ^ 32 → crc32_round a ≡ crc32_round b → a ≡ b
round_cancel a b ha hb e =
    let both =
      cancel_added (a % 2) (b % 2) (a / 2) (b / 2) (omega arith) (omega arith) (omega arith)
        (omega arith) (sym (round_adds a) ∙ e ∙ round_adds b) in
    omega (arith, both.0, both.1)

pub rounds_cancel :
    (j a b : ℕ) → a < 2 ^ 32 → b < 2 ^ 32 → crc32_rounds j a ≡ crc32_rounds j b → a ≡ b
unfolding crc32_rounds
rounds_cancel zero a b ha hb e = e
rounds_cancel (suc j) a b ha hb e =
    round_cancel a b ha hb (
      rounds_cancel j (crc32_round a) (crc32_round b) (crc32_round-lt a ha) (crc32_round-lt b hb) e)

-- The same bytes after two states give the same state only if the two states are the same.
pub serial_cancel :
    (bytes : List ℕ) (a b : ℕ)
    → IsBytes bytes
    → a < 2 ^ 32
    → b < 2 ^ 32
    → crc32_serial a bytes ≡ crc32_serial b bytes
    → a ≡ b
unfolding crc32_serial
serial_cancel [] a b h ha hb e = e
serial_cancel (x ∷ bytes) a b h ha hb e =
    let wa : bit_xor a x < 2 ^ 32 = bit_xor-lt 32 a x ha (omega (arith, h.0)) in
    let wb : bit_xor b x < 2 ^ 32 = bit_xor-lt 32 b x hb (omega (arith, h.0)) in
    xor_cancel a b x (
      rounds_cancel 8 (bit_xor a x) (bit_xor b x) wa wb
        (serial_cancel bytes _ _ (h.1) (crc32_rounds-lt 8 _ wa) (crc32_rounds-lt 8 _ wb) e))
