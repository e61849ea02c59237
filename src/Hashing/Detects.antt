-- ===== src/Hashing/Detects.antt =====
-- The changes of a buffer that the CRC-32 of prototype-integrator/src/hashing.c detects.
use virtual_machine.Prelude.{
  ℕ, zero, suc, false, ◌+◌, ◌*◌, ◌^◌, ◌≤◌, ◌<◌, ◌≡◌, ◌≢◌, ◌==◌, arith, refl, sym, ap, ◌∙◌, bit_xor,
  List, [], ◌∷◌, ◌++◌, Bool-cases, inl, inr, length, ==_iff,
}
use native.Mathlib.Nat.{pow-suc}
use virtual_machine.Word.{u32_max, bit_xor-lt, xor_comm, xor_zero, xor_assoc, xor_cancel, xor_split}
use virtual_machine.Hashing.{
  crc32_rounds, crc32_begin, crc32_update, crc32_finalize, crc32_of, verify_data_integrity,
}
use virtual_machine.Hashing.Stream.{crc32_update-append, crc32_update-lt}
use virtual_machine.Hashing.Serial.{
  crc32_rounds-bit_xor, rounds_shift, IsBytes, crc32_serial, crc32_update-crc32_serial,
}
use virtual_machine.Hashing.Cancel.{rounds_cancel, serial_cancel}

serial_nil : (crc : ℕ) → crc32_serial crc [] ≡ crc32_rounds 0 (bit_xor crc 0)
unfolding crc32_serial crc32_rounds
serial_nil crc = sym (xor_zero crc)

serial_cons :
    (crc b : ℕ) (bytes : List ℕ)
    → crc32_serial crc (b ∷ bytes) ≡ crc32_serial (crc32_rounds 8 (bit_xor crc b)) bytes
unfolding crc32_serial
serial_cons crc b bytes = refl

-- A buffer as one number, the first byte lowest.
abbrev little_endian : List ℕ → ℕ
little_endian [] = 0
little_endian (b ∷ bytes) = little_endian bytes * 256 + b

little_endian-lt :
    (bytes : List ℕ) (n : ℕ) → IsBytes bytes → length bytes ≤ n → little_endian bytes < 256 ^ n
little_endian-lt [] zero h hn = omega arith
little_endian-lt [] (suc n) h hn =
    omega (arith, pow-suc 256 n, little_endian-lt [] n h (omega arith))
little_endian-lt (b ∷ bytes) zero h hn = absurd (omega arith)
little_endian-lt (b ∷ bytes) (suc n) h hn =
    omega (arith, pow-suc 256 n, h.0, little_endian-lt bytes n (h.1) (omega arith))

little_endian_cancel :
    (ys zs : List ℕ)
    → IsBytes ys
    → IsBytes zs
    → length ys ≡ length zs
    → little_endian ys ≡ little_endian zs
    → ys ≡ zs
little_endian_cancel [] [] hy hz n e = refl
little_endian_cancel [] (z ∷ zs) hy hz n e = absurd (omega (arith, n))
little_endian_cancel (y ∷ ys) [] hy hz n e = absurd (omega (arith, n))
little_endian_cancel (y ∷ ys) (z ∷ zs) hy hz n e =
    let first : y ≡ z = omega (arith, hy.0, hz.0, e) in
    let rest =
      little_endian_cancel ys zs (hy.1) (hz.1) (omega (arith, n)) (omega (arith, hy.0, hz.0, e)) in
    cc

rounds_byte : (n crc : ℕ) → crc32_rounds (suc n * 8) crc ≡ crc32_rounds (n * 8) (crc32_rounds 8 crc)
unfolding crc32_rounds
rounds_byte n crc =
    ap (λ j. crc32_rounds j crc) {x = suc n * 8}
      {y = suc (suc (suc (suc (suc (suc (suc (suc (n * 8))))))))} (omega arith)

-- The next byte mixed in before its rounds, or eight digits higher.
mixed :
    (crc b m : ℕ)
    → b < 256
    → crc32_rounds 8 (bit_xor crc (m * 256 + b)) ≡ bit_xor (crc32_rounds 8 (bit_xor crc b)) m
mixed crc b m hb =
    ap (λ x. crc32_rounds 8 (bit_xor crc x)) (sym (xor_split 8 m b hb) ∙ xor_comm (m * 256) b)
    ∙ ap (crc32_rounds 8) (sym (xor_assoc crc b (m * 256)))
    ∙ crc32_rounds-bit_xor 8 (bit_xor crc b) (m * 256)
    ∙ ap (bit_xor (crc32_rounds 8 (bit_xor crc b))) (rounds_shift m)

-- A state after a buffer is that many rounds of the state mixed with the buffer as a number.
crc32_serial-little_endian :
    (bytes : List ℕ) (crc : ℕ)
    → IsBytes bytes
    → crc32_serial crc bytes ≡ crc32_rounds (length bytes * 8) (bit_xor crc (little_endian bytes))
crc32_serial-little_endian [] crc h = serial_nil crc
crc32_serial-little_endian (b ∷ bytes) crc h =
    serial_cons crc b bytes
    ∙ crc32_serial-little_endian bytes (crc32_rounds 8 (bit_xor crc b)) (h.1)
    ∙ ap (crc32_rounds (length bytes * 8)) (sym (mixed crc b (little_endian bytes) (h.0)))
    ∙ sym (rounds_byte (length bytes) (bit_xor crc (little_endian (b ∷ bytes))))

serial_burst :
    (ys zs : List ℕ) (crc : ℕ)
    → IsBytes ys
    → IsBytes zs
    → crc < 2 ^ 32
    → length ys ≤ 4
    → length ys ≡ length zs
    → crc32_serial crc ys ≡ crc32_serial crc zs
    → ys ≡ zs
serial_burst ys zs crc hy hz hc short n e =
    let word_lt : (bs : List ℕ) → IsBytes bs → length bs ≤ 4 → little_endian bs < 2 ^ 32 =
      λ bs h k. little_endian-lt bs 4 h k in
    let ly = word_lt ys hy short in
    let lz = word_lt zs hz (omega (arith, short, n)) in
    let same =
      sym (crc32_serial-little_endian ys crc hy)
      ∙ e
      ∙ crc32_serial-little_endian zs crc hz
      ∙ ap (λ k. crc32_rounds (k * 8) (bit_xor crc (little_endian zs))) (sym n) in
    let mixed_same =
      rounds_cancel (length ys * 8) _ _ (bit_xor-lt 32 crc _ hc ly) (bit_xor-lt 32 crc _ hc lz)
        same in
    little_endian_cancel ys zs hy hz n (
      xor_cancel (little_endian ys) (little_endian zs) crc
        (xor_comm (little_endian ys) crc ∙ mixed_same ∙ xor_comm crc (little_endian zs)))

crc32_of_cancel :
    (xs ys : List ℕ)
    → crc32_of xs ≡ crc32_of ys
    → crc32_update crc32_begin xs ≡ crc32_update crc32_begin ys
unfolding crc32_of crc32_finalize
crc32_of_cancel xs ys e =
    xor_cancel (crc32_update crc32_begin xs) (crc32_update crc32_begin ys) u32_max e

-- The state after the three parts of a buffer.
update_parts :
    (xs ys zs : List ℕ) (crc : ℕ)
    → IsBytes ys
    → IsBytes zs
    → crc32_update crc (xs ++ (ys ++ zs)) ≡ crc32_serial (crc32_serial (crc32_update crc xs) ys) zs
update_parts xs ys zs crc hy hz =
    crc32_update-append xs (ys ++ zs) crc
    ∙ crc32_update-append ys zs (crc32_update crc xs)
    ∙ ap (λ c. crc32_update c zs) (crc32_update-crc32_serial ys (crc32_update crc xs) hy)
    ∙ crc32_update-crc32_serial zs (crc32_serial (crc32_update crc xs) ys) hz

crc32_serial-lt :
    (bytes : List ℕ) (crc : ℕ) → IsBytes bytes → crc < 2 ^ 32 → crc32_serial crc bytes < 2 ^ 32
crc32_serial-lt bytes crc h hc =
    omega (arith, crc32_update-crc32_serial bytes crc h, crc32_update-lt bytes crc hc)

burst_cancel :
    (before old new after : List ℕ)
    → IsBytes old
    → IsBytes new
    → IsBytes after
    → length old ≤ 4
    → length old ≡ length new
    → crc32_of (before ++ (old ++ after)) ≡ crc32_of (before ++ (new ++ after))
    → old ≡ new
burst_cancel before old new after ho hn ha short n e =
    let crc = crc32_update crc32_begin before in
    let hc : crc < 2 ^ 32 = crc32_update-lt before crc32_begin (omega arith) in
    let same =
      sym (update_parts before old after crc32_begin ho ha)
      ∙ crc32_of_cancel (before ++ (old ++ after)) (before ++ (new ++ after)) e
      ∙ update_parts before new after crc32_begin hn ha in
    serial_burst old new crc ho hn hc short n (
      serial_cancel after (crc32_serial crc old) (crc32_serial crc new) ha
        (crc32_serial-lt old crc ho hc) (crc32_serial-lt new crc hn hc) same)

-- A change of at most four bytes next to each other, in a buffer of any length that keeps its
-- length, is detected: the check of the changed buffer against the CRC-32 of the old one fails. The
-- changed bytes and those after them are numbers below 256.
pub verify_data_integrity_changed :
    (before old new after : List ℕ)
    → IsBytes old
    → IsBytes new
    → IsBytes after
    → length old ≤ 4
    → length old ≡ length new
    → old ≢ new
    → verify_data_integrity (before ++ (new ++ after)) (crc32_of (before ++ (old ++ after))) ≡ false
unfolding verify_data_integrity
verify_data_integrity_changed before old new after ho hn ha short n other =
    elim (Bool-cases (crc32_of (before ++ (new ++ after)) == crc32_of (before ++ (old ++ after)))) [
      | inl e ↦
          absurd
            (other (burst_cancel before old new after ho hn ha short n (sym ((==_iff _ _).0 e))))
      | inr e ↦ e
    ]
