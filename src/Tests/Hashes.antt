-- ===== src/Tests/Hashes.antt =====
-- The CRC-32 on concrete buffers.
use virtual_machine.Prelude.{ℕ, ◌≡◌, ◌≢◌, false, arith, refl, List, [], ◌∷◌, ◌++◌}
use virtual_machine.Hashing.{crc32_begin, crc32_update, crc32_of, verify_data_integrity}
use virtual_machine.Hashing.Serial.{crc32_serial, crc32_update-crc32_serial}
use virtual_machine.Hashing.Detects.{verify_data_integrity_changed}

-- The check value of the CRC-32, of the bytes of "123456789"
crc32_of_check : crc32_of (49 ∷ 50 ∷ 51 ∷ 52 ∷ 53 ∷ 54 ∷ 55 ∷ 56 ∷ 57 ∷ []) ≡ 3421780262
unfolding crc32_of
crc32_of_check = refl

crc32_update-crc32_serial_example :
    crc32_update crc32_begin (77 ∷ 90 ∷ []) ≡ crc32_serial crc32_begin (77 ∷ 90 ∷ [])
crc32_update-crc32_serial_example =
    crc32_update-crc32_serial (77 ∷ 90 ∷ []) crc32_begin (omega arith, (omega arith, tt))

two_differ : ◌≢◌ {A = List ℕ} (3 ∷ 4 ∷ []) (7 ∷ 8 ∷ [])
two_differ e = cc

verify_data_integrity_changed_example :
    verify_data_integrity
      ((1 ∷ 2 ∷ []) ++ ((7 ∷ 8 ∷ []) ++ (9 ∷ [])))
      (crc32_of ((1 ∷ 2 ∷ []) ++ ((3 ∷ 4 ∷ []) ++ (9 ∷ []))))
    ≡ false
verify_data_integrity_changed_example =
    verify_data_integrity_changed (1 ∷ 2 ∷ []) (3 ∷ 4 ∷ []) (7 ∷ 8 ∷ []) (9 ∷ [])
      (omega arith, (omega arith, tt)) (omega arith, (omega arith, tt)) (omega arith, tt)
      (omega arith) refl two_differ
