-- ===== src/Ops/Strings/Edits.antt =====
-- What the string instructions do to zero-terminated strings that lie in memory.
use mathlib.Core.List.{append-nil}
use virtual_machine.Prelude.{
  ℕ, ◌+◌, ◌-◌, ◌<◌, ◌≡◌, inl, inr, arith, ◌==◌, leb, List, [], ◌++◌, length, take, drop, Bool-cases,
  lt→leb-false, leb→le, leb-false→lt,
}
use virtual_machine.Word.{add32}
use virtual_machine.Instruction.{ra}
use virtual_machine.Machine.{VmState, mem_bytes, bv, cv_or_imm, set_a}
use virtual_machine.Ops.Strings.{op_len, op_left, op_right, op_mid, op_delete}
use virtual_machine.Ops.Strings.Bytes.{IsString, holds_copied, strlen-string}
use virtual_machine.Ops.Strings.Parts.{
  length-take, length-drop, take_all, drop_all, nonzero-take, nonzero-drop, IsString-take,
  IsString-drop, null-IsString, memmove-eq-copy, if_same, eq-false, cut-le, drop-cut,
  IsString-delete,
}

module _ (vm : VmState) (i : ℕ) where
  -- LEN writes the length of the string at B.
  pub op_len_lem :
      (xs : List ℕ)
      → IsString vm.mem (bv vm i) xs
      → bv vm i + length xs < mem_bytes
      → (op_len vm i).reg (ra i) ≡ length xs
  unfolding op_len set_a
  op_len_lem xs s lim =
      rw (lt→leb-false mem_bytes (bv vm i) (omega arith), strlen-string vm.mem (bv vm i) xs s lim)
        (ground arith)

  -- LEFT keeps the first C bytes of the string at B.
  pub op_left_lem :
      (xs : List ℕ)
      → IsString vm.mem (bv vm i) xs
      → bv vm i + length xs < mem_bytes
      → IsString (op_left vm i).mem (bv vm i) (take (cv_or_imm vm i) xs)
  unfolding op_left
  op_left_lem xs s lim =
      let d = bv vm i in
      let n = cv_or_imm vm i in
      rw (lt→leb-false mem_bytes d (omega arith), strlen-string vm.mem d xs s lim)
        (elim (Bool-cases (leb (length xs) n)) [
          | inl e ↦ rw (e, take_all n xs (leb→le _ _ e)) s
          | inr e ↦ rw e (
              null-IsString vm.mem d (add32 d n) (take n xs) (IsString-take vm.mem d n xs s)
                (nonzero-take n xs s.nonzero_bytes)
                (unfold add32 in omega (arith, length-take n xs, leb-false→lt _ _ e))
                (unfold add32 in omega (arith, leb-false→lt _ _ e)))
        ])

  -- RIGHT keeps the last C bytes of the string at B, which ends in memory.
  pub op_right_lem :
      (xs : List ℕ)
      → IsString vm.mem (bv vm i) xs
      → bv vm i + length xs < mem_bytes
      → IsString (op_right vm i).mem (bv vm i) (drop (length xs - cv_or_imm vm i) xs)
  unfolding op_right
  op_right_lem xs s lim =
      let d = bv vm i in
      let n = cv_or_imm vm i in
      rw (lt→leb-false mem_bytes d (omega arith), strlen-string vm.mem d xs s lim)
        (elim (Bool-cases (leb (length xs) n)) [
          | inl e ↦
              let z : length xs - n ≡ 0 = omega (arith, leb→le _ _ e) in
              rw (e, z, if_same (length xs == 0) vm) s
          | inr e ↦
              let lt = leb-false→lt (length xs) n e in
              let src : add32 d (length xs - n) ≡ d + (length xs - n) =
                unfold add32 in omega (arith, lt) in
              let moved =
                holds_copied vm.mem d (d + (length xs - n)) n (drop (length xs - n) xs)
                  (omega (arith, length-drop (length xs - n) xs))
                  (IsString-drop vm.mem d (length xs - n) xs s (omega arith)) in
              rw
                (
                  e,
                  eq-false (length xs) (omega (arith, lt)),
                  src,
                  memmove-eq-copy vm.mem d (d + (length xs - n)) n (omega arith) (omega arith),
                )
                (null-IsString _ d (add32 d n) (drop (length xs - n) xs) moved
                  (nonzero-drop (length xs - n) xs s.nonzero_bytes)
                  (unfold add32 in omega (arith, length-drop (length xs - n) xs, lt))
                  (unfold add32 in omega (arith, lt)))
        ])

  -- MID drops the first C bytes of the string at B.
  pub op_mid_lem :
      (xs : List ℕ)
      → IsString vm.mem (bv vm i) xs
      → bv vm i + length xs < mem_bytes
      → IsString (op_mid vm i).mem (bv vm i) (drop (cv_or_imm vm i) xs)
  unfolding op_mid
  op_mid_lem xs s lim =
      let d = bv vm i in
      let n = cv_or_imm vm i in
      rw (lt→leb-false mem_bytes d (omega arith), strlen-string vm.mem d xs s lim)
        (elim (Bool-cases (leb (length xs) n)) [
          | inl e ↦
              rw (e, drop_all n xs (leb→le _ _ e))
                (null-IsString vm.mem d d [] tt tt (omega arith) (omega arith))
          | inr e ↦
              let lt = leb-false→lt (length xs) n e in
              let src : add32 d n ≡ d + n = unfold add32 in omega (arith, lt) in
              rw
                (
                  e,
                  src,
                  memmove-eq-copy vm.mem d (d + n) (length xs - n) (omega arith) (omega arith),
                )
                (null-IsString _ d (d + (length xs - n)) (drop n xs)
                  (holds_copied vm.mem d (d + n) (length xs - n) (drop n xs)
                    (omega (arith, length-drop n xs)) (IsString-drop vm.mem d n xs s (omega arith)))
                  (nonzero-drop n xs s.nonzero_bytes) (omega (arith, length-drop n xs))
                  (omega (arith, lt)))
        ])

  -- DELETE removes C bytes at the position B from the string at A, which ends in memory.
  pub op_delete_lem :
      (xs : List ℕ)
      → IsString vm.mem (vm.reg (ra i)) xs
      → vm.reg (ra i) + length xs < mem_bytes
      → IsString
          (op_delete vm i).mem
          (vm.reg (ra i))
          (take (bv vm i) xs ++ drop (bv vm i + cv_or_imm vm i) xs)
  unfolding op_delete
  op_delete_lem xs s lim =
      let d = vm.reg (ra i) in
      let p = bv vm i in
      rw (lt→leb-false mem_bytes d (omega arith), strlen-string vm.mem d xs s lim)
        (elim (Bool-cases (leb (length xs) p)) [
          | inl e ↦
              let le = leb→le (length xs) p e in
              rw (e, take_all p xs le, drop_all (p + cv_or_imm vm i) xs (omega arith), append-nil) s
          | inr e ↦
              rw (e, drop-cut p (cv_or_imm vm i) xs)
                (IsString-delete vm.mem d p _ xs s (omega (arith, leb-false→lt (length xs) p e))
                  (cut-le _ _) lim)
        ])
