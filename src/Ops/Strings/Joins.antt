-- ===== src/Ops/Strings/Joins.antt =====
-- CONCAT and INSERT, of strings that lie apart in memory.
use mathlib.Core.List.{append_assoc}
use mathlib.Core.Path.{subst}
use virtual_machine.Prelude.{
  ℕ, false, ◌&&◌, ◌+◌, ◌-◌, ◌≤◌, ◌<◌, ◌≡◌, ◌⊎◌, inl, inr, arith, ◌==◌, ltb, if◌then◌else◌, List, [],
  ◌∷◌, ◌++◌, length, take, drop, lt→leb-false, lt→ltb, le→ltb-false, length-append,
}
use virtual_machine.Word.{add32}
use virtual_machine.Instruction.{ra}
use virtual_machine.Machine.{VmState, mem_bytes, bv, cv, cv_or_imm}
use virtual_machine.Ops.Strings.{
  safe_mem_remaining, copy_bytes, room_after, smaller, insert_bytes, op_concat, op_insert,
}
use virtual_machine.Ops.Strings.Bytes.{
  Holds, IsString, holds-append, holds_front, holds_copied, holds_uncopied, strlen-string,
}
use virtual_machine.Ops.Strings.Parts.{
  take_append_drop, length-take, length-drop, NonZero, nonzero-take, nonzero-drop, nonzero-append,
  IsString-take, string_rest, take-cut, drop-cut_self, take_append_drop, null-IsString,
  copy_some-eq-copy, cut, cut-le, block-IsString, string_rest, take-cut, drop-cut_self,
  take_append_drop,
}

-- The bytes of `ys` at `b`, terminator included, and the block of `n` bytes at `a` lie apart.
abbrev pub Apart : ℕ → ℕ → ℕ → List ℕ → Type 0
Apart a n b ys = (b + length ys < a) ⊎ (a + n ≤ b)

pub room-left :
    (dest len found : ℕ)
    → dest + len + found < mem_bytes
    → smaller found (room_after (safe_mem_remaining dest) len) ≡ found
unfolding smaller room_after safe_mem_remaining
room-left dest len found h = ground arith

pub remaining-pos : (a : ℕ) → a < mem_bytes → (safe_mem_remaining a == 0) ≡ false
unfolding safe_mem_remaining
remaining-pos a h = ground arith

-- The insertion of `ys` at the position `p` of the string `xs`.
pub IsString-insert :
    (mem : ℕ → ℕ) (d p b : ℕ) (xs ys : List ℕ)
    → IsString mem d xs
    → Holds mem b ys
    → NonZero ys
    → p ≤ length xs
    → Apart d (length xs + length ys + 1) b ys
    → IsString
        (insert_bytes mem (d + p) b (length ys) (length xs - p))
        d
        (take p xs ++ (ys ++ drop p xs))
unfolding insert_bytes
IsString-insert mem d p b xs ys s h nz hp apart =
    let n = length ys in
    let m = length xs - p + 1 in
    let mem₁ = copy_bytes mem (d + p + n) (d + p) m in
    let mem₂ = copy_bytes mem₁ (d + p) b n in
    let rest = drop p xs ++ 0 ∷ [] in
    let len : length rest ≡ m =
      omega (arith, length-append (drop p xs) (0 ∷ []), length-drop p xs) in
    let front =
      holds_uncopied mem₁ (d + p) b n d (take p xs) (inl (omega (arith, length-take p xs))) (
        holds_uncopied mem (d + p + n) (d + p) m d (take p xs)
          (inl (omega (arith, length-take p xs))) (IsString-take mem d p xs s)) in
    let middle =
      holds_copied mem₁ (d + p) b n ys (omega arith)
        (holds_uncopied mem (d + p + n) (d + p) m b ys (away apart) h) in
    let back = holds_uncopied mem₁ (d + p) b n (d + p + n) rest (inr (omega arith)) (
      holds_copied mem (d + p + n) (d + p) m rest (omega (arith, len))
        (string_rest mem d p xs s hp)) in
    block-IsString mem₂ d (take p xs) (ys ++ drop p xs) front
      (subst (λ k. Holds mem₂ k ((ys ++ drop p xs) ++ 0 ∷ [])) {x = d + p}
        (omega (arith, length-take p xs))
        (rw append_assoc (holds-append mem₂ (d + p) ys rest middle back)))
      (nonzero-take p xs s.nonzero_bytes)
      (nonzero-append ys (drop p xs) nz (nonzero-drop p xs s.nonzero_bytes))
  where
    away :
        Apart d (length xs + length ys + 1) b ys
        → (b + length ys ≤ d + p + length ys) ⊎ (d + p + length ys + (length xs - p + 1) ≤ b)
    away (inl q) = inl (omega arith)
    away (inr q) = inr (omega arith)

insert_branch :
    (vm : VmState) (d b p : ℕ) (xs ys : List ℕ)
    → IsString vm.mem d xs
    → IsString vm.mem b ys
    → p ≤ length xs
    → d + length xs + length ys < mem_bytes
    → Apart d (length xs + length ys + 1) b ys
    → let at = add32 d p in
      let n = length ys in
      let tail = length xs - p in
      IsString
        (if ltb 0 n
          then if ltb mem_bytes (at + n + tail + 1) && ltb mem_bytes (at + n + 1)
            then vm
            else record vm { mem = insert_bytes vm.mem at b n tail }
          else vm).mem
        d
        (take p xs ++ (ys ++ drop p xs))
insert_branch vm d b p xs [] s t hp lim apart = rw (take_append_drop p xs) s
insert_branch vm d b p xs (y ∷ ys) s t hp lim apart =
    let n = length (y ∷ ys) in
    let at : add32 d p ≡ d + p = unfold add32 in omega arith in
    rw
      (
        lt→ltb 0 n (omega arith),
        at,
        le→ltb-false (d + p + n + (length xs - p) + 1) mem_bytes (omega arith),
      )
      (IsString-insert vm.mem d p b xs (y ∷ ys) s (holds_front vm.mem b (y ∷ ys) (0 ∷ []) t.held)
        t.nonzero_bytes hp apart)

module _ (vm : VmState) (i : ℕ) where
  -- CONCAT appends the string at C to the string at B, where both end in memory, the result does
  -- too, and the source lies apart from the result.
  pub op_concat_lem :
      (xs ys : List ℕ)
      → IsString vm.mem (bv vm i) xs
      → IsString vm.mem (cv vm i) ys
      → bv vm i + length xs + length ys < mem_bytes
      → cv vm i + length ys < mem_bytes
      → Apart (bv vm i) (length xs + length ys + 1) (cv vm i) ys
      → IsString (op_concat vm i).mem (bv vm i) (xs ++ ys)
  unfolding op_concat
  op_concat_lem xs ys s t lim lim' apart =
      let d = bv vm i in
      let b = cv vm i in
      let at = d + length xs in
      let mem₁ = copy_bytes vm.mem at b (length ys) in
      rw
        (
          lt→leb-false mem_bytes d (omega arith),
          lt→leb-false mem_bytes b (omega arith),
          remaining-pos d (omega arith),
          strlen-string vm.mem d xs s (omega arith),
          strlen-string vm.mem b ys t lim',
          room-left d (length xs) (length ys) lim,
          copy_some-eq-copy vm.mem at b (length ys),
        )
        (null-IsString mem₁ d (at + length ys) (xs ++ ys)
          (holds-append mem₁ d xs ys
            (holds_uncopied vm.mem at b (length ys) d xs (inl (omega arith))
              (holds_front vm.mem d xs (0 ∷ []) s.held))
            (holds_copied vm.mem at b (length ys) ys (omega arith)
              (holds_front vm.mem b ys (0 ∷ []) t.held)))
          (nonzero-append xs ys s.nonzero_bytes t.nonzero_bytes)
          (omega (arith, length-append xs ys)) (omega arith))

  -- INSERT puts the string at B into the string at A before the position C, or at its end, where
  -- both end in memory, the result does too, and the source lies apart from the result.
  pub op_insert_lem :
      (xs ys : List ℕ)
      → IsString vm.mem (vm.reg (ra i)) xs
      → IsString vm.mem (bv vm i) ys
      → vm.reg (ra i) + length xs + length ys < mem_bytes
      → bv vm i + length ys < mem_bytes
      → Apart (vm.reg (ra i)) (length xs + length ys + 1) (bv vm i) ys
      → IsString
          (op_insert vm i).mem
          (vm.reg (ra i))
          (take (cv_or_imm vm i) xs ++ (ys ++ drop (cv_or_imm vm i) xs))
  unfolding op_insert
  op_insert_lem xs ys s t lim lim' apart =
      let d = vm.reg (ra i) in
      let b = bv vm i in
      let p = cut (length xs) (cv_or_imm vm i) in
      let le = cut-le (length xs) (cv_or_imm vm i) in
      let at : add32 d p ≡ d + p = unfold add32 in omega (arith, le) in
      rw
        (
          take-cut (cv_or_imm vm i) xs,
          drop-cut_self (cv_or_imm vm i) xs,
          lt→leb-false mem_bytes d (omega arith),
          lt→leb-false mem_bytes b (omega arith),
          remaining-pos d (omega arith),
          strlen-string vm.mem d xs s (omega arith),
          strlen-string vm.mem b ys t lim',
          room-left d (length xs) (length ys) lim,
        )
        (insert_branch vm d b p xs ys s t le lim apart)
