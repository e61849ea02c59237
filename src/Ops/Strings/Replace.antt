-- ===== src/Ops/Strings/Replace.antt =====
-- REPLACE.
use mathlib.Core.Path.{subst}
use virtual_machine.Prelude.{
  ℕ, zero, suc, ◌+◌, ◌-◌, ◌≤◌, ◌<◌, ◌≡◌, ◌⊎◌, inl, inr, ◌∙◌, arith, min, ltb, if◌then◌else◌, List,
  [], ◌∷◌, ◌++◌, length, take, drop, lt→leb-false, lt→ltb, le→ltb-false, length-append,
}
use virtual_machine.Word.{add32}
use virtual_machine.Instruction.{ra}
use virtual_machine.Machine.{VmState, mem_bytes, bv, cv_or_imm}
use virtual_machine.Ops.Strings.{safe_strlen_at, safe_memmove, insert_bytes, op_replace}
use virtual_machine.Ops.Strings.Bytes.{Holds, IsString, holds_front, holds_uncopied, strlen-string}
use virtual_machine.Ops.Strings.Parts.{
  take_append_drop, length-take, length-drop, NonZero, nonzero-take, take_append_drop, take_front,
  drop_front, memmove-eq-copy, IsString-delete, take_append_drop, take_front, drop_front,
}
use virtual_machine.Ops.Strings.Joins.{Apart, room-left, IsString-insert}

-- The bytes that REPLACE takes out and puts in.
abbrev pub replaced : ℕ → ℕ → ℕ → ℕ
replaced len p found = min found (len - p)

replaced-eq :
    (len p found : ℕ)
    → p ≤ len
    → (if ltb len (p + found) then len - p else found) ≡ replaced len p found
replaced-eq len p found h = ground arith

-- The deletion of REPLACE leaves a string apart alone.
replace_source :
    (mem : ℕ → ℕ) (d p k len b : ℕ) (ys : List ℕ)
    → Holds mem b ys
    → p + k ≤ len
    → d + len < mem_bytes
    → Apart d (len + 1) b ys
    → Holds (safe_memmove mem (add32 d p) (add32 (add32 d p) k) (len - p - k + 1)) b ys
replace_source mem d p k len b ys h le lim apart =
    let at : add32 d p ≡ d + p = unfold add32 in omega arith in
    let src : add32 (d + p) k ≡ d + (p + k) = unfold add32 in omega arith in
    let m = len - p - k + 1 in
    rw (at, src, memmove-eq-copy mem (d + p) (d + (p + k)) m (omega arith) (omega arith))
      (holds_uncopied mem (d + p) (d + (p + k)) m b ys (away apart) h)
  where
    away : Apart d (len + 1) b ys → (b + length ys ≤ d + p) ⊎ (d + p + (len - p - k + 1) ≤ b)
    away (inl q) = inl (omega arith)
    away (inr q) = inr (omega arith)

replace_branch :
    (vm : VmState) (mem₁ : ℕ → ℕ) (d b p k : ℕ) (xs ys : List ℕ)
    → p + k ≤ length xs
    → k ≤ length ys
    → IsString mem₁ d (take p xs ++ drop (p + k) xs)
    → Holds mem₁ b (take k ys)
    → NonZero (take k ys)
    → d + length xs < mem_bytes
    → Apart d (length xs + 1) b ys
    → IsString
        (if ltb 0 k
          then record vm { mem = insert_bytes mem₁ (add32 d p) b k (length xs - k - p) }
          else record vm { mem = mem₁ }).mem
        d
        (take p xs ++ (take k ys ++ drop (p + k) xs))
replace_branch vm mem₁ d b p zero xs ys hp hk s h nz lim apart = s
replace_branch vm mem₁ d b p (suc k) xs ys hp hk s h nz lim apart =
    let zs = take p xs ++ drop (p + suc k) xs in
    let len_p : length (take p xs) ≡ p = omega (arith, length-take p xs) in
    let len_k : length (take (suc k) ys) ≡ suc k = omega (arith, length-take (suc k) ys) in
    let len_z : length zs ≡ length xs - suc k =
      omega (
        arith,
        length-append (take p xs) (drop (p + suc k) xs),
        length-drop (p + suc k) xs,
        len_p,
      ) in
    let at : add32 d p ≡ d + p = unfold add32 in omega arith in
    let front : take p zs ≡ take p xs =
      subst (λ q. take q zs ≡ take p xs) len_p (take_front (take p xs) (drop (p + suc k) xs)) in
    let back : drop p zs ≡ drop (p + suc k) xs =
      subst (λ q. drop q zs ≡ drop (p + suc k) xs) len_p
        (drop_front (take p xs) (drop (p + suc k) xs)) in
    let apart' : Apart d (length zs + length (take (suc k) ys) + 1) b (take (suc k) ys) =
      elim apart [
        | inl q ↦ inl (omega (arith, len_k, hk, q))
        | inr q ↦ inr (omega (arith, len_k, len_z, q, hp))
      ] in
    let joined =
      IsString-insert mem₁ d p b zs (take (suc k) ys) s h nz (omega (arith, len_z, hp)) apart' in
    rw (lt→ltb 0 (suc k) (omega arith), at) (rw (front, back, len_k, len_z) at joined)

module _ (vm : VmState) (i : ℕ) where
  -- REPLACE overwrites the string at A from the position C on with the string at B, as far as the
  -- former reaches, where both end in memory, C does not lie behind the end of A, and the strings
  -- lie apart.
  pub op_replace_lem :
      (xs ys : List ℕ)
      → IsString vm.mem (vm.reg (ra i)) xs
      → IsString vm.mem (bv vm i) ys
      → vm.reg (ra i) + length xs < mem_bytes
      → bv vm i + length ys < mem_bytes
      → Apart (vm.reg (ra i)) (length xs + 1) (bv vm i) ys
      → cv_or_imm vm i ≤ length xs
      → let p = cv_or_imm vm i in
        let k = replaced (length xs) p (length ys) in
        IsString (op_replace vm i).mem (vm.reg (ra i)) (take p xs ++ (take k ys ++ drop (p + k) xs))
  unfolding op_replace
  op_replace_lem xs ys s t lim lim' apart hp =
      let d = vm.reg (ra i) in
      let b = bv vm i in
      let p = cv_or_imm vm i in
      let k = replaced (length xs) p (length ys) in
      let mem₁ = safe_memmove vm.mem (add32 d p) (add32 (add32 d p) k) (length xs - p - k + 1) in
      let zs = take p xs ++ drop (p + k) xs in
      let shorter = IsString-delete vm.mem d p k xs s hp (omega arith) lim in
      let len_z : length zs ≡ length xs - k = omega (
        arith,
        length-append (take p xs) (drop (p + k) xs),
        length-take p xs,
        length-drop (p + k) xs,
      ) in
      let source =
        replace_source vm.mem d p k (length xs) b ys (holds_front vm.mem b ys (0 ∷ []) t.held)
          (omega arith) lim apart in
      let current : safe_strlen_at mem₁ d ≡ length xs - k =
        strlen-string mem₁ d zs shorter (omega (arith, len_z)) ∙ len_z in
      rw
        (
          lt→leb-false mem_bytes d (omega arith),
          lt→leb-false mem_bytes b (omega arith),
          strlen-string vm.mem d xs s lim,
          strlen-string vm.mem b ys t lim',
          le→ltb-false p (length xs) hp,
          replaced-eq (length xs) p (length ys) hp,
          current,
          room-left d (length xs - k) k (omega arith),
        )
        (replace_branch vm mem₁ d b p k xs ys (omega arith) (omega arith) shorter
          (holds_front mem₁ b (take k ys) (drop k ys) (rw take_append_drop source))
          (nonzero-take k ys t.nonzero_bytes) lim apart)
