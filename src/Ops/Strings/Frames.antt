-- ===== src/Ops/Strings/Frames.antt =====
-- Every string instruction keeps the frame of the machine.
use virtual_machine.Prelude.{
  ℕ, zero, suc, true, false, ◌||◌, ◌+◌, ◌-◌, ◌%◌, ◌≤◌, ◌<◌, ◌≡◌, ◌∙◌, ap, arith, ◌==◌, ltb, leb,
  if◌then◌else◌, Bool-cases, inl, inr, leb-false→lt, ltb-false→le, ltb→lt,
}
use virtual_machine.Word.{u32_mod, add32}
use virtual_machine.Instruction.{ra}
use virtual_machine.Machine.{mem_bytes, bv, cv, cv_or_imm}
use virtual_machine.Machine.Frame.{Framed-refl, Framed-if, KeepsFrame, set_a-Framed}
use virtual_machine.Ops.Strings.{
  safe_mem_remaining, str_len, safe_strlen_at, copy_bytes, safe_memmove, room_after, smaller,
  insert_bytes, op_len, op_concat, op_left, op_right, op_mid, op_insert, op_delete, op_replace,
}
use virtual_machine.Ops.Strings.Bounds.{
  mem-Framed, within_refl, within_memmove, within_null, str_len-le, remaining-le, safe_strlen_at-le,
  strlen-lt, within_copy_some, within_insert, append-fits, insert-fits, or-false,
}

ruleset frames =
    (Framed-if, Framed-refl, set_a-Framed, mem-Framed, within_null, within_memmove, within_refl)

pub op_len-KeepsFrame : KeepsFrame op_len
unfolding op_len
op_len-KeepsFrame vm i v = elim (Bool-cases (leb mem_bytes (bv vm i))) [
  | inl e ↦ rw e (set_a-Framed vm i 0 v (omega arith))
  | inr e ↦ rw e (set_a-Framed vm i _ v (strlen-lt vm.mem (bv vm i)))
]

pub op_left-KeepsFrame : KeepsFrame op_left
unfolding op_left
op_left-KeepsFrame vm i v = search frames

pub op_right-KeepsFrame : KeepsFrame op_right
unfolding op_right
op_right-KeepsFrame vm i v = search frames depth 9

pub op_mid-KeepsFrame : KeepsFrame op_mid
unfolding op_mid
op_mid-KeepsFrame vm i v = search frames

pub op_delete-KeepsFrame : KeepsFrame op_delete
unfolding op_delete
op_delete-KeepsFrame vm i v = search frames

pub op_concat-KeepsFrame : KeepsFrame op_concat
unfolding op_concat
op_concat-KeepsFrame vm i v =
    let dest = bv vm i in
    elim (Bool-cases (leb mem_bytes dest || leb mem_bytes (cv vm i))) [
      | inl e ↦ rw e (Framed-refl i v)
      | inr e ↦ elim (Bool-cases (safe_mem_remaining dest == 0)) [
        | inl f ↦ rw (e, f) (Framed-refl i v)
        | inr f ↦
            rw (e, f)
              (mem-Framed vm _ v (
                within_null _ (
                  within_copy_some _ _ _ (within_refl v) (
                    append-fits dest _ _ (leb-false→lt _ _ (or-false _ _ e).0)
                      (safe_strlen_at-le vm.mem dest)))))
      ]
    ]

insert_pos-le : (len c : ℕ) → (if ltb len c then len else c) ≤ len
insert_pos-le len c = ground arith

pub op_insert-KeepsFrame : KeepsFrame op_insert
unfolding op_insert
op_insert-KeepsFrame vm i v =
    let dest = vm.reg (ra i) in
    let len = safe_strlen_at vm.mem dest in
    let pos = if ltb len (cv_or_imm vm i) then len else cv_or_imm vm i in
    let n = smaller (safe_strlen_at vm.mem (bv vm i)) (room_after (safe_mem_remaining dest) len) in
    let at = add32 dest pos in
    let write =
      λ (inside : leb mem_bytes dest || leb mem_bytes (bv vm i) ≡ false)
          (some_new : ltb 0 n ≡ true).
        mem-Framed {i = i} vm (insert_bytes vm.mem at (bv vm i) n (len - pos)) v (
          within_insert at (bv vm i) n (len - pos) (within_refl v) (
            insert-fits dest len _ pos (leb-false→lt _ _ (or-false _ _ inside).0)
              (safe_strlen_at-le vm.mem dest) (insert_pos-le len _) (ltb→lt _ _ some_new))) in
    search (Framed-if, Framed-refl, write) depth 9

-- A string keeps its first `pos` bytes, and so at least that length, when these bytes stay.
str_len-ge :
    (mem mem' : ℕ → ℕ) (a rem pos : ℕ)
    → ((k : ℕ) → k < pos → mem' (a + k) ≡ mem (a + k))
    → pos ≤ str_len mem a rem
    → pos ≤ str_len mem' a rem
unfolding str_len
str_len-ge mem mem' a rem zero e h = omega arith
str_len-ge mem mem' a zero (suc pos) e h = h
str_len-ge mem mem' a (suc rem) (suc pos) e h =
    let first : mem' a ≡ mem a = ap mem' (omega arith) ∙ e 0 (omega arith) ∙ ap mem (omega arith) in
    ground (
      arith,
      first,
      str_len-ge mem mem' (a + 1) rem pos
          (λ k p. ap mem' (omega arith) ∙ e (suc k) (omega arith) ∙ ap mem (omega arith)),
    )

memmove_below : (mem : ℕ → ℕ) (dest src n a : ℕ) → a < dest → safe_memmove mem dest src n a ≡ mem a
unfolding safe_memmove copy_bytes
memmove_below mem dest src n a h = ground arith

-- The length that REPLACE finds after it has deleted does not fall below the position.
pos-le-current :
    (mem : ℕ → ℕ) (addr pos src n : ℕ)
    → addr < mem_bytes
    → pos ≤ safe_strlen_at mem addr
    → pos ≤ safe_strlen_at (safe_memmove mem (add32 addr pos) src n) addr
unfolding safe_strlen_at add32
pos-le-current mem addr pos src n lim h =
    let at = (addr + pos) % u32_mod in
    str_len-ge mem (safe_memmove mem at src n) addr (safe_mem_remaining addr) pos
      (λ k p.
        memmove_below mem at src n (addr + k)
          (omega (arith, str_len-le mem addr (safe_mem_remaining addr), remaining-le addr)))
      h

pub op_replace-KeepsFrame : KeepsFrame op_replace
unfolding op_replace
op_replace-KeepsFrame vm i v =
    let addr = vm.reg (ra i) in
    let pos = cv_or_imm vm i in
    let len = safe_strlen_at vm.mem addr in
    let found = safe_strlen_at vm.mem (bv vm i) in
    let rep_len = if ltb len (pos + found) then len - pos else found in
    let at = add32 addr pos in
    let mem₁ = safe_memmove vm.mem at (add32 at rep_len) (len - pos - rep_len + 1) in
    let current = safe_strlen_at mem₁ addr in
    let n = smaller rep_len (room_after (safe_mem_remaining addr) current) in
    let moved = within_memmove at (add32 at rep_len) (len - pos - rep_len + 1) (within_refl v) in
    let write =
      λ (inside : leb mem_bytes addr || leb mem_bytes (bv vm i) ≡ false)
          (in_string : ltb len pos ≡ false) (some_new : ltb 0 n ≡ true).
        mem-Framed {i = i} vm (insert_bytes mem₁ at (bv vm i) n (current - pos)) v (
          within_insert at (bv vm i) n (current - pos) moved (
            insert-fits addr current rep_len pos (leb-false→lt _ _ (or-false _ _ inside).0)
              (safe_strlen_at-le mem₁ addr)
              (pos-le-current vm.mem addr pos _ _ (leb-false→lt _ _ (or-false _ _ inside).0)
                (ltb-false→le _ _ in_string))
              (ltb→lt _ _ some_new))) in
    search (Framed-if, Framed-refl, write, mem-Framed vm mem₁ v moved) depth 9
