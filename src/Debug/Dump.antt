-- ===== src/Debug/Dump.antt =====
-- The dump of a part of the memory: `fprintf_mem_bytes` of prototype-integrator/src/debug.c, without the
-- characters beside the bytes.
use mathlib.Core.List.{append-nil}
use virtual_machine.Prelude.{
  ℕ, zero, suc, false, ◌+◌, ◌-◌, ◌≤◌, ◌<◌, ◌≡◌, ltb, leb, min, refl, arith, sym, ap, ◌∙◌,
  if◌then◌else◌, List, [], ◌∷◌, ◌++◌, Bool-cases, inl, inr,
}
use virtual_machine.Machine.{mem_bytes}
use virtual_machine.Hashing.{memory_bytes}

-- The header and the rows of the dump: where they start, and their bytes.
pub record Dump : Type 0 where
  pub first : ℕ
  pub last : ℕ
  pub rows : List (ℕ × List ℕ)

-- The loop over the rows of 16 bytes.
unfoldable pub dump_rows : (ℕ → ℕ) → ℕ → ℕ → ℕ → List (ℕ × List ℕ)
unfolding memory_bytes
dump_rows mem zero i last = []
dump_rows mem (suc fuel) i last =
    let rest = dump_rows mem fuel (i + 16) last in
    if ltb i last then (i, memory_bytes mem i (min 16 (last - i))) ∷ rest else []

-- Each row takes up at least one byte, so that the number of bytes is enough fuel.
unfoldable pub fprintf_mem_bytes : (ℕ → ℕ) → ℕ → ℕ → List Dump
unfolding dump_rows
fprintf_mem_bytes mem from last =
    let to = min last mem_bytes in
    if leb last from
    then []
    else (record { first = from; last = to; rows = dump_rows mem (to - from) from to }) ∷ []

-- The bytes of the rows.
abbrev pub dumped : List (ℕ × List ℕ) → List ℕ
dumped [] = []
dumped (r ∷ rs) = r.1 ++ dumped rs

memory_bytes-split :
    (mem : ℕ → ℕ) (start m n : ℕ)
    → memory_bytes mem start (m + n) ≡ memory_bytes mem start m ++ memory_bytes mem (start + m) n
unfolding memory_bytes
memory_bytes-split mem start zero n =
    ap (λ n. memory_bytes mem start n) (let e : 0 + n ≡ n = omega arith in e)
    ∙ ap (λ a. memory_bytes mem a n) (let e : start ≡ start + 0 = omega arith in e)
memory_bytes-split mem start (suc m) n =
    ap (λ n. memory_bytes mem start n) (let e : suc m + n ≡ suc (m + n) = omega arith in e)
    ∙ ap (◌∷◌ (mem start)) (
        memory_bytes-split mem (start + 1) m n
        ∙ ap (λ a. memory_bytes mem (start + 1) m ++ memory_bytes mem a n)
            (let e : start + 1 + m ≡ start + suc m = omega arith in e))

nothing_behind :
    (mem : ℕ → ℕ) (i j n : ℕ) → memory_bytes mem i n ++ memory_bytes mem j 0 ≡ memory_bytes mem i n
unfolding memory_bytes
nothing_behind mem i j n = append-nil (memory_bytes mem i n)

row_joined :
    (mem : ℕ → ℕ) (i last : ℕ)
    → memory_bytes mem i (min 16 (last - i)) ++ memory_bytes mem (i + 16) (last - (i + 16))
      ≡ memory_bytes mem i (last - i)
row_joined mem i last = elim (Bool-cases (leb 16 (last - i))) [
  | inl e ↦
      let full : min 16 (last - i) ≡ 16 = ground (arith, e) in
      let sum : 16 + (last - (i + 16)) ≡ last - i = ground (arith, e) in
      ap (λ n. memory_bytes mem i n ++ memory_bytes mem (i + 16) (last - (i + 16))) full
      ∙ sym (memory_bytes-split mem i 16 (last - (i + 16)))
      ∙ ap (memory_bytes mem i) sum
  | inr e ↦
      let part : min 16 (last - i) ≡ last - i = ground (arith, e) in
      let none_left : last - (i + 16) ≡ 0 = ground (arith, e) in
      ap (λ n. memory_bytes mem i n ++ memory_bytes mem (i + 16) (last - (i + 16))) part
      ∙ ap (λ n. memory_bytes mem i (last - i) ++ memory_bytes mem (i + 16) n) none_left
      ∙ nothing_behind mem i (i + 16) (last - i)
]

dumped-dump_rows :
    (mem : ℕ → ℕ) (fuel i last : ℕ)
    → last - i ≤ fuel
    → dumped (dump_rows mem fuel i last) ≡ memory_bytes mem i (last - i)
unfolding dump_rows
dumped-dump_rows mem zero i last h =
    ap (memory_bytes mem i) (let e : 0 ≡ last - i = omega (arith, h) in e)
dumped-dump_rows mem (suc fuel) i last h = elim (Bool-cases (ltb i last)) [
  | inl e ↦
      let row = min 16 (last - i) in
      rw e (
        ap (◌++◌ (memory_bytes mem i row))
          (dumped-dump_rows mem fuel (i + 16) last (ground (arith, h, e)))
        ∙ row_joined mem i last)
  | inr e ↦ rw e (ap (memory_bytes mem i) (let z : 0 ≡ last - i = ground (arith, e) in z))
]

-- A dump from `from` up to `last` has one header, which cuts the end off at the end of the memory, and
-- its rows show the bytes between, each once and in order.
pub fprintf_mem_bytes_lem :
    (mem : ℕ → ℕ) (from last : ℕ)
    → from < last
    → let to = min last mem_bytes in
      let rows = dump_rows mem (to - from) from to in
      (fprintf_mem_bytes mem from last ≡ (record { first = from; last = to; rows = rows }) ∷ [])
      × (dumped rows ≡ memory_bytes mem from (to - from))
unfolding fprintf_mem_bytes
fprintf_mem_bytes_lem mem from last h =
    let open_range : leb last from ≡ false = ground (arith, h) in
    (
      rw open_range refl,
      dumped-dump_rows mem (min last mem_bytes - from) from (min last mem_bytes) (omega arith),
    )
