-- ===== src/Ops/Strings/Parts.antt =====
-- The parts of a zero-terminated string, and how a block becomes one.
use mathlib.Core.Path.{subst}
use mathlib.Core.List.{append_assoc}
use virtual_machine.Prelude.{
  ℕ, zero, suc, Bool, true, false, ◌+◌, ◌-◌, ◌≤◌, ◌<◌, ◌≡◌, ◌≢◌, inl, inr, refl, sym, ap, ◌∙◌,
  fun_ext, arith, min, ◌==◌, ltb, if◌then◌else◌, update, List, [], ◌∷◌, ◌++◌, length, take, drop,
  All, Bool-cases, ltb→lt, length-append,
}
use virtual_machine.Word.{add32}
use virtual_machine.Machine.{mem_bytes}
use virtual_machine.Ops.Strings.{safe_mem_remaining, copy_bytes, safe_memmove, set_null, copy_some}
use virtual_machine.Ops.Strings.Bytes.{
  Holds, IsString, holds-append, holds_front, holds_back, holds_of_eq, holds_copied, holds_uncopied,
}

pub take_append_drop : (n : ℕ) (xs : List ℕ) → take n xs ++ drop n xs ≡ xs
take_append_drop zero xs = refl
take_append_drop (suc n) [] = refl
take_append_drop (suc n) (x ∷ xs) = ap (λ l. x ∷ l) (take_append_drop n xs)

pub length-take : (n : ℕ) (xs : List ℕ) → length (take n xs) ≡ min n (length xs)
length-take zero xs = omega arith
length-take (suc n) [] = omega arith
length-take (suc n) (x ∷ xs) = omega (arith, length-take n xs)

pub length-drop : (n : ℕ) (xs : List ℕ) → length (drop n xs) ≡ length xs - n
length-drop zero xs = omega arith
length-drop (suc n) [] = omega arith
length-drop (suc n) (x ∷ xs) = omega (arith, length-drop n xs)

pub take_all : (n : ℕ) (xs : List ℕ) → length xs ≤ n → take n xs ≡ xs
take_all zero [] h = refl
take_all zero (x ∷ xs) h = absurd (omega arith)
take_all (suc n) [] h = refl
take_all (suc n) (x ∷ xs) h = ap (λ l. x ∷ l) (take_all n xs (omega arith))

pub drop_all : (n : ℕ) (xs : List ℕ) → length xs ≤ n → drop n xs ≡ []
drop_all zero [] h = refl
drop_all zero (x ∷ xs) h = absurd (omega arith)
drop_all (suc n) [] h = refl
drop_all (suc n) (x ∷ xs) h = drop_all n xs (omega arith)

abbrev pub NonZero : List ℕ → Type 0
NonZero = All (λ x. x ≢ 0)

pub nonzero-take : (n : ℕ) (xs : List ℕ) → NonZero xs → NonZero (take n xs)
nonzero-take zero xs h = tt
nonzero-take (suc n) [] h = tt
nonzero-take (suc n) (x ∷ xs) h = (h.0, nonzero-take n xs h.1)

pub nonzero-drop : (n : ℕ) (xs : List ℕ) → NonZero xs → NonZero (drop n xs)
nonzero-drop zero xs h = h
nonzero-drop (suc n) [] h = tt
nonzero-drop (suc n) (x ∷ xs) h = nonzero-drop n xs h.1

pub nonzero-append : (xs ys : List ℕ) → NonZero xs → NonZero ys → NonZero (xs ++ ys)
nonzero-append [] ys h k = k
nonzero-append (x ∷ xs) ys h k = (h.0, nonzero-append xs ys h.1 k)

-- The parts of a string that lies in memory.
pub IsString-take :
    (mem : ℕ → ℕ) (a n : ℕ) (xs : List ℕ) → IsString mem a xs → Holds mem a (take n xs)
IsString-take mem a n xs s =
    let h = holds_front mem a xs (0 ∷ []) s.held in
    holds_front mem a (take n xs) (drop n xs)
      (subst (λ l. Holds mem a l) (sym (take_append_drop n xs)) h)

pub IsString-drop :
    (mem : ℕ → ℕ) (a n : ℕ) (xs : List ℕ)
    → IsString mem a xs
    → n ≤ length xs
    → Holds mem (a + n) (drop n xs)
IsString-drop mem a n xs s le =
    let h = holds_front mem a xs (0 ∷ []) s.held in
    subst (λ k. Holds mem k (drop n xs)) (omega (arith, length-take n xs))
      (holds_back mem a (take n xs) (drop n xs)
        (subst (λ l. Holds mem a l) (sym (take_append_drop n xs)) h))

pub string_end : (mem : ℕ → ℕ) (a : ℕ) (xs : List ℕ) → IsString mem a xs → mem (a + length xs) ≡ 0
string_end mem a xs s = (holds_back mem a xs (0 ∷ []) s.held).0

-- The rest of a string with its terminator.
pub string_rest :
    (mem : ℕ → ℕ) (a n : ℕ) (xs : List ℕ)
    → IsString mem a xs
    → n ≤ length xs
    → Holds mem (a + n) (drop n xs ++ 0 ∷ [])
string_rest mem a n xs s le =
    holds-append mem (a + n) (drop n xs) (0 ∷ []) (IsString-drop mem a n xs s le)
      (ap mem (omega (arith, length-drop n xs)) ∙ string_end mem a xs s, tt)

-- Bytes become a string by a zero behind them.
pub null-IsString :
    (mem : ℕ → ℕ) (a at : ℕ) (ys : List ℕ)
    → Holds mem a ys
    → NonZero ys
    → at ≡ a + length ys
    → at < mem_bytes
    → IsString (set_null mem at) a ys
unfolding set_null
null-IsString mem a at ys h nz e lim = record {
  nonzero_bytes = nz;
  held =
      let mem' = if ltb at mem_bytes then update mem at 0 else mem in
      holds-append mem' a ys (0 ∷ []) (holds_of_eq mem mem' a a ys (λ k p. ground arith) h)
        (ground arith, tt);
}

pub memmove-eq-copy :
    (mem : ℕ → ℕ) (dest src n : ℕ)
    → dest + n ≤ mem_bytes
    → src + n ≤ mem_bytes
    → safe_memmove mem dest src n ≡ copy_bytes mem dest src n
unfolding safe_memmove safe_mem_remaining
memmove-eq-copy mem dest src n h k = ap (copy_bytes mem dest src) (ground arith)

pub copy_some-eq-copy :
    (mem : ℕ → ℕ) (dest src n : ℕ) → copy_some mem dest src n ≡ copy_bytes mem dest src n
unfolding copy_some
copy_some-eq-copy mem dest src n = fun_ext (λ a. ground arith)

-- A block, and behind it the rest of a string.
pub block-IsString :
    (mem : ℕ → ℕ) (a : ℕ) (xs ys : List ℕ)
    → Holds mem a xs
    → Holds mem (a + length xs) (ys ++ 0 ∷ [])
    → NonZero xs
    → NonZero ys
    → IsString mem a (xs ++ ys)
block-IsString mem a xs ys h k nx ny = record {
  nonzero_bytes = nonzero-append xs ys nx ny;
  held = rw append_assoc (holds-append mem a xs (ys ++ 0 ∷ []) h k);
}

pub if_same {ℓ} : {A : Type ℓ} (b : Bool) (x : A) → (if b then x else x) ≡ x
if_same true x = refl
if_same false x = refl

pub eq-false : (n : ℕ) → 0 < n → (n == 0) ≡ false
eq-false n h = ground arith

-- The number of bytes that DELETE takes, when `n` are asked for at `p`.
abbrev pub cut : ℕ → ℕ → ℕ
cut room n = if ltb room n then room else n

pub cut-le : (room n : ℕ) → cut room n ≤ room
cut-le room n = ground arith

pub drop-cut : (p n : ℕ) (xs : List ℕ) → drop (p + n) xs ≡ drop (p + cut (length xs - p) n) xs
drop-cut p n xs = elim (Bool-cases (ltb (length xs - p) n)) [
  | inl e ↦ rw e (
      drop_all (p + n) xs (omega (arith, ltb→lt (length xs - p) n e))
      ∙ sym (drop_all (p + (length xs - p)) xs (omega arith)))
  | inr e ↦ rw e
]

-- The move of DELETE.
pub IsString-delete :
    (mem : ℕ → ℕ) (d p n : ℕ) (xs : List ℕ)
    → IsString mem d xs
    → p ≤ length xs
    → n ≤ length xs - p
    → d + length xs < mem_bytes
    → IsString
        (safe_memmove mem (add32 d p) (add32 (add32 d p) n) (length xs - p - n + 1))
        d
        (take p xs ++ drop (p + n) xs)
IsString-delete mem d p n xs s hp hn lim =
    let at : add32 d p ≡ d + p = unfold add32 in omega arith in
    let src : add32 (d + p) n ≡ d + (p + n) = unfold add32 in omega arith in
    let m = length xs - p - n + 1 in
    rw (at, src, memmove-eq-copy mem (d + p) (d + (p + n)) m (omega arith) (omega arith))
      (block-IsString (copy_bytes mem (d + p) (d + (p + n)) m) d (take p xs) (drop (p + n) xs)
        (holds_uncopied mem (d + p) (d + (p + n)) m d (take p xs)
          (inl (omega (arith, length-take p xs))) (IsString-take mem d p xs s))
        (subst (λ k. Holds (copy_bytes mem (d + p) (d + (p + n)) m) k (drop (p + n) xs ++ 0 ∷ []))
          (omega (arith, length-take p xs))
          (holds_copied mem (d + p) (d + (p + n)) m (drop (p + n) xs ++ 0 ∷ [])
            (omega (arith, length-append (drop (p + n) xs) (0 ∷ []), length-drop (p + n) xs))
            (string_rest mem d (p + n) xs s (omega arith))))
        (nonzero-take p xs s.nonzero_bytes) (nonzero-drop (p + n) xs s.nonzero_bytes))

pub take-cut : (n : ℕ) (xs : List ℕ) → take n xs ≡ take (cut (length xs) n) xs
take-cut n xs = elim (Bool-cases (ltb (length xs) n)) [
  | inl e ↦
      let h = ltb→lt (length xs) n e in
      rw e (take_all n xs (omega arith) ∙ sym (take_all (length xs) xs (omega arith)))
  | inr e ↦ rw e
]

pub take_front : (xs ys : List ℕ) → take (length xs) (xs ++ ys) ≡ xs
take_front [] ys = refl
take_front (x ∷ xs) ys = ap (λ l. x ∷ l) (take_front xs ys)

pub drop_front : (xs ys : List ℕ) → drop (length xs) (xs ++ ys) ≡ ys
drop_front [] ys = refl
drop_front (x ∷ xs) ys = drop_front xs ys

pub drop-cut_self : (n : ℕ) (xs : List ℕ) → drop n xs ≡ drop (cut (length xs) n) xs
drop-cut_self n xs = elim (Bool-cases (ltb (length xs) n)) [
  | inl e ↦
      let h = ltb→lt (length xs) n e in
      rw e (drop_all n xs (omega arith) ∙ sym (drop_all (length xs) xs (omega arith)))
  | inr e ↦ rw e
]
