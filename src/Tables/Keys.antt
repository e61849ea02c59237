-- ===== src/Tables/Keys.antt =====
-- The comparisons of the key types decide equality of the keys.
use virtual_machine.Prelude.{ℕ, true, ◌≡◌, ◌==◌, refl, ap, ◌∙◌, List, [], ◌∷◌, ==_iff, ==_refl}
use virtual_machine.HashTable.Sound.{KeyLaws}
use virtual_machine.HashTable.Find.{and-true}
use virtual_machine.Tables.{same_string, string_key_type, uint32_key_type}

pub same_string-eq : (xs ys : List ℕ) → same_string xs ys ≡ true → xs ≡ ys
same_string-eq [] [] h = refl
same_string-eq [] (y ∷ ys) h = absurd (cc)
same_string-eq (x ∷ xs) [] h = absurd (cc)
same_string-eq (x ∷ xs) (y ∷ ys) h =
    let (first, rest) = and-true (x == y) (same_string xs ys) h in
    ap (λ z. z ∷ xs) ((==_iff x y).0 first) ∙ ap (λ zs. y ∷ zs) (same_string-eq xs ys rest)

pub same_string_self : (xs : List ℕ) → same_string xs xs ≡ true
same_string_self [] = refl
same_string_self (x ∷ xs) = rw (==_refl x) (same_string_self xs)

pub string_key_type-KeyLaws : KeyLaws string_key_type
unfolding string_key_type
string_key_type-KeyLaws = record { cmp-eq = same_string-eq; cmp_self = same_string_self }

pub uint32_key_type-KeyLaws : KeyLaws uint32_key_type
unfolding uint32_key_type
uint32_key_type-KeyLaws = record { cmp-eq = λ a b. (==_iff a b).0; cmp_self = ==_refl }
