-- ===== src/HotReload/Names.antt =====
-- The file names that a reload takes.
use virtual_machine.Prelude.{
  ℕ, true, false, ◌≡◌, ◌↔◌, refl, ap, List, [], ◌∷◌, ◌++◌, Option, none, some, ◌==◌, if_cases,
}
use virtual_machine.Tables.{same_string}
use virtual_machine.Tables.Keys.{same_string-eq, same_string_self}
use virtual_machine.HotReload.{dot_or, last_dot, dot_bin, has_bin_extension}

dot_or-suffix :
    (c : ℕ) (cs : List ℕ) (o : Option (List ℕ)) (s : List ℕ)
    → (o ≡ some s → (stem : List ℕ) × (cs ≡ stem ++ s))
    → dot_or c cs o ≡ some s
    → (stem : List ℕ) × (c ∷ cs ≡ stem ++ s)
dot_or-suffix c cs (some dot) s rest h = let (stem, e) = rest h in (c ∷ stem, ap (λ l. c ∷ l) e)
dot_or-suffix c cs none s rest h =
    if_cases (λ o. o ≡ some s → (stem : List ℕ) × (c ∷ cs ≡ stem ++ s)) (c == 46)
      (λ dot k. let e : c ∷ cs ≡ s = cc in ([], e)) (λ other k. absurd (cc)) h

last_dot-suffix : (name s : List ℕ) → last_dot name ≡ some s → (stem : List ℕ) × (name ≡ stem ++ s)
last_dot-suffix [] s h = absurd (cc)
last_dot-suffix (c ∷ cs) s h = dot_or-suffix c cs (last_dot cs) s (last_dot-suffix cs s) h

last_dot-bin : (stem : List ℕ) → last_dot (stem ++ dot_bin) ≡ some dot_bin
last_dot-bin [] = refl
last_dot-bin (c ∷ cs) = rw (last_dot-bin cs) refl

same_bin :
    (o : Option (List ℕ))
    → (elim o [ none ↦ false | some dot ↦ same_string dot dot_bin ]) ≡ true
    → o ≡ some dot_bin
same_bin none h = absurd (cc)
same_bin (some dot) h = ap some (same_string-eq dot dot_bin h)

-- The name ends with ".bin".
abbrev pub EndsWithBin : List ℕ → Type 0
EndsWithBin name = (stem : List ℕ) × (name ≡ stem ++ dot_bin)

pub has_bin_extension_iff : (name : List ℕ) → (has_bin_extension name ≡ true) ↔ EndsWithBin name
unfolding has_bin_extension
has_bin_extension_iff name = (
  λ h. last_dot-suffix name dot_bin (same_bin (last_dot name) h),
  λ (stem, e). rw (e, has_bin_extension, last_dot-bin stem) (same_string_self dot_bin),
)
