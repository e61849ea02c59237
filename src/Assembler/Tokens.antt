-- ===== src/Assembler/Tokens.antt =====
-- How `strtok` and the cutting of comments act on texts whose words are known.
use virtual_machine.Prelude.{
  ℕ, Bool, true, false, not, ◌≤◌, ◌≡◌, ◌≢◌, ◌||◌, refl, arith, ap, if◌then◌else◌, some, List, [],
  ◌∷◌, ◌++◌, All, Bool-cases, inl, inr,
}
use virtual_machine.Assembler.Text.{
  Strtol, take_until, drop_until, is_nul, is_newline, is_semicolon, is_space, is_delimiter,
  first_token, strtok, skipped, instruction, trimmed_line, source_line,
}

-- A byte of a word.
abbrev pub IsPlain : ℕ → Type 0
IsPlain c = (33 ≤ c) × (c ≢ b',') × (c ≢ b';')

-- A byte that neither ends a line nor starts a comment.
abbrev pub IsQuiet : ℕ → Type 0
IsQuiet c = (c ≢ 0) × (c ≢ b'\n') × (c ≢ b';')

pub plain-IsQuiet : (c : ℕ) → IsPlain c → IsQuiet c
plain-IsQuiet c (a, b, d) = (ground arith, ground arith, d)

pub All-append {ℓ κ} :
    {A : Type ℓ} (P : A → Type κ) (xs ys : List A) → All P xs → All P ys → All P (xs ++ ys)
All-append P [] ys hx hy = hy
All-append P (x ∷ xs) ys hx hy = (hx.0, All-append P xs ys hx.1 hy)

pub All-map {ℓ κ μ} :
    {A : Type ℓ} (P : A → Type κ) (Q : A → Type μ) (xs : List A)
    → ((a : A) → P a → Q a)
    → All P xs
    → All Q xs
All-map P Q [] f h = tt
All-map P Q (x ∷ xs) f h = (f x h.0, All-map P Q xs f h.1)

pub take_until-all :
    (stop : ℕ → Bool) (s : List ℕ) → All (λ c. stop c ≡ false) s → take_until stop s ≡ s
unfolding take_until
take_until-all stop [] h = refl
take_until-all stop (c ∷ s) h = rw (h.0) (ap (◌∷◌ c) (take_until-all stop s h.1))

pub take_until-append :
    (stop : ℕ → Bool) (s : List ℕ) (d : ℕ) (r : List ℕ)
    → All (λ c. stop c ≡ false) s
    → stop d ≡ true
    → take_until stop (s ++ d ∷ r) ≡ s
unfolding take_until
take_until-append stop [] d r h e = rw e refl
take_until-append stop (c ∷ s) d r h e = rw (h.0) (ap (◌∷◌ c) (take_until-append stop s d r h.1 e))

pub drop_until-append :
    (stop : ℕ → Bool) (s : List ℕ) (d : ℕ) (r : List ℕ)
    → All (λ c. stop c ≡ false) s
    → stop d ≡ true
    → drop_until stop (s ++ d ∷ r) ≡ d ∷ r
unfolding drop_until
drop_until-append stop [] d r h e = rw e refl
drop_until-append stop (c ∷ s) d r h e = rw (h.0) (drop_until-append stop s d r h.1 e)

not_delimiter : (c : ℕ) → IsPlain c → is_delimiter c ≡ false
not_delimiter c h = ground (arith, h)

-- A word with a delimiter behind it is the next token.
pub strtok-word :
    (c : ℕ) (w : List ℕ) (d : ℕ) (r : List ℕ)
    → All IsPlain (c ∷ w)
    → is_delimiter d ≡ true
    → strtok ((c ∷ w) ++ d ∷ r) ≡ (some (c ∷ w), r)
unfolding strtok first_token
strtok-word c w d r h e =
    let all = All-map IsPlain (λ a. is_delimiter a ≡ false) (c ∷ w) not_delimiter h in
    rw (not_delimiter c (h.0), drop_until)
      (rw (take_until-append is_delimiter (c ∷ w) d r all e)
        (rw (drop_until-append is_delimiter (c ∷ w) d r all e) refl))

pub strtok-skip : (d : ℕ) (s : List ℕ) → is_delimiter d ≡ true → strtok (d ∷ s) ≡ strtok s
unfolding strtok
strtok-skip d s e = rw (e, drop_until) refl

not_nul : (c : ℕ) → IsQuiet c → is_nul c ≡ false
not_nul c h = ground (arith, h)

pub not_newline : (c : ℕ) → IsQuiet c → is_newline c ≡ false
not_newline c h = ground (arith, h)

not_semicolon : (c : ℕ) → IsQuiet c → is_semicolon c ≡ false
not_semicolon c h = ground (arith, h)

not_space : (c : ℕ) → IsPlain c → is_space c ≡ false
not_space c h = ground (arith, h)

plain_start : (c : ℕ) → IsPlain c → (is_newline c || is_semicolon c) ≡ false
plain_start c h = ground (arith, h)

-- A line with no comment that starts with a word is one instruction.
pub source_line-word :
    (strtol : Strtol) (raw_halt : Bool) (c : ℕ) (s : List ℕ)
    → IsPlain c
    → All IsQuiet s
    → source_line strtol raw_halt ((c ∷ s) ++ b'\n' ∷ [])
      ≡ instruction strtol raw_halt (strtok (c ∷ s))
unfolding source_line trimmed_line
source_line-word strtol raw_halt c s plain quiet =
    let all : All IsQuiet (c ∷ s) = (plain-IsQuiet c plain, quiet) in
    let no_nul =
      All-append (λ a. is_nul a ≡ false) (c ∷ s) (b'\n' ∷ [])
        (All-map IsQuiet (λ a. is_nul a ≡ false) (c ∷ s) not_nul all) (refl, tt) in
    let one_line =
      take_until-append is_newline (c ∷ s) b'\n' []
        (All-map IsQuiet (λ a. is_newline a ≡ false) (c ∷ s) not_newline all) refl in
    let no_comment =
      take_until-all is_semicolon (c ∷ s)
        (All-map IsQuiet (λ a. is_semicolon a ≡ false) (c ∷ s) not_semicolon all) in
    rw (take_until-all is_nul ((c ∷ s) ++ b'\n' ∷ []) no_nul) (
      rw (not_space c plain, drop_until)
        (rw (plain_start c plain) (rw one_line (rw no_comment refl))))

cut_comment :
    (s junk : List ℕ)
    → All (λ c. is_newline c ≡ false) s
    → take_until is_semicolon (take_until is_newline (s ++ b';' ∷ junk))
      ≡ take_until is_semicolon (take_until is_newline s)
unfolding take_until
cut_comment [] junk h = refl
cut_comment (c ∷ s) junk h = elim (Bool-cases (is_semicolon c)) [
  | inl e ↦ rw (h.0, take_until) (rw e refl)
  | inr e ↦ rw (h.0, take_until) (rw e (ap (◌∷◌ c) (cut_comment s junk h.1)))
]

trimmed_line-comment :
    (strtol : Strtol) (raw_halt : Bool) (s junk : List ℕ)
    → All (λ c. is_newline c ≡ false) s
    → trimmed_line strtol raw_halt (drop_until (λ c. not (is_space c)) (s ++ b';' ∷ junk))
      ≡ trimmed_line strtol raw_halt (drop_until (λ c. not (is_space c)) s)
unfolding trimmed_line drop_until
trimmed_line-comment strtol raw_halt [] junk h = refl
trimmed_line-comment strtol raw_halt (c ∷ s) junk h = elim (Bool-cases (is_space c)) [
  | inl e ↦ rw e (trimmed_line-comment strtol raw_halt s junk h.1)
  | inr e ↦ rw e (
      ap
        (λ t.
          if is_newline c || is_semicolon c
          then skipped
          else instruction strtol raw_halt (strtok t))
        (cut_comment (c ∷ s) junk h))
]

cut_nul :
    (s junk : List ℕ)
    → All (λ c. is_nul c ≡ false) s
    → take_until is_nul (s ++ b';' ∷ junk) ≡ s ++ b';' ∷ take_until is_nul junk
unfolding take_until
cut_nul [] junk h = refl
cut_nul (c ∷ s) junk h = rw (h.0, take_until) (ap (◌∷◌ c) (cut_nul s junk h.1))

-- A comment behind a text without a newline and a NUL byte changes nothing: the line has the
-- outcome of the text before the semicolon, whatever the comment holds.
pub source_line-comment :
    (strtol : Strtol) (raw_halt : Bool) (s junk : List ℕ)
    → All (λ c. is_nul c ≡ false) s
    → All (λ c. is_newline c ≡ false) s
    → source_line strtol raw_halt (s ++ b';' ∷ junk) ≡ source_line strtol raw_halt s
unfolding source_line
source_line-comment strtol raw_halt s junk no_nul one_line = rw (cut_nul s junk no_nul) (
    rw (take_until-all is_nul s no_nul)
      (trimmed_line-comment strtol raw_halt s (take_until is_nul junk) one_line))
