-- ===== src/HotReload/Signature.antt =====
-- The signature of a directory: what a change of it is, and that a file's contents are hashed in
-- blocks as if at once.
use virtual_machine.Prelude.{
  ℕ, zero, suc, Bool, true, false, ◌+◌, ◌<◌, ◌≡◌, ◌≢◌, ◌↔◌, ==_iff, ◌==◌, ltb, arith, refl, sym, ap,
  ◌∙◌, List, length, length-append, take, drop, Option, ltb→lt, ltb-false→le, ==_refl, if_cases,
}
use virtual_machine.Hashing.{crc32_update}
use virtual_machine.Hashing.Stream.{crc32_update-append}
use virtual_machine.Ops.Strings.Parts.{take_append_drop, length-take, take_all}
use virtual_machine.HotReload.{
  DirEntry, crc_blocks, compare_signature, directory_changed, calc_dir_signature,
}

length-drop : (n : ℕ) (xs : List ℕ) → length (take n xs) + length (drop n xs) ≡ length xs
length-drop n xs = sym (length-append (take n xs) (drop n xs)) ∙ ap length (take_append_drop n xs)

pub crc_blocks-update :
    (fuel crc : ℕ) (bytes : List ℕ)
    → length bytes < fuel
    → crc_blocks fuel crc bytes ≡ crc32_update crc bytes
unfolding crc_blocks
crc_blocks-update zero crc bytes h = absurd (omega arith)
crc_blocks-update (suc fuel) crc bytes h =
    if_cases (λ r. r ≡ crc32_update crc bytes) (ltb (length (take 4096 bytes)) 4096)
      (λ short. ap (crc32_update crc) (
        take_all 4096 bytes
          (omega (arith, ltb→lt (length (take 4096 bytes)) 4096 short, length-take 4096 bytes))))
      (λ full.
        crc_blocks-update fuel (crc32_update crc (take 4096 bytes)) (drop 4096 bytes)
          (omega (arith, ltb-false→le (length (take 4096 bytes)) 4096 full, length-drop 4096 bytes))
        ∙ sym (crc32_update-append (take 4096 bytes) (drop 4096 bytes) crc)
        ∙ ap (crc32_update crc) (take_append_drop 4096 bytes))

compare_iff : (sig prev : ℕ) → ((compare_signature sig prev).0 ≡ true) ↔ ((prev ≢ 0) × (sig ≢ prev))
unfolding compare_signature
compare_iff sig prev =
    if_cases {A = Bool × ℕ} (λ r. (r.0 ≡ true) ↔ ((prev ≢ 0) × (sig ≢ prev))) (prev == 0)
      (λ zero. (λ h. absurd (cc), λ both. absurd (both.0 ((==_iff prev 0).0 zero))))
      (λ some_sig.
        if_cases {A = Bool × ℕ} (λ r. (r.0 ≡ true) ↔ ((prev ≢ 0) × (sig ≢ prev))) (sig == prev)
          (λ same. (λ h. absurd (cc), λ both. absurd (both.1 ((==_iff sig prev).0 same))))
          (λ other. (
            λ h. (
              λ e. absurd (let f = (==_iff prev 0).1 e in cc),
              λ e. absurd (let f = (==_iff sig prev).1 e in cc),
            ),
            λ both. refl,
          )))

compare_kept : (sig prev : ℕ) → (compare_signature sig prev).1 ≡ sig
unfolding compare_signature
compare_kept sig prev =
    if_cases {A = Bool × ℕ} (λ r. r.1 ≡ sig) (prev == 0) (λ zero. refl)
      (λ some_sig.
        if_cases {A = Bool × ℕ} (λ r. r.1 ≡ sig) (sig == prev)
          (λ same. sym ((==_iff sig prev).0 same)) (λ other. refl))

compare_self : (sig : ℕ) → compare_signature sig sig ≡ (false, sig)
unfolding compare_signature
compare_self sig =
    if_cases (λ r. r ≡ (false, sig)) (sig == 0) (λ zero. refl) (λ h. rw (==_refl sig) refl)

module _ (qsort : List DirEntry → List DirEntry) (path : List ℕ) (dir : Option (List DirEntry))
    (prev_sig : ℕ) where
  -- A change of a directory is reported exactly if there was a signature before and it was another
  -- one; a second call for the same directory reports none and keeps the signature.
  pub directory_changed_lem :
      let sig = calc_dir_signature qsort path dir in
      let r = directory_changed qsort path dir prev_sig in
      ((r.0 ≡ true) ↔ ((prev_sig ≢ 0) × (sig ≢ prev_sig)))
      × (directory_changed qsort path dir r.1 ≡ (false, sig))
  unfolding directory_changed compare_signature
  directory_changed_lem =
      let sig = calc_dir_signature qsort path dir in
      (
        compare_iff sig prev_sig,
        ap (compare_signature sig) (compare_kept sig prev_sig) ∙ compare_self sig,
      )

  pub directory_changed-kept :
      (directory_changed qsort path dir prev_sig).1 ≡ calc_dir_signature qsort path dir
  unfolding directory_changed
  directory_changed-kept = compare_kept (calc_dir_signature qsort path dir) prev_sig
