-- ===== src/Timers/Elapsed.antt =====
-- `ms_diff` on two times of the machine.
use virtual_machine.Prelude.{
  ℕ, Bool, true, false, ◌+◌, ◌-◌, ◌%◌, ◌^◌, ◌≤◌, ◌<◌, ◌≡◌, refl, arith, leb, ◌||◌, if◌then◌else◌,
  List, [], ◌∷◌,
}
use virtual_machine.Word.{u32_mod}
use virtual_machine.Timers.{timespec_of, ms_diff}

-- For times `s` ≤ `n` below 2 ^ 63, the elapsed milliseconds are right, modulo 2 ^ 32, when the
-- later time is not behind within its second. Otherwise they are too large by 4154504685, modulo 2
-- ^ 32.
pub ms_diff-timespec_of :
    (s n : ℕ)
    → s ≤ n
    → n < 2 ^ 63
    → ms_diff (timespec_of s) (timespec_of n)
      ≡ (if leb (s % 1000) (n % 1000) then (n - s) % u32_mod else (n - s + 4154504685) % u32_mod)
unfolding ms_diff timespec_of
ms_diff-timespec_of s n h lim = ground arith

-- Some time is at least `pt` after `s`.
abbrev pub reached : ℕ → ℕ → List ℕ → Bool
reached pt s [] = false
reached pt s (n ∷ ns) = leb pt (n - s) || reached pt s ns

-- A time from `s` on at which the elapsed time since `s` is computed without a borrow and does not wrap
-- around.
pub record IsAligned (s n : ℕ) : Type 0 where
  pub after : s ≤ n
  pub range : n < 2 ^ 63
  pub within : s % 1000 ≤ n % 1000
  pub near : n - s < u32_mod

pub ms_diff-aligned : {s n : ℕ} → IsAligned s n → ms_diff (timespec_of s) (timespec_of n) ≡ n - s
ms_diff-aligned {s} {n} a = ground (arith, ms_diff-timespec_of s n)

pub or_assoc : (a b c : Bool) → ((a || b) || c) ≡ (a || (b || c))
or_assoc true b c = refl
or_assoc false b c = refl
