-- ===== src/Timers/Pulse.antt =====
-- The pulse timer over a sequence of scans.
use virtual_machine.Prelude.{
  ℕ, Bool, true, false, not, ◌-◌, ◌^◌, ◌<◌, ◌≡◌, ◌∙◌, ap, arith, leb, ◌||◌, List, [], ◌∷◌, All,
}
use virtual_machine.Timers.{IecTimer, timespec_of, update_tp, arm}
use virtual_machine.Timers.Elapsed.{reached, IsAligned, ms_diff-aligned, or_assoc}

-- What `tp_set` does to its timer at a time.
unfoldable pub tp_scan : ℕ → IecTimer → Bool × ℕ → IecTimer
unfolding update_tp arm
tp_scan pt t (input, time) = update_tp time (arm input pt t)

abbrev pub tp_scans : ℕ → IecTimer → List (Bool × ℕ) → IecTimer
tp_scans pt t [] = t
tp_scans pt t (x ∷ xs) = tp_scans pt (tp_scan pt t x) xs

-- No input rises after `prev`.
abbrev pub NoRise : Bool → List (Bool × ℕ) → Type 0
NoRise prev [] = Unit
NoRise prev ((b, n) ∷ xs) = ((prev || not b) ≡ true) × NoRise b xs

abbrev pub times : List (Bool × ℕ) → List ℕ
times [] = []
times ((b, n) ∷ xs) = n ∷ times xs

-- A pulse began at the time `s`, the last input was `prev`, and `done` says that the pulse is over.
record IsPulsing (s : ℕ) (prev done : Bool) (t : IecTimer) : Type 0 where
  last : t.prev_input ≡ prev
  running : t.timing ≡ not done
  shown : t.output ≡ not done
  since : t.start ≡ timespec_of s

module _ (pt : ℕ) (positive : 0 < pt) where
  rise-IsPulsing :
      (t : IecTimer) (s : ℕ)
      → s < 2 ^ 63
      → t.prev_input ≡ false
      → IsPulsing s true false (tp_scan pt t (true, s))
  unfolding tp_scan
  rise-IsPulsing t s lim p =
      let e = ms_diff-aligned {s = s} {n = s} (omega arith) in ground (arith, e)

  quiet-IsPulsing :
      {t : IecTimer} {s : ℕ} {prev done : Bool} (b : Bool) (n : ℕ)
      → IsAligned s n
      → (prev || not b) ≡ true
      → IsPulsing s prev done t
      → IsPulsing s b (done || leb pt (n - s)) (tp_scan pt t (b, n))
  unfolding tp_scan
  quiet-IsPulsing b n a q h = ground (arith, ms_diff-aligned a)

  pulse_from :
      (xs : List (Bool × ℕ)) {t : IecTimer} {s : ℕ} {prev done : Bool}
      → All (IsAligned s) (times xs)
      → NoRise prev xs
      → IsPulsing s prev done t
      → (tp_scans pt t xs).output ≡ not (done || reached pt s (times xs))
  pulse_from [] all q h = ground (arith, h.shown)
  pulse_from ((b, n) ∷ xs) {s = s} {done = done} all q h =
      pulse_from xs all.1 q.1 (quiet-IsPulsing b n all.0 q.0 h)
      ∙ ap not (or_assoc done (leb pt (n - s)) (reached pt s (times xs)))

  -- For a positive preset and a timer whose input was low: from a rising edge at `s`, below 2 ^ 63,
  -- and whatever its input does short of rising again, TP's output is on exactly until some scan
  -- comes at least the preset after `s`, for scans from `s` on that are below 2 ^ 63, less than 2 ^
  -- 32 ms after `s`, and not earlier in their second than `s` is in its.
  pub tp_pulses :
      (t : IecTimer) (s : ℕ) (xs : List (Bool × ℕ))
      → s < 2 ^ 63
      → t.prev_input ≡ false
      → All (IsAligned s) (times xs)
      → NoRise true xs
      → (tp_scans pt t ((true, s) ∷ xs)).output ≡ not (reached pt s (times xs))
  tp_pulses t s xs lim p all q = pulse_from xs all q (rise-IsPulsing t s lim p)
