-- ===== src/Timers/OnDelay.antt =====
-- The on-delay timer over a sequence of scans.
use virtual_machine.Prelude.{
  ℕ, Bool, true, false, not, ◌+◌, ◌-◌, ◌%◌, ◌^◌, ◌≤◌, ◌<◌, ◌≡◌, ◌∙◌, arith, leb, ◌||◌, List, [],
  ◌∷◌, All,
}
use virtual_machine.Timers.{IecTimer, timespec_of, ms_diff, update_ton, arm}
use virtual_machine.Timers.Elapsed.{
  ms_diff-timespec_of, reached, IsAligned, ms_diff-aligned, or_assoc,
}

-- What `ton_set` does to its timer at a time.
unfoldable pub ton_scan : ℕ → IecTimer → Bool × ℕ → IecTimer
unfolding update_ton arm
ton_scan pt t (input, time) = update_ton time (arm input pt t)

abbrev pub ton_scans : ℕ → IecTimer → List (Bool × ℕ) → IecTimer
ton_scans pt t [] = t
ton_scans pt t (x ∷ xs) = ton_scans pt (ton_scan pt t x) xs

-- Scans with the input held high, at the given times.
abbrev pub held : List ℕ → List (Bool × ℕ)
held [] = []
held (n ∷ ns) = (true, n) ∷ held ns

-- The timer has been on since the time `s`; `done` says that the delay has passed.
record IsHolding (s : ℕ) (done : Bool) (t : IecTimer) : Type 0 where
  high : t.prev_input ≡ true
  running : t.timing ≡ not done
  shown : t.output ≡ done
  since : t.start ≡ timespec_of s

module _ (pt : ℕ) (positive : 0 < pt) where
  rise-IsHolding :
      (t : IecTimer) (s : ℕ)
      → s < 2 ^ 63
      → t.prev_input ≡ false
      → t.output ≡ false
      → IsHolding s false (ton_scan pt t (true, s))
  unfolding ton_scan
  rise-IsHolding t s lim p o =
      let e = ms_diff-aligned {s = s} {n = s} (omega arith) in ground (arith, e)

  hold-IsHolding :
      {t : IecTimer} {s : ℕ} {done : Bool} (n : ℕ)
      → IsAligned s n
      → IsHolding s done t
      → IsHolding s (done || leb pt (n - s)) (ton_scan pt t (true, n))
  unfolding ton_scan
  hold-IsHolding n a h = ground (arith, ms_diff-aligned a)

  scans_from :
      (ns : List ℕ) {t : IecTimer} {s : ℕ} {done : Bool}
      → All (IsAligned s) ns
      → IsHolding s done t
      → (ton_scans pt t (held ns)).output ≡ (done || reached pt s ns)
  scans_from [] all h = ground (arith, h.shown)
  scans_from (n ∷ ns) {s = s} {done = done} all h =
      scans_from ns all.1 (hold-IsHolding n all.0 h)
      ∙ or_assoc done (leb pt (n - s)) (reached pt s ns)

  -- For a positive preset and a timer that is off and whose input was low: while TON's input stays
  -- high from a rising edge at `s`, below 2 ^ 63, its output is on exactly if some scan came at
  -- least the preset after `s`, for scans from `s` on that are below 2 ^ 63, less than 2 ^ 32 ms
  -- after `s`, and not earlier in their second than `s` is in its.
  pub ton_delays :
      (t : IecTimer) (s : ℕ) (ns : List ℕ)
      → s < 2 ^ 63
      → t.prev_input ≡ false
      → t.output ≡ false
      → All (IsAligned s) ns
      → (ton_scans pt t (held (s ∷ ns))).output ≡ reached pt s ns
  ton_delays t s ns lim p o all = scans_from ns all (rise-IsHolding t s lim p o)

  -- A scan with the input low turns TON off and clears its elapsed time, whatever its state.
  pub ton_resets :
      (t : IecTimer) (n : ℕ)
      → let t' = ton_scan pt t (false, n) in
        (t'.output ≡ false) × (t'.et ≡ 0) × (t'.timing ≡ false) × (t'.prev_input ≡ false)
  unfolding ton_scan
  ton_resets t n = ground arith

  -- For a timer that is off and whose input was low, a scan that falls earlier in its second than
  -- the rising edge before it turns TON on at once, for every positive preset up to 4154504685 ms,
  -- any time less than 39 hours after the edge and below 2 ^ 63.
  pub ton_fires_early :
      (t : IecTimer) (s n : ℕ)
      → t.prev_input ≡ false
      → t.output ≡ false
      → s ≤ n
      → n < 2 ^ 63
      → n % 1000 < s % 1000
      → n - s < 140462611
      → pt ≤ 4154504685
      → (ton_scans pt t (held (s ∷ n ∷ []))).output ≡ true
  unfolding ton_scan
  ton_fires_early t s n p o h lim borrow near small =
      let e = ms_diff-aligned {s = s} {n = s} (omega arith) in
      let f : ms_diff (timespec_of s) (timespec_of n) ≡ n - s + 4154504685 =
        ground (arith, ms_diff-timespec_of s n) in
      ground (arith, e, f)
