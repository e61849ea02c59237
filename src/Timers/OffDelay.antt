-- ===== src/Timers/OffDelay.antt =====
-- The off-delay timer over a sequence of scans.
use virtual_machine.Prelude.{
  ℕ, Bool, true, false, not, ◌-◌, ◌^◌, ◌<◌, ◌≡◌, ◌∙◌, ap, arith, leb, ◌||◌, List, [], ◌∷◌, All,
}
use virtual_machine.Timers.{IecTimer, timespec_of, update_tof, arm}
use virtual_machine.Timers.Elapsed.{reached, IsAligned, ms_diff-aligned, or_assoc}

-- What `tof_set` does to its timer at a time.
unfoldable pub tof_scan : ℕ → IecTimer → Bool × ℕ → IecTimer
unfolding update_tof arm
tof_scan pt t (input, time) = update_tof time (arm input pt t)

-- Scans with the input low, at the given times.
abbrev pub tof_released : ℕ → IecTimer → List ℕ → IecTimer
tof_released pt t [] = t
tof_released pt t (n ∷ ns) = tof_released pt (tof_scan pt t (false, n)) ns

-- The input has been low since the time `s`; `done` says that the delay has passed.
record IsReleased (s : ℕ) (done : Bool) (t : IecTimer) : Type 0 where
  low : t.prev_input ≡ false
  running : t.timing ≡ not done
  shown : t.output ≡ not done
  since : t.start ≡ timespec_of s

module _ (pt : ℕ) (positive : 0 < pt) where
  fall-IsReleased :
      (t : IecTimer) (s : ℕ)
      → s < 2 ^ 63
      → t.prev_input ≡ true
      → IsReleased s false (tof_scan pt t (false, s))
  unfolding tof_scan
  fall-IsReleased t s lim p =
      let e = ms_diff-aligned {s = s} {n = s} (omega arith) in ground (arith, e)

  low-IsReleased :
      {t : IecTimer} {s : ℕ} {done : Bool} (n : ℕ)
      → IsAligned s n
      → IsReleased s done t
      → IsReleased s (done || leb pt (n - s)) (tof_scan pt t (false, n))
  unfolding tof_scan
  low-IsReleased n a h = ground (arith, ms_diff-aligned a)

  released_from :
      (ns : List ℕ) {t : IecTimer} {s : ℕ} {done : Bool}
      → All (IsAligned s) ns
      → IsReleased s done t
      → (tof_released pt t ns).output ≡ not (done || reached pt s ns)
  released_from [] all h = ground (arith, h.shown)
  released_from (n ∷ ns) {s = s} {done = done} all h =
      released_from ns all.1 (low-IsReleased n all.0 h)
      ∙ ap not (or_assoc done (leb pt (n - s)) (reached pt s ns))

  -- For a positive preset and a timer whose input was high: while TOF's input stays low from a
  -- falling edge at `s`, below 2 ^ 63, its output stays on exactly until some scan comes at least
  -- the preset after `s`, for scans from `s` on that are below 2 ^ 63, less than 2 ^ 32 ms after
  -- `s`, and not earlier in their second than `s` is in its.
  pub tof_delays :
      (t : IecTimer) (s : ℕ) (ns : List ℕ)
      → s < 2 ^ 63
      → t.prev_input ≡ true
      → All (IsAligned s) ns
      → (tof_released pt t (s ∷ ns)).output ≡ not (reached pt s ns)
  tof_delays t s ns lim p all = released_from ns all (fall-IsReleased t s lim p)

  -- A scan with the input high turns TOF on and stops its delay, whatever its state.
  pub tof_sets :
      (t : IecTimer) (n : ℕ)
      → let t' = tof_scan pt t (true, n) in
        (t'.output ≡ true) × (t'.et ≡ 0) × (t'.timing ≡ false) × (t'.prev_input ≡ true)
  unfolding tof_scan
  tof_sets t n = ground arith
