-- ===== src/Perf/Extremes.antt =====
-- What the counters of the instructions say.
use virtual_machine.Prelude.{
  ℕ, ◌+◌, ◌-◌, ◌*◌, ◌%◌, ◌≤◌, ◌<◌, ◌≡◌, ◌⊎◌, refl, arith, ◌∙◌, List, [], ◌∷◌, length, All, inl, inr,
}
use virtual_machine.Word.{u64_mod}
use virtual_machine.Timers.{Timespec}
use virtual_machine.Perf.{
  ts_to_ns, ts_diff_ns, VmPerfStats, vm_perf_stats_init, add64, Stamps, record_instruction,
  record_instructions,
}

-- The clock does not run backwards, and its nanoseconds fit 64 bits.
abbrev pub Runs : Timespec → Timespec → Type 0
Runs s t =
    (s.tv_sec * 1_000_000_000 + s.tv_nsec ≤ t.tv_sec * 1_000_000_000 + t.tv_nsec)
    × (t.tv_sec * 1_000_000_000 + t.tv_nsec < u64_mod)

abbrev pub ns : Timespec → ℕ
ns t = t.tv_sec * 1_000_000_000 + t.tv_nsec

pub ts_diff_ns_lem : (s t : Timespec) → Runs s t → ts_diff_ns s t ≡ ns t - ns s
unfolding ts_diff_ns ts_to_ns
ts_diff_ns_lem s t h = omega (arith, h)

-- The duration of an instruction.
abbrev pub duration : Stamps → ℕ
duration s = ts_diff_ns s.t0 s.t3

-- `m` is one of the durations.
abbrev pub IsOne : ℕ → List Stamps → Type 0
IsOne m [] = ⊥
IsOne m (s ∷ ss) = (m ≡ duration s) ⊎ IsOne m ss

-- One instruction with a duration that is not 0, on counters that have seen one.
record_min :
    (s : Stamps) (perf : VmPerfStats)
    → 0 < duration s
    → 0 < perf.min_instr_ns
    → let m = (record_instruction s perf).min_instr_ns in
      (0 < m)
      × (m ≤ perf.min_instr_ns)
      × (m ≤ duration s)
      × ((m ≡ perf.min_instr_ns) ⊎ (m ≡ duration s))
unfolding record_instruction
record_min s perf h k = ground (arith, h, k)

record_max :
    (s : Stamps) (perf : VmPerfStats)
    → let m = (record_instruction s perf).max_instr_ns in
      (perf.max_instr_ns ≤ m) × (duration s ≤ m) × ((m ≡ perf.max_instr_ns) ⊎ (m ≡ duration s))
unfolding record_instruction
record_max s perf = ground arith

IsOne-later :
    (m a : ℕ) (s : Stamps) (ss : List Stamps) {p : ℕ}
    → (a ≡ p) ⊎ (a ≡ duration s)
    → (m ≡ a) ⊎ IsOne m ss
    → (m ≡ p) ⊎ IsOne m (s ∷ ss)
IsOne-later m a s ss (inl e) (inl f) = inl (f ∙ e)
IsOne-later m a s ss (inr e) (inl f) = inr (inl (f ∙ e))
IsOne-later m a s ss e (inr f) = inr (inr f)

least_of :
    (ss : List Stamps) (perf : VmPerfStats)
    → All (λ s. 0 < duration s) ss
    → 0 < perf.min_instr_ns
    → let m = (record_instructions ss perf).min_instr_ns in
      (m ≤ perf.min_instr_ns)
      × All (λ s. m ≤ duration s) ss
      × ((m ≡ perf.min_instr_ns) ⊎ IsOne m ss)
unfolding record_instructions
least_of [] perf h k = (omega arith, tt, inl refl)
least_of (s ∷ ss) perf (h, hs) k =
    let (some_time, below, here, which) = record_min s perf h k in
    let (lower, all, later) = least_of ss (record_instruction s perf) hs some_time in
    (
      omega (arith, below, lower),
      (omega (arith, here, lower), all),
      IsOne-later _ _ s ss which later,
    )

greatest_of :
    (ss : List Stamps) (perf : VmPerfStats)
    → let m = (record_instructions ss perf).max_instr_ns in
      (perf.max_instr_ns ≤ m)
      × All (λ s. duration s ≤ m) ss
      × ((m ≡ perf.max_instr_ns) ⊎ IsOne m ss)
unfolding record_instructions
greatest_of [] perf = (omega arith, tt, inl refl)
greatest_of (s ∷ ss) perf =
    let (above, here, which) = record_max s perf in
    let (higher, all, later) = greatest_of ss (record_instruction s perf) in
    (
      omega (arith, above, higher),
      (omega (arith, here, higher), all),
      IsOne-later _ _ s ss which later,
    )

first_counted :
    (s : Stamps)
    → ((record_instruction s vm_perf_stats_init).min_instr_ns ≡ duration s)
      × ((record_instruction s vm_perf_stats_init).max_instr_ns ≡ duration s)
unfolding record_instruction
first_counted s = ground arith

either :
    {m a : ℕ} (s : Stamps) (ss : List Stamps)
    → a ≡ duration s
    → (m ≡ a) ⊎ IsOne m ss
    → IsOne m (s ∷ ss)
either s ss e (inl f) = inl (f ∙ e)
either s ss e (inr f) = inr f

-- After instructions that all took time, at least one, counted from fresh counters: the counters
-- hold the shortest and the longest of their durations, bounds of all of them, each the duration of
-- one.
pub record_instructions-extremes :
    (s : Stamps) (ss : List Stamps)
    → All (λ x. 0 < duration x) (s ∷ ss)
    → let perf = record_instructions (s ∷ ss) vm_perf_stats_init in
      All (λ x. perf.min_instr_ns ≤ duration x) (s ∷ ss)
      × IsOne perf.min_instr_ns (s ∷ ss)
      × All (λ x. duration x ≤ perf.max_instr_ns) (s ∷ ss)
      × IsOne perf.max_instr_ns (s ∷ ss)
unfolding record_instructions
record_instructions-extremes s ss (h, hs) =
    let (e₁, e₂) = first_counted s in
    let first = record_instruction s vm_perf_stats_init in
    let (low, lows, which_low) = least_of ss first hs (omega (arith, e₁, h)) in
    let (high, highs, which_high) = greatest_of ss first in
    (
      (omega (arith, e₁, low), lows),
      either s ss e₁ which_low,
      (omega (arith, e₂, high), highs),
      either s ss e₂ which_high,
    )

-- The times of the three phases.
abbrev phases : VmPerfStats → ℕ
phases perf = perf.fetch_ns_total + perf.decode_ns_total + perf.dispatch_ns_total

-- The three phases make up the instruction, modulo 2 ^ 64, even on a clock that jumps.
pub phases_add :
    (a b c d : Timespec)
    → (ts_diff_ns a b + ts_diff_ns b c + ts_diff_ns c d) % u64_mod ≡ ts_diff_ns a d
unfolding ts_diff_ns ts_to_ns
phases_add a b c d = omega arith

sums_agree :
    (e f d p total x y z : ℕ)
    → e ≡ (f + d + p) % u64_mod
    → (x + y + z) % u64_mod ≡ total
    → add64 e total ≡ (add64 f x + add64 d y + add64 p z) % u64_mod
sums_agree e f d p total x y z h k = omega (arith, h, k)

record_totals :
    (s : Stamps) (perf : VmPerfStats)
    → perf.instr_exec_ns_total ≡ phases perf % u64_mod
    → let after = record_instruction s perf in
      (after.instr_exec_ns_total ≡ phases after % u64_mod)
      × (after.instructions_total ≡ (perf.instructions_total + 1) % u64_mod)
unfolding record_instruction
record_totals s perf h = (
  sums_agree perf.instr_exec_ns_total perf.fetch_ns_total perf.decode_ns_total
      perf.dispatch_ns_total (ts_diff_ns s.t0 s.t3) (ts_diff_ns s.t0 s.t1) (ts_diff_ns s.t1 s.t2)
      (ts_diff_ns s.t2 s.t3) h (phases_add s.t0 s.t1 s.t2 s.t3),
  refl,
)

-- The total time stays the sum of the totals of the three phases, modulo 2 ^ 64, and the instructions
-- are counted.
pub record_instructions-totals :
    (ss : List Stamps) (perf : VmPerfStats)
    → perf.instr_exec_ns_total ≡ phases perf % u64_mod
    → let after = record_instructions ss perf in
      (after.instr_exec_ns_total ≡ phases after % u64_mod)
      × (after.instructions_total % u64_mod ≡ (perf.instructions_total + length ss) % u64_mod)
unfolding record_instructions
record_instructions-totals [] perf h = (h, omega arith)
record_instructions-totals (s ∷ ss) perf h =
    let (sum, count) = record_totals s perf h in
    let (sums, counts) = record_instructions-totals ss (record_instruction s perf) sum in
    (sums, omega (arith, count, counts))
