-- ===== src/Timers.antt =====
-- The five IEC timers of prototype-integrator/src/timers.c. A function that takes the machine only
-- to read `time_ms` takes the time.
pub mod Elapsed
pub mod OnDelay
pub mod OffDelay
pub mod Pulse
use virtual_machine.Prelude.{
  ℕ, Bool, true, false, not, ◌+◌, ◌-◌, ◌*◌, ◌/◌, ◌%◌, ◌^◌, ◌==◌, leb, ◌&&◌, ◌||◌, if◌then◌else◌,
}
use virtual_machine.Word.{u64_mod, u32_mod, add32}

pub record Timespec : Type 0 where
  pub tv_sec : ℕ
  pub tv_nsec : ℕ

pub record IecTimer : Type 0 where
  pub enabled : Bool
  pub input : Bool
  pub output : Bool
  pub prev_input : Bool
  pub timing : Bool
  pub start : Timespec
  pub preset_ms : ℕ
  pub et : ℕ

-- The time of the machine as the code splits it, for `start` and for `now`.
unfoldable pub timespec_of : ℕ → Timespec
timespec_of time_ms = record { tv_sec = time_ms / 1000; tv_nsec = time_ms % 1000 * 1_000_000 }

-- The signed differences become `unsigned long long` before they are scaled.
unfoldable pub ms_diff : Timespec → Timespec → ℕ
ms_diff a b =
    ((b.tv_sec + u64_mod - a.tv_sec) % u64_mod * 1000 % u64_mod
      + (b.tv_nsec + u64_mod - a.tv_nsec) % u64_mod / 1_000_000)
    % u64_mod
    % u32_mod

-- The zeroed timer of `timers_init`.
unfoldable pub zero_timer : IecTimer
zero_timer = record {
  enabled = false;
  input = false;
  output = false;
  prev_input = false;
  timing = false;
  start = record { tv_sec = 0; tv_nsec = 0 };
  preset_ms = 0;
  et = 0;
}

-- `t->start = now; t->timing = true`
unfoldable pub restart : ℕ → IecTimer → IecTimer
restart time t = record t { start = timespec_of time; timing = true }

unfoldable pub off : IecTimer → IecTimer
off t = record t { output = false; et = 0 }

-- The elapsed time is stored before it is compared.
unfoldable pub ton_elapse : ℕ → IecTimer → IecTimer
ton_elapse time t =
    let et = ms_diff t.start (timespec_of time) in
    if leb t.preset_ms et
    then record t { et = et; output = true; timing = false }
    else record t { et = et }

unfoldable pub update_ton : ℕ → IecTimer → IecTimer
unfolding off restart ton_elapse
update_ton time t =
    if not t.enabled || t.preset_ms == 0
    then off t
    else let started = if t.input && not t.prev_input then restart time t else t in
      let high = if started.timing then ton_elapse time started else started in
      let low = record t { output = false; et = 0; timing = false } in
      let t' = if t.input then high else low in record t' { prev_input = t.input }

unfoldable pub tof_elapse : ℕ → IecTimer → IecTimer
tof_elapse time t =
    let et = ms_diff t.start (timespec_of time) in
    if leb t.preset_ms et
    then record t { et = et; output = false; timing = false }
    else record t { et = et; output = true }

unfoldable pub update_tof : ℕ → IecTimer → IecTimer
unfolding off restart tof_elapse
update_tof time t =
    if not t.enabled || t.preset_ms == 0
    then off t
    else let started = if not t.input && t.prev_input then restart time t else t in
      let low = if started.timing then tof_elapse time started else started in
      let high = record t { output = true; timing = false; et = 0 } in
      let t' = if t.input then high else low in record t' { prev_input = t.input }

unfoldable pub tp_elapse : ℕ → IecTimer → IecTimer
tp_elapse time t =
    let et = ms_diff t.start (timespec_of time) in
    if leb t.preset_ms et
    then record t { et = et; output = false; timing = false }
    else record t { et = et }

unfoldable pub update_tp : ℕ → IecTimer → IecTimer
unfolding off restart tp_elapse
update_tp time t =
    if not t.enabled || t.preset_ms == 0
    then off t
    else let started =
        if t.input && not t.prev_input then record (restart time t) { output = true } else t in
      let t' = if started.timing then tp_elapse time started else started in
      record t' { prev_input = t.input }

-- `t->ET += add; t->start = now`
unfoldable pub accumulate : ℕ → IecTimer → IecTimer
accumulate time t = record t {
  et = add32 t.et (ms_diff t.start (timespec_of time));
  start = timespec_of time;
}

unfoldable pub update_tonr : ℕ → IecTimer → IecTimer
unfolding restart accumulate
update_tonr time t =
    if not t.enabled
    then t
    else let started = if t.input && not t.prev_input then restart time t else t in
      let timed = if started.timing then accumulate time started else started in
      let high =
        if leb timed.preset_ms timed.et
        then record timed { output = true; timing = false }
        else timed in
      let t' = if t.input then high else t in record t' { prev_input = t.input }

unfoldable pub update_tofr : ℕ → IecTimer → IecTimer
unfolding restart accumulate
update_tofr time t =
    if not t.enabled
    then t
    else let started = if not t.input && t.prev_input then restart time t else t in
      let timed = accumulate time started in
      let checked =
        if leb timed.preset_ms timed.et
        then record timed { output = false; timing = false }
        else record timed { output = true } in
      let after = if started.timing then checked else started in
      let t' = if t.input then record after { output = true; timing = false; et = 0 } else after in
      record t' { prev_input = t.input }

-- The writes that `ton_set` and its four companions make before they update.
unfoldable pub arm : Bool → ℕ → IecTimer → IecTimer
arm input pt t = record t { input = input; preset_ms = pt; enabled = true }
