-- ===== src/Host.antt =====
-- What the instructions take from the C library: the double-precision functions, each with the
-- conversions of its argument and its result, and the local time. Parameters of the model.
use virtual_machine.Prelude.{ℕ, ◌≤◌, ◌<◌}
use virtual_machine.Word.{u32_mod}

-- The fields of `struct tm` that are read.
pub record Tm : Type 0 where
  pub tm_hour : ℕ
  pub tm_min : ℕ
  pub tm_sec : ℕ
  pub tm_year : ℕ
  pub tm_mon : ℕ
  pub tm_mday : ℕ

-- `sqrt x` stands for `(uint32_t)sqrt((double)x)`, and so for the others; `current_tm` is the
-- answer of `localtime_r` at the time of the call, and `monotonic_ms` the reading of
-- `clock_gettime(CLOCK_MONOTONIC)` in milliseconds.
pub record Host : Type 0 where
  pub pow : ℕ → ℕ → ℕ
  pub sqrt : ℕ → ℕ
  pub log : ℕ → ℕ
  pub log10 : ℕ → ℕ
  pub exp : ℕ → ℕ
  pub sin : ℕ → ℕ
  pub cos : ℕ → ℕ
  pub tan : ℕ → ℕ
  pub asin : ℕ → ℕ
  pub acos : ℕ → ℕ
  pub atan : ℕ → ℕ
  pub current_tm : Tm
  pub monotonic_ms : ℕ

-- A conversion to `uint32_t` gives a 32-bit word.
pub record GivesWords (host : Host) : Type 0 where
  pub pow_word : (x y : ℕ) → host.pow x y < u32_mod
  pub sqrt_word : (x : ℕ) → host.sqrt x < u32_mod
  pub log_word : (x : ℕ) → host.log x < u32_mod
  pub log10_word : (x : ℕ) → host.log10 x < u32_mod
  pub exp_word : (x : ℕ) → host.exp x < u32_mod
  pub sin_word : (x : ℕ) → host.sin x < u32_mod
  pub cos_word : (x : ℕ) → host.cos x < u32_mod
  pub tan_word : (x : ℕ) → host.tan x < u32_mod
  pub asin_word : (x : ℕ) → host.asin x < u32_mod
  pub acos_word : (x : ℕ) → host.acos x < u32_mod
  pub atan_word : (x : ℕ) → host.atan x < u32_mod

-- The ranges that the C standard gives for `struct tm`; 60 is a leap second.
pub record IsTm (t : Tm) : Type 0 where
  pub hour : t.tm_hour ≤ 23
  pub minute : t.tm_min ≤ 59
  pub second : t.tm_sec ≤ 60
  pub month : t.tm_mon ≤ 11
  pub day : t.tm_mday ≤ 31
