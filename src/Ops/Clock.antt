-- ===== src/Ops/Clock.antt =====
-- The instructions of prototype-integrator/src/funcs.c that read the local time.
use virtual_machine.Prelude.{ℕ, ◌+◌, ◌*◌, ◌/◌, ◌%◌, ◌≤◌, ◌≡◌, arith}
use virtual_machine.Word.{u32_mod, add32, sub32}
use virtual_machine.Host.{Host, Tm, IsTm}
use virtual_machine.Instruction.{ra}
use virtual_machine.Machine.{VmState, bv, cv_or_imm, set_a}
use virtual_machine.Machine.Frame.{KeepsFrame, set_a-Framed}

-- `TOD_t`
pub record TimeOfDay : Type 0 where
  pub hours : ℕ
  pub minutes : ℕ
  pub seconds : ℕ

-- `DATE_t`
pub record DateOf : Type 0 where
  pub year : ℕ
  pub month : ℕ
  pub day : ℕ

-- `DT_t`
pub record DateTime : Type 0 where
  pub date : DateOf
  pub time : TimeOfDay

unfoldable pub tm_to_tod : Tm → TimeOfDay
tm_to_tod t = record { hours = t.tm_hour; minutes = t.tm_min; seconds = t.tm_sec }

unfoldable pub tm_to_date : Tm → DateOf
tm_to_date t = record { year = t.tm_year + 1900; month = t.tm_mon + 1; day = t.tm_mday }

unfoldable pub tm_to_dt : Tm → DateTime
unfolding tm_to_date tm_to_tod
tm_to_dt t = record { date = tm_to_date t; time = tm_to_tod t }

unfoldable pub tod_to_seconds : TimeOfDay → ℕ
tod_to_seconds t = t.hours * 3600 + t.minutes * 60 + t.seconds

-- The results are of type `int32_t`, and are stored as their bit patterns.
module _ (host : Host) where
  unfoldable pub op_time : VmState → ℕ → VmState
  unfolding tm_to_tod tod_to_seconds
  op_time vm i = set_a vm i (tod_to_seconds (tm_to_tod host.current_tm) % u32_mod)

  unfoldable pub op_date : VmState → ℕ → VmState
  unfolding tm_to_date
  op_date vm i =
      let d = tm_to_date host.current_tm in
      set_a vm i ((d.year * 10000 + d.month * 100 + d.day) % u32_mod)

  unfoldable pub op_tod : VmState → ℕ → VmState
  unfolding tm_to_tod
  op_tod vm i =
      let t = tm_to_tod host.current_tm in
      set_a vm i ((t.hours * 10000 + t.minutes * 100 + t.seconds) % u32_mod)

  unfoldable pub op_dt : VmState → ℕ → VmState
  unfolding tm_to_dt
  op_dt vm i =
      let dt = tm_to_dt host.current_tm in
      set_a vm i (
        (dt.date.year * 1000000 + dt.date.month * 10000 + dt.date.day * 100 + dt.time.hours)
        % u32_mod)

  unfoldable pub op_year : VmState → ℕ → VmState
  unfolding tm_to_date
  op_year vm i = set_a vm i ((tm_to_date host.current_tm).year % u32_mod)

  unfoldable pub op_month : VmState → ℕ → VmState
  unfolding tm_to_date
  op_month vm i = set_a vm i ((tm_to_date host.current_tm).month % u32_mod)

  unfoldable pub op_day : VmState → ℕ → VmState
  unfolding tm_to_date
  op_day vm i = set_a vm i ((tm_to_date host.current_tm).day % u32_mod)

  unfoldable pub op_hour : VmState → ℕ → VmState
  unfolding tm_to_tod
  op_hour vm i = set_a vm i ((tm_to_tod host.current_tm).hours % u32_mod)

  unfoldable pub op_minute : VmState → ℕ → VmState
  unfolding tm_to_tod
  op_minute vm i = set_a vm i ((tm_to_tod host.current_tm).minutes % u32_mod)

  unfoldable pub op_second : VmState → ℕ → VmState
  unfolding tm_to_tod
  op_second vm i = set_a vm i ((tm_to_tod host.current_tm).seconds % u32_mod)

unfoldable pub op_add_time : VmState → ℕ → VmState
unfolding add32
op_add_time vm i = set_a vm i (add32 (bv vm i) (cv_or_imm vm i))

unfoldable pub op_sub_time : VmState → ℕ → VmState
unfolding sub32
op_sub_time vm i = set_a vm i (sub32 (bv vm i) (cv_or_imm vm i))

module _ (host : Host) where
  pub op_time-KeepsFrame : KeepsFrame (op_time host)
  unfolding op_time
  op_time-KeepsFrame vm i v = set_a-Framed vm i _ v (omega arith)

  pub op_date-KeepsFrame : KeepsFrame (op_date host)
  unfolding op_date
  op_date-KeepsFrame vm i v = set_a-Framed vm i _ v (omega arith)

  pub op_tod-KeepsFrame : KeepsFrame (op_tod host)
  unfolding op_tod
  op_tod-KeepsFrame vm i v = set_a-Framed vm i _ v (omega arith)

  pub op_dt-KeepsFrame : KeepsFrame (op_dt host)
  unfolding op_dt
  op_dt-KeepsFrame vm i v = set_a-Framed vm i _ v (omega arith)

  pub op_year-KeepsFrame : KeepsFrame (op_year host)
  unfolding op_year
  op_year-KeepsFrame vm i v = set_a-Framed vm i _ v (omega arith)

  pub op_month-KeepsFrame : KeepsFrame (op_month host)
  unfolding op_month
  op_month-KeepsFrame vm i v = set_a-Framed vm i _ v (omega arith)

  pub op_day-KeepsFrame : KeepsFrame (op_day host)
  unfolding op_day
  op_day-KeepsFrame vm i v = set_a-Framed vm i _ v (omega arith)

  pub op_hour-KeepsFrame : KeepsFrame (op_hour host)
  unfolding op_hour
  op_hour-KeepsFrame vm i v = set_a-Framed vm i _ v (omega arith)

  pub op_minute-KeepsFrame : KeepsFrame (op_minute host)
  unfolding op_minute
  op_minute-KeepsFrame vm i v = set_a-Framed vm i _ v (omega arith)

  pub op_second-KeepsFrame : KeepsFrame (op_second host)
  unfolding op_second
  op_second-KeepsFrame vm i v = set_a-Framed vm i _ v (omega arith)

pub op_add_time-KeepsFrame : KeepsFrame op_add_time
unfolding op_add_time
op_add_time-KeepsFrame vm i v = set_a-Framed vm i _ v (omega arith)

pub op_sub_time-KeepsFrame : KeepsFrame op_sub_time
unfolding op_sub_time
op_sub_time-KeepsFrame vm i v = set_a-Framed vm i _ v (omega arith)

-- On a valid `struct tm` up to the year 9999, DATE packs the date so that YEAR, MONTH and DAY are
-- its decimal fields.
pub op_date_fields :
    (host : Host) (vm : VmState) (i : ℕ)
    → IsTm host.current_tm
    → host.current_tm.tm_year ≤ 8099
    → let packed = (op_date host vm i).reg (ra i) in
      (packed / 10000 ≡ (op_year host vm i).reg (ra i))
      × (packed / 100 % 100 ≡ (op_month host vm i).reg (ra i))
      × (packed % 100 ≡ (op_day host vm i).reg (ra i))
unfolding op_date op_year op_month op_day set_a
op_date_fields host vm i t h = ground arith

-- On a valid `struct tm`, TOD packs the time of day so that HOUR, MINUTE and SECOND are its decimal
-- fields, and TIME is the same time in seconds.
pub op_tod_fields :
    (host : Host) (vm : VmState) (i : ℕ)
    → IsTm host.current_tm
    → let packed = (op_tod host vm i).reg (ra i) in
      (packed / 10000 ≡ (op_hour host vm i).reg (ra i))
      × (packed / 100 % 100 ≡ (op_minute host vm i).reg (ra i))
      × (packed % 100 ≡ (op_second host vm i).reg (ra i))
      × ((op_time host vm i).reg (ra i)
          ≡ packed / 10000 * 3600 + packed / 100 % 100 * 60 + packed % 100)
unfolding op_tod op_time op_hour op_minute op_second set_a
op_tod_fields host vm i t = ground arith
