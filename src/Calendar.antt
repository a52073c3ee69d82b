-- ===== src/Calendar.antt =====
-- time/trading_calendar.py: the sessions of A-share trading days. A local time is the number of
-- microseconds since the first of January of the year 1 in Shanghai, which is eight hours ahead of
-- UTC; that day was a Monday, and days are numbered from it.
pub mod Sessions
pub mod Enough
pub mod Found
use invest_quant_system.Prelude.{
  ℕ, zero, suc, ◌+◌, ◌-◌, ◌*◌, ◌/◌, ◌%◌, String, Bool, true, false, not, ◌&&◌, ◌||◌, Option, none,
  some, List, [], ◌∷◌, ◌≡◌,
}
use invest_quant_system.Prelude.Tests.{ltb, leb, ◌==◌, if◌then◌else◌}
use invest_quant_system.Prelude.Int.{ℤ, pos, negsuc}
use invest_quant_system.Prelude.Result.{Result, ok, ◌>>=◌, ◌>>◌}
use invest_quant_system.Contracts.Moment.{Datetime, microseconds, add_seconds, require_aware_utc}

abbrev pub day_length : ℕ
day_length = 86400000000

abbrev pub shanghai : ℕ
shanghai = 28800000000

-- `SimpleAshareTradingCalendar`, its times of day in microseconds
pub record TradingCalendar : Type 0 where
  pub calendar_version : String
  pub holidays : List ℕ
  pub morning_start : ℕ
  pub morning_end : ℕ
  pub afternoon_start : ℕ
  pub afternoon_end : ℕ

abbrev pub default_calendar : TradingCalendar
default_calendar = record {
  calendar_version = "simple-ashare-calendar-v1";
  holidays = [];
  morning_start = 34200000000;
  morning_end = 41400000000;
  afternoon_start = 46800000000;
  afternoon_end = 54000000000;
}

-- `value in self.holidays`
unfoldable pub is_holiday : List ℕ → ℕ → Bool
is_holiday [] day = false
is_holiday (h ∷ hs) day = h == day || is_holiday hs day

unfoldable pub is_trading_day : TradingCalendar → ℕ → Bool
is_trading_day c day = ltb (day % 7) 5 && not (is_holiday c.holidays day)

-- the time of day is in one of the two sessions
abbrev pub in_hours : TradingCalendar → ℕ → Bool
in_hours c time =
    (leb c.morning_start time && leb time c.morning_end)
    || (leb c.afternoon_start time && leb time c.afternoon_end)

-- the rest of `is_session_time`, for the local time
unfoldable pub in_session : TradingCalendar → ℕ → Bool
in_session c local = is_trading_day c (local / day_length) && in_hours c (local % day_length)

abbrev pub local_time : Datetime → ℕ
local_time t = t.instant + shanghai

unfoldable pub is_session_time : TradingCalendar → Datetime → Result Bool
is_session_time c t = do require_aware_utc t "timestamp"; ok (in_session c (local_time t))

-- the loop of `next_session_time`, for a number of rounds: the candidate day and the local time
unfoldable pub next_from : ℕ → TradingCalendar → ℕ → ℕ → Option ℕ
next_from zero c day local = none
next_from (suc n) c day local =
    let skipped = next_from n c (day + 1) local in
    let midnight = next_from n c (day + 1) ((day + 1) * day_length) in
    if not (is_trading_day c day)
    then skipped
    else if leb local (day * day_length + c.morning_start)
    then some (day * day_length + c.morning_start)
    else if leb (local % day_length) c.morning_end
    then some local
    else if leb local (day * day_length + c.afternoon_start)
    then some (day * day_length + c.afternoon_start)
    else if leb local (day * day_length + c.afternoon_end)
    then some local
    else midnight

-- back to UTC
abbrev pub utc_of_local : ℕ → Datetime
utc_of_local local = record { instant = local - shanghai; utc_offset = some (pos 0) }

abbrev pub found_at : Option ℕ → Option Datetime
found_at none = none
found_at (some local) = some (utc_of_local local)

-- `next_session_time`, `none` where the rounds do not suffice
unfoldable pub next_session_time : ℕ → TradingCalendar → Datetime → Result (Option Datetime)
unfolding next_from
next_session_time rounds c t = do
  require_aware_utc t "timestamp"
  ok (found_at (next_from rounds c (local_time t / day_length) (local_time t)))

-- `t + timedelta(seconds=s)`; a time before the year 1, which overflows there, counts as its start
abbrev pub shifted : Datetime → ℤ → Datetime
shifted t (pos s) = add_seconds t s
shifted t (negsuc s) = record t { instant = t.instant - microseconds (suc s) }

unfoldable pub next_evaluation_time : ℕ → TradingCalendar → Datetime → ℤ → Result (Option Datetime)
unfolding next_session_time
next_evaluation_time rounds c event_time horizon_seconds = do
  require_aware_utc event_time "event_time"
  next_session_time rounds c (shifted event_time horizon_seconds)
