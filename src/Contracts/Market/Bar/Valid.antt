-- ===== src/Contracts/Market/Bar/Valid.antt =====
-- `MarketBar.validate`: what a bar that enters the core workflows satisfies.
use invest_quant_system.Prelude.{◌<◌, ◌≤◌, ◌≡◌, ◌↔◌, true, false, arith}
use invest_quant_system.Prelude.Lists.{All}
use invest_quant_system.Prelude.Int.{◌≤ℤ◌}
use invest_quant_system.Prelude.Result.{ok, >>-ok}
use invest_quant_system.Prelude.Text.{is_blank}
use invest_quant_system.Contracts.Moment.{IsUtc}
use invest_quant_system.Contracts.Checks.{
  IsNonNegative, require_texts, require_all_utc, require_all_non_negative, require_texts-ok,
  require_all_utc-ok, require_all_non_negative-ok, require_texts_of_All, require_all_utc_of_All,
  require_all_non_negative_of_All,
}
use invest_quant_system.Contracts.Market.Bar.{
  MarketBar, required_texts, required_times, amounts, check_times, check_range, validate,
}

-- The times of a closed bar: an interval that ends at `market_data_time`, seen after it closed.
pub record IsTimely (b : MarketBar) : Type 0 where
  pub starts_before_end : b.bar_start_time.instant < b.bar_end_time.instant
  pub at_end : b.market_data_time.instant ≡ b.bar_end_time.instant
  pub is_closed : b.is_closed ≡ true
  pub seen_after_close : b.bar_close_time.instant ≤ b.ingest_time.instant

-- The low and the high bound the open and the close.
pub record IsRange (b : MarketBar) : Type 0 where
  pub low_open : b.low_price ≤ℤ b.open_price
  pub low_close : b.low_price ≤ℤ b.close_price
  pub low_high : b.low_price ≤ℤ b.high_price
  pub open_high : b.open_price ≤ℤ b.high_price
  pub close_high : b.close_price ≤ℤ b.high_price

pub record IsWellFormed (b : MarketBar) : Type 0 where
  pub texts : All (λ f. is_blank f.0 ≡ false) (required_texts b)
  pub times : All (λ f. IsUtc f.0) (required_times b)
  pub timely : IsTimely b
  pub non_negative : All (λ f. IsNonNegative f.0) (amounts b)
  pub range : IsRange b

check_times-ok : (b : MarketBar) → check_times b true ≡ ok tt → IsTimely b
unfolding check_times
check_times-ok b h = ground arith

check_times_of : (b : MarketBar) → IsTimely b → check_times b true ≡ ok tt
unfolding check_times
check_times_of b h = ground arith

check_range-ok : (b : MarketBar) → check_range b ≡ ok tt → IsRange b
unfolding check_range
check_range-ok b h = ground arith

check_range_of : (b : MarketBar) → IsRange b → check_range b ≡ ok tt
unfolding check_range
check_range_of b h = ground arith

validate-IsWellFormed : (b : MarketBar) → validate b true ≡ ok tt → IsWellFormed b
unfolding validate
validate-IsWellFormed b h =
    let (texts, h₁) = >>-ok (require_texts (required_texts b)) _ h in
    let (times, h₂) = >>-ok (require_all_utc (required_times b)) _ h₁ in
    let (timely, h₃) = >>-ok (check_times b true) _ h₂ in
    let (amounts', range) = >>-ok (require_all_non_negative (amounts b)) _ h₃ in
    record {
      texts = require_texts-ok (required_texts b) texts;
      times = require_all_utc-ok (required_times b) times;
      timely = check_times-ok b timely;
      non_negative = require_all_non_negative-ok (amounts b) amounts';
      range = check_range-ok b range;
    }

IsWellFormed-validate : (b : MarketBar) → IsWellFormed b → validate b true ≡ ok tt
unfolding validate
IsWellFormed-validate b w =
    rw
      (
        require_texts_of_All (required_texts b) w.texts,
        require_all_utc_of_All (required_times b) w.times,
        check_times_of b w.timely,
        require_all_non_negative_of_All (amounts b) w.non_negative,
      )
      (check_range_of b w.range)

-- `validate(require_closed=True)` accepts exactly the well-formed bars: the six required texts are
-- not blank, the five times are in UTC, the bar is closed, begins before it ends, is dated at its
-- end and is not seen before it closed, no amount is negative, and the low and the high bound the
-- open, the close and one another.
pub validate-IsWellFormed_iff : (b : MarketBar) → (validate b true ≡ ok tt) ↔ IsWellFormed b
validate-IsWellFormed_iff b = (validate-IsWellFormed b, IsWellFormed-validate b)
