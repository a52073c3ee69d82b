-- ===== src/Evaluation/Fill.antt =====
-- evaluation/fill_model.py: a signal is filled at the open of the first bar of its path that is
-- dated at or after its executable time.
use invest_quant_system.Prelude.{
  ◌-◌, ◌/◌, ◌≤◌, ◌<◌, String, Bool, ◌≡◌, refl, inl, inr, ◌++◌, true, false, Option, none, some,
  List, [], ◌∷◌, arith,
}
use invest_quant_system.Prelude.Tests.{ltb, if◌then◌else◌, Bool-cases}
use invest_quant_system.Prelude.Int.{ℤ, pos}
use invest_quant_system.Prelude.Decimal.{Decimal, signed}
use invest_quant_system.Prelude.Lists.{All}
use invest_quant_system.Contracts.Moment.{Datetime, leb_time}
use invest_quant_system.Contracts.Market.{TradingStatus}
use invest_quant_system.Contracts.Market.Bar.{MarketBar}
use invest_quant_system.Contracts.Signals.{SignalEvent, ExecutionStatus, executable, unexecutable}

pub record FillResult : Type 0 where
  pub executable_price : Option Decimal
  pub executable_price_source : Option String
  pub execution_status : ExecutionStatus
  pub unexecutable_reason : Option String
  pub signal_delay_seconds : ℤ

-- `int((a - b).total_seconds())`, which cuts towards zero
unfoldable pub seconds_between : Datetime → Datetime → ℤ
seconds_between a b =
    if ltb a.instant b.instant
    then signed true ((b.instant - a.instant) / 1000000)
    else pos ((a.instant - b.instant) / 1000000)

-- `bar.trading_status in {HALTED, CLOSED}`
abbrev pub is_shut : TradingStatus → Bool
is_shut TradingStatus.halted = true
is_shut TradingStatus.closed = true
is_shut _ = false

-- the text of the status in the reason
abbrev shut_reason : TradingStatus → String
shut_reason TradingStatus.halted = "bar status HALTED"
shut_reason _ = "bar status CLOSED"

-- what the first bar that is late enough answers
unfoldable pub fill_at : SignalEvent → MarketBar → FillResult
unfolding seconds_between
fill_at s b =
    if is_shut b.trading_status
    then record {
      executable_price = none;
      executable_price_source = none;
      execution_status = unexecutable;
      unexecutable_reason = some (shut_reason b.trading_status);
      signal_delay_seconds = seconds_between b.market_data_time s.event_time;
    }
    else record {
      executable_price = some b.open_price;
      executable_price_source = some "NEXT_BAR_OPEN";
      execution_status = executable;
      unexecutable_reason = none;
      signal_delay_seconds = seconds_between b.market_data_time s.event_time;
    }

abbrev pub no_fill : FillResult
no_fill = record {
  executable_price = none;
  executable_price_source = none;
  execution_status = unexecutable;
  unexecutable_reason = some "NO_EXECUTABLE_BAR";
  signal_delay_seconds = pos 0;
}

-- `NextBarOpenFillModel.fill`
unfoldable pub fill : SignalEvent → List MarketBar → FillResult
unfolding fill_at
fill s [] = no_fill
fill s (b ∷ bs) = if leb_time s.executable_time b.market_data_time then fill_at s b else fill s bs

-- Where the path is split by the bar that fills.
pub record IsFilledBy (s : SignalEvent) (path : List MarketBar) (b : MarketBar) : Type 0 where
  pub before : List MarketBar
  pub after : List MarketBar
  pub split : path ≡ before ++ b ∷ after
  pub all_early : All (λ c. c.market_data_time.instant < s.executable_time.instant) before
  pub in_time : s.executable_time.instant ≤ b.market_data_time.instant
  pub open_for_trading : is_shut b.trading_status ≡ false

further :
    (s : SignalEvent) (c : MarketBar) (path : List MarketBar) (b : MarketBar)
    → leb_time s.executable_time c.market_data_time ≡ false
    → IsFilledBy s path b
    → IsFilledBy s (c ∷ path) b
further s c path b early f = record {
  before = c ∷ f.before;
  after = f.after;
  split = rw f.split refl;
  all_early = (ground arith, f.all_early);
  in_time = f.in_time;
  open_for_trading = f.open_for_trading;
}

-- A fill with a price has a bar of the path behind it: the price is that bar's open, the bar is not
-- shut and is dated at or after the executable time, and every bar before it is dated earlier.
pub fill-IsFilledBy :
    (s : SignalEvent) (path : List MarketBar) (price : Decimal)
    → (fill s path).executable_price ≡ some price
    → (b : MarketBar) × IsFilledBy s path b × (price ≡ b.open_price)
unfolding fill fill_at
fill-IsFilledBy s [] price h = cc
fill-IsFilledBy s (c ∷ path) price h =
    elim (Bool-cases (leb_time s.executable_time c.market_data_time)) [
      | inr early ↦
          let (b, f, p) = fill-IsFilledBy s path price (rw early at h) in
          (b, further s c path b early f, p)
      | inl late ↦ elim (Bool-cases (is_shut c.trading_status)) [
        | inl shut ↦ cc (rw (late, shut) at h)
        | inr open_ ↦ (
          c,
          record {
            before = [];
            after = path;
            split = refl;
            all_early = tt;
            in_time = ground arith;
            open_for_trading = open_;
          },
          ground (arith, h, late, open_),
        )
      ]
    ]
