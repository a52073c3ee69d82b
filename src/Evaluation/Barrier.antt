-- ===== src/Evaluation/Barrier.antt =====
-- evaluation/triple_barrier.py: the first barrier that the path of a signal hits.
pub mod First
pub mod Policies
use invest_quant_system.Prelude.{
  ℕ, String, Bool, ◌&&◌, ◌||◌, not, ◌≡◌, refl, true, false, Option, none, some, List, [], ◌∷◌,
}
use invest_quant_system.Prelude.Tests.{◌==◌, if◌then◌else◌}
use invest_quant_system.Prelude.Dict.{is_some}
use invest_quant_system.Prelude.Int.{ℤ, pos, negsuc, leb_ℤ, ◌+ℤ◌, ◌-ℤ◌}
use invest_quant_system.Prelude.Decimal.{Decimal, whole, mul_dec}
use invest_quant_system.Prelude.Result.{Result, value_error, raise_if, ◌>>◌}
use invest_quant_system.Contracts.Moment.{Datetime}
use invest_quant_system.Contracts.Market.Bar.{MarketBar}
use invest_quant_system.Contracts.Evaluation.{
  BarrierConflictPolicy, conservative, ambiguous, require_tick,
}
use invest_quant_system.Evaluation.Fill.{seconds_between}

abbrev pub time_only : ℤ
time_only = pos 0

abbrev pub profit_take : ℤ
profit_take = pos 1

abbrev pub stop_loss : ℤ
stop_loss = negsuc 0

abbrev pub both_hit : ℤ
both_hit = pos 2

pub record TripleBarrierConfig : Type 0 where
  pub barrier_config_version : String
  pub profit_barrier_ratio : Option Decimal
  pub loss_barrier_ratio : Option Decimal
  pub time_barrier_seconds : Option ℤ
  pub conflict_policy : BarrierConflictPolicy

-- `x is not None and x <= 0`, and `x is not None and x >= 0`
abbrev not_positive : Option ℤ → Bool
not_positive none = false
not_positive (some x) = leb_ℤ x (pos 0)

abbrev not_negative : Option ℤ → Bool
not_negative none = false
not_negative (some x) = leb_ℤ (pos 0) x

-- `TripleBarrierConfig.validate`
unfoldable pub validate_config : TripleBarrierConfig → Result (Unit {0})
validate_config c =
    raise_if (not_positive c.profit_barrier_ratio)
      (value_error "profit_barrier_ratio must be positive")
    >> (raise_if (not_negative c.loss_barrier_ratio)
          (value_error "loss_barrier_ratio must be negative")
        >> raise_if (not_positive c.time_barrier_seconds)
            (value_error "time_barrier_seconds must be positive"))

unfoldable pub has_price_barriers : TripleBarrierConfig → Bool
has_price_barriers c = is_some c.profit_barrier_ratio || is_some c.loss_barrier_ratio

-- the price of a barrier, above the executable price for a purchase and below it for the rest
unfoldable pub barrier_price : Bool → Decimal → Option Decimal → Option Decimal
barrier_price long price none = none
barrier_price true price (some ratio) = some (mul_dec price (whole 1 +ℤ ratio))
barrier_price false price (some ratio) = some (mul_dec price (whole 1 -ℤ ratio))

-- the high of the bar reaches a price, and its low does
abbrev pub rises_to : MarketBar → Option Decimal → Bool
rises_to b none = false
rises_to b (some p) = leb_ℤ p b.high_price

abbrev pub falls_to : MarketBar → Option Decimal → Bool
falls_to b none = false
falls_to b (some p) = leb_ℤ b.low_price p

-- the walk's constants: the side, the prices of the barriers, the limit and the policy
pub record Walk : Type 0 where
  pub long : Bool
  pub profit_price : Option Decimal
  pub loss_price : Option Decimal
  pub time_limit : Option ℤ
  pub policy : BarrierConflictPolicy

abbrev pub profit_hit : Walk → MarketBar → Bool
profit_hit w b = if w.long then rises_to b w.profit_price else falls_to b w.profit_price

abbrev pub loss_hit : Walk → MarketBar → Bool
loss_hit w b = if w.long then falls_to b w.loss_price else rises_to b w.loss_price

abbrev pub conflict_label : BarrierConflictPolicy → ℤ
conflict_label conservative = stop_loss
conflict_label ambiguous = both_hit
conflict_label require_tick = both_hit

abbrev pub is_over : Option ℤ → ℤ → Bool
is_over none elapsed = false
is_over (some limit) elapsed = leb_ℤ limit elapsed

-- the label that ends the walk, from the two hits and the limit of time
abbrev pub label_of : Bool → Bool → Bool → BarrierConflictPolicy → Option ℤ
label_of profit loss over policy =
    if profit && loss
    then some (conflict_label policy)
    else if profit
    then some profit_take
    else if loss
    then some stop_loss
    else if over
    then some time_only
    else none

-- the body of the loop: the label that the bar ends the walk with, if it does
unfoldable pub label_at : Walk → ℤ → MarketBar → Option ℤ
label_at w elapsed b =
    label_of (profit_hit w b) (loss_hit w b) (is_over w.time_limit elapsed) w.policy

abbrev pub Hit : Type 0
Hit = ℤ × Option ℤ

abbrev pub end_walk : Option ℤ → ℤ → Hit → Hit
end_walk none elapsed rest = rest
end_walk (some label) elapsed rest = (label, some elapsed)

unfoldable pub walk : Walk → Datetime → List MarketBar → Hit
unfolding label_at
walk w base [] = (time_only, none)
walk w base (b ∷ bs) =
    let rest = walk w base bs in
    let elapsed = seconds_between b.market_data_time base in
    end_walk (label_at w elapsed b) elapsed rest

abbrev pub is_one : ℤ → Bool
is_one (pos n) = n == 1
is_one (negsuc n) = false

abbrev pub walk_of : Decimal → ℤ → TripleBarrierConfig → Walk
walk_of price direction c = record {
  long = is_one direction;
  profit_price = barrier_price (is_one direction) price c.profit_barrier_ratio;
  loss_price = barrier_price (is_one direction) price c.loss_barrier_ratio;
  time_limit = c.time_barrier_seconds;
  policy = c.conflict_policy;
}

unfoldable pub detect_first_barrier_hit : Decimal → ℤ → List MarketBar → TripleBarrierConfig → Hit
unfolding walk
detect_first_barrier_hit price direction [] c = (time_only, none)
detect_first_barrier_hit price direction (b ∷ bs) c =
    walk (walk_of price direction c) b.market_data_time (b ∷ bs)
