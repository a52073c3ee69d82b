-- ===== src/Evaluation/Costs.antt =====
-- evaluation/cost_model.py and evaluation/acshare_cost_model.py: the costs of a side.
use invest_quant_system.Prelude.{String, ◌≡◌, refl}
use invest_quant_system.Prelude.Int.{pos, ◌+ℤ◌, is_negative}
use invest_quant_system.Prelude.Decimal.{
  Decimal, whole, digits_behind, magnitude, signed, round_half_even,
}
use invest_quant_system.Contracts.Signals.{Direction}

-- `bps / Decimal("10000")`
unfoldable pub of_bps : Decimal → Decimal
unfolding round_half_even
of_bps bps = signed (is_negative bps) (round_half_even (magnitude bps) 10000)

pub record FixedBpsCostModel : Type 0 where
  pub cost_model_version : String
  pub buy_bps : Decimal
  pub sell_bps : Decimal

abbrev pub default_fixed_bps : FixedBpsCostModel
default_fixed_bps = record {
  cost_model_version = "fixed-bps-cost-v1";
  buy_bps = whole 5;
  sell_bps = whole 15;
}

unfoldable pub fixed_cost_rate : FixedBpsCostModel → Direction → Decimal
fixed_cost_rate m Direction.buy = of_bps m.buy_bps
fixed_cost_rate m Direction.sell = of_bps m.sell_bps
fixed_cost_rate m Direction.hold = pos 0

pub record AcShareCostModel : Type 0 where
  pub cost_model_version : String
  pub buy_commission_bps : Decimal
  pub sell_commission_bps : Decimal
  pub sell_stamp_duty_bps : Decimal
  pub buy_transfer_fee_bps : Decimal
  pub sell_transfer_fee_bps : Decimal
  pub min_commission_yuan : Decimal

abbrev pub default_ac_share : AcShareCostModel
default_ac_share = record {
  cost_model_version = "ac-share-cost-v1";
  buy_commission_bps = whole 3;
  sell_commission_bps = whole 3;
  sell_stamp_duty_bps = whole 5;
  buy_transfer_fee_bps = whole 1;
  sell_transfer_fee_bps = whole 1;
  min_commission_yuan = whole 5;
}

unfoldable pub total_bps : AcShareCostModel → Direction → Decimal
total_bps m Direction.buy = m.buy_commission_bps +ℤ m.buy_transfer_fee_bps
total_bps m Direction.sell =
    m.sell_commission_bps +ℤ m.sell_stamp_duty_bps +ℤ m.sell_transfer_fee_bps
total_bps m Direction.hold = pos 0

unfoldable pub cost_rate : AcShareCostModel → Direction → Decimal
cost_rate m Direction.buy = of_bps (m.buy_commission_bps +ℤ m.buy_transfer_fee_bps)
cost_rate m Direction.sell =
    of_bps (m.sell_commission_bps +ℤ m.sell_stamp_duty_bps +ℤ m.sell_transfer_fee_bps)
cost_rate m Direction.hold = pos 0

-- The default rates: 4 bps for a purchase and 9 for a sale.
default_buy_rate : cost_rate default_ac_share Direction.buy ≡ digits_behind 4 4
unfolding cost_rate of_bps round_half_even ◌+ℤ◌
default_buy_rate = refl

default_sell_rate : cost_rate default_ac_share Direction.sell ≡ digits_behind 9 4
unfolding cost_rate of_bps round_half_even ◌+ℤ◌
default_sell_rate = refl
