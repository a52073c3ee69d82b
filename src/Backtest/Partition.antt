-- ===== src/Backtest/Partition.antt =====
-- backtest/state_partition.py: one slot of state for each binding and symbol.
use invest_quant_system.Prelude.{ℕ, String, Bool, Option, none, some, List, map}
use invest_quant_system.Prelude.Tests.{String_discrete}
use invest_quant_system.Prelude.Int.{pos, neg_ℤ}
use invest_quant_system.Prelude.Decimal.{digits_behind}
use invest_quant_system.Prelude.Lists.{length}
use invest_quant_system.Prelude.Dict
use invest_quant_system.Prelude.Dict.{Dict, contains, keys}
use invest_quant_system.Prelude.Sort.{keep}
use invest_quant_system.Universe.{same}
use invest_quant_system.Features.{RollingFeatureEngine, new_engine}
use invest_quant_system.Strategies.Rules.{RuleStrategyRuntime}
use invest_quant_system.Backtest.RunSpec.{StrategyBinding}

pub record StrategyBindingState : Type 0 where
  pub binding_id : String
  pub symbol : String
  pub feature_engine : RollingFeatureEngine
  pub strategy_runtime : Option RuleStrategyRuntime
  pub bars_received : ℕ

-- `_create_runtime`: the rule strategy with the thresholds that it has by default
unfoldable pub create_runtime : StrategyBinding → RuleStrategyRuntime
create_runtime b = record {
  strategy_name = b.strategy_name;
  strategy_version = b.strategy_version;
  code_version = "research-code-v1";
  parameter_hash = b.parameter_hash;
  horizon_seconds = pos 900;
  breakout_volume_ratio = digits_behind 15 1;
  pullback_threshold = neg_ℤ (digits_behind 1 2);
  spike_threshold = digits_behind 2 2;
}

abbrev runtime_or : Option RuleStrategyRuntime → StrategyBinding → RuleStrategyRuntime
runtime_or none b = create_runtime b
runtime_or (some r) b = r

-- `ensure_runtime`: the runtime, and the slot that holds it from then on
unfoldable pub ensure_runtime :
    StrategyBindingState → StrategyBinding → RuleStrategyRuntime × StrategyBindingState
unfolding create_runtime
ensure_runtime slot b =
    let r = runtime_or slot.strategy_runtime b in (r, record slot { strategy_runtime = some r })

-- `binding_id`, `symbol`
abbrev pub SlotKey : Type 0
SlotKey = String × String

unfoldable pub SlotKey_discrete : Discrete SlotKey
unfolding String_discrete
SlotKey_discrete = hlevel String_discrete

pub record StatePartition : Type 0 where
  pub slots : Dict SlotKey StrategyBindingState

abbrev pub new_slot : String → String → StrategyBindingState
new_slot binding_id symbol = record {
  binding_id = binding_id;
  symbol = symbol;
  feature_engine = new_engine 3;
  strategy_runtime = none;
  bars_received = 0;
}

abbrev slot_or : Option StrategyBindingState → StrategyBindingState → StrategyBindingState
slot_or none slot = slot
slot_or (some stored) slot = stored

-- `get`
unfoldable pub get_slot : StatePartition → String → String → Option StrategyBindingState
get_slot p binding_id symbol = Dict.get SlotKey_discrete p.slots (binding_id, symbol)

-- `get_or_create`: the slot, and the partition that holds it from then on
unfoldable pub get_or_create :
    StatePartition → String → String → StrategyBindingState × StatePartition
unfolding get_slot
get_or_create p binding_id symbol = (
  slot_or (get_slot p binding_id symbol) (new_slot binding_id symbol),
  record {
    slots =
        Dict.set_default SlotKey_discrete p.slots (binding_id, symbol) (new_slot binding_id symbol);
  },
)

-- a slot is shared: what its holder changes is changed in the partition
unfoldable pub put_slot : StatePartition → String → String → StrategyBindingState → StatePartition
put_slot p binding_id symbol slot = record {
  slots = Dict.put SlotKey_discrete p.slots (binding_id, symbol) slot;
}

unfoldable pub all_symbols_for : StatePartition → String → List String
unfolding String_discrete
all_symbols_for p binding_id =
    map (λ (k : SlotKey). k.1) (keep (λ (k : SlotKey). same k.0 binding_id) (keys p.slots))

unfoldable pub slot_count : StatePartition → ℕ
slot_count p = length p.slots

-- `contains`
unfoldable pub has_slot : StatePartition → String → String → Bool
has_slot p binding_id symbol = contains SlotKey_discrete p.slots (binding_id, symbol)
