-- ===== src/Backtest/OrderIntent.antt =====
-- backtest/order_intent.py: the order that a signal asks for. The SHA-256 digest of an identity and
-- the wall clock come in as arguments.
use invest_quant_system.Prelude.{String, Bool, true, false, ◌||◌, Option, none}
use invest_quant_system.Prelude.Tests.{if◌then◌else◌}
use invest_quant_system.Prelude.Int.{ℤ, pos, leb_ℤ, ltb_ℤ}
use invest_quant_system.Prelude.Decimal.{Decimal}
use invest_quant_system.Prelude.Text.{is_empty, text_append}
use invest_quant_system.Prelude.Result.{Result, ok, value_error, raise_if, ◌>>◌}
use invest_quant_system.Contracts.Moment.{Datetime}
use invest_quant_system.Contracts.Signals.{
  Direction, SignalAction, ExecutionStatus, SignalEvent, is_buy,
}

pub record OrderIntent : Type 0 where
  pub schema_version : String
  pub intent_id : String
  pub signal_id : String
  pub binding_id : String
  pub symbol : String
  pub direction : Direction
  pub action : SignalAction
  pub quantity : ℤ
  pub reference_price : Decimal
  pub target_price : Option Decimal
  pub execution_status : ExecutionStatus
  pub created_at : Datetime

-- `__post_init__`
unfoldable pub check_intent : OrderIntent → Result OrderIntent
check_intent i = do
  raise_if (is_empty i.intent_id) (value_error "intent_id is required")
  raise_if (is_empty i.signal_id) (value_error "signal_id is required")
  raise_if (ltb_ℤ i.quantity (pos 0)) (value_error "quantity must be non-negative")
  ok i

-- `action in (REDUCE_LONG, CLEAR_LONG)`
abbrev pub is_reduction : SignalAction → Bool
is_reduction SignalAction.reduce_long = true
is_reduction SignalAction.clear_long = true
is_reduction _ = false

-- the quantity of the intent: a signal that neither buys nor reduces asks for none
abbrev pub quantity_for : Direction → SignalAction → ℤ → ℤ
quantity_for direction action quantity =
    if is_buy direction || is_reduction action then quantity else pos 0

module _ (digest : String → String) where
  -- `_order_intent_id`, before it is cut to 16 characters
  abbrev pub order_intent_id : String → String
  order_intent_id signal_id = digest (text_append "intent|" signal_id)

  -- `OrderIntent.from_signal`
  unfoldable pub from_signal : SignalEvent → String → ℤ → Datetime → Result OrderIntent
  unfolding check_intent
  from_signal signal binding_id quantity now = do
    raise_if (leb_ℤ quantity (pos 0)) (value_error "quantity must be positive")
    check_intent (record {
      schema_version = "order-intent-v1";
      intent_id = order_intent_id signal.signal_id;
      signal_id = signal.signal_id;
      binding_id = binding_id;
      symbol = signal.symbol;
      direction = signal.direction;
      action = signal.signal_action;
      quantity = quantity_for signal.direction signal.signal_action quantity;
      reference_price = signal.reference_price;
      target_price = none;
      execution_status = signal.execution_status;
      created_at = now;
    })
