-- ===== src/Execution/Broker.antt =====
-- freqpanda_execution/broker.py. The exchange behind the live broker is a parameter.
use freqpanda.Prelude.{String, ◌&&◌, Option, none, some, if◌then◌else◌}
use freqpanda.Prelude.Result.{Result, ok, err, ◌>>=◌}
use freqpanda.Prelude.Float.{Float, one, nought}
use freqpanda.Backtest.Costs.{TradingCosts, entry_fill_price, exit_fill_price}
use freqpanda.Execution.Risk.{BotError, runtime_error, exchange_error}

pub record Fill (F : Type 0) : Type 0 where
  pub price : F
  pub quantity : F
  pub order_id : Option String

-- What the code reads of an order that CCXT returns; `id` is after `str`.
pub record Order (F : Type 0) : Type 0 where
  pub average : Option F
  pub price : Option F
  pub filled : Option F
  pub id : String

-- The two CCXT calls of the live broker; `none` is an exception of CCXT.
pub record Exchange (F : Type 0) : Type 0 where
  pub create_market_buy_order : String → F → Option (Order F)
  pub create_market_sell_order : String → F → Option (Order F)

pub data Broker (F : Type 0) : Type 0 where
  paper : TradingCosts F → Broker F
  live : Exchange F → Broker F

abbrev answered : {F : Type 0} → Option (Order F) → Result BotError (Order F)
answered none = err exchange_error
answered (some order) = ok order

module _ {F : Type 0} ⦃fl : Float F⦄ where
  open fl use {sub, mul, div, le}

  -- `a or b`: zero and None are false.
  abbrev or_next : Option F → Option F → Option F
  or_next none o = o
  or_next (some a) o = if le a nought && le nought a then o else some a

  abbrev or_value : Option F → F → F
  or_value none b = b
  or_value (some a) b = if le a nought && le nought a then b else a

  unfoldable pub fill_from_order : Order F → F → Result BotError (Fill F)
  fill_from_order order requested_quantity = elim (or_next order.average order.price) [
    | none ↦ err runtime_error
    | some price ↦ ok (record {
      price = price;
      quantity = or_value order.filled requested_quantity;
      order_id = some order.id;
    })
  ]

  unfoldable pub open_long : Broker F → String → F → F → F → Result BotError (Fill F)
  unfolding fill_from_order
  open_long (paper costs) symbol equity fee_pct reference_price =
      let fill_price = entry_fill_price costs reference_price in
      ok (record {
        price = fill_price;
        quantity = div (mul equity (sub one costs.fee_pct)) fill_price;
        order_id = none;
      })
  open_long (live exchange) symbol equity fee_pct reference_price = do
    let estimated_quantity = div (mul equity (sub one fee_pct)) reference_price
    order ← answered (exchange.create_market_buy_order symbol estimated_quantity)
    fill_from_order order estimated_quantity

  unfoldable pub close_long : Broker F → String → F → F → Result BotError (Fill F)
  unfolding fill_from_order
  close_long (paper costs) symbol quantity reference_price = ok (record {
    price = exit_fill_price costs reference_price;
    quantity = quantity;
    order_id = none;
  })
  close_long (live exchange) symbol quantity reference_price = do
    order ← answered (exchange.create_market_sell_order symbol quantity)
    fill_from_order order quantity
