-- ===== src/Execution/Risk.antt =====
-- freqpanda_execution/risk.py. A method gives its result or its exception, and the middleware after it.
pub mod Limits
use freqpanda.Prelude.{Bool, false, not, ◌&&◌, Option, none, some, if◌then◌else◌}
use freqpanda.Prelude.Result.{Result, ok, err}
use freqpanda.Prelude.Float.{Float, gt, ge, abs, one, nought}
use freqpanda.Strategy.Indicators.{StrategyError}

pub data OrderProblem : Type 0 where
  bad_quantity bad_price too_large too_far too_soon : OrderProblem

-- The exceptions of the execution engine, with their messages left out.
pub data BotError : Type 0 where
  circuit_breaker_tripped : BotError
  order_rejected : OrderProblem → BotError
  strategy_error : StrategyError → BotError
  exchange_error runtime_error value_error attribute_error : BotError

pub record RiskLimits (F : Type 0) : Type 0 where
  pub max_drawdown_pct : F
  pub max_position_notional_pct : F
  pub max_price_deviation_pct : F
  pub min_seconds_between_orders : F

pub record RiskMiddleware (F : Type 0) : Type 0 where
  pub limits : RiskLimits F
  pub peak_equity : F
  pub last_order_at : Option F

module _ {F : Type 0} ⦃fl : Float F⦄ where
  open fl use {sub, mul, div, lt, le}

  -- RiskLimits.__post_init__
  unfoldable pub check_limits : RiskLimits F → Bool
  check_limits l =
      (lt nought l.max_drawdown_pct && lt l.max_drawdown_pct one)
      && not (le l.max_position_notional_pct nought)
      && not (le l.max_price_deviation_pct nought)
      && not (lt l.min_seconds_between_orders nought)

  -- RiskMiddleware.__init__
  unfoldable pub new_middleware : RiskLimits F → F → Result BotError (RiskMiddleware F)
  new_middleware limits initial_equity =
      if le initial_equity nought
      then err value_error
      else ok (record { limits = limits; peak_equity = initial_equity; last_order_at = none })

  unfoldable pub check_hard_stop_loss : F → F → F → Bool
  check_hard_stop_loss entry_price stop_loss_pct current_price =
      le current_price (mul entry_price (sub one stop_loss_pct))

  abbrev pub drawdown : F → F → F
  drawdown peak equity = div (sub peak equity) peak

  unfoldable pub update_equity :
      F → RiskMiddleware F → Result BotError (Unit {0}) × RiskMiddleware F
  update_equity equity m =
      let peak = if gt equity m.peak_equity then equity else m.peak_equity in
      let m' = record m { peak_equity = peak } in
      (
        if ge (drawdown peak equity) m.limits.max_drawdown_pct
            then err circuit_breaker_tripped
            else ok tt,
        m',
      )

  -- price against a reference price that is known and positive
  abbrev pub deviates : RiskLimits F → F → Option F → Bool
  deviates limits price none = false
  deviates limits price (some reference) =
      gt reference nought
      && gt (div (abs (sub price reference)) reference) limits.max_price_deviation_pct

  abbrev pub hurried : RiskLimits F → Option F → Option F → Bool
  hurried limits (some now) (some last) = lt (sub now last) limits.min_seconds_between_orders
  hurried limits _ _ = false

  abbrev pub noted : Option F → Option F → Option F
  noted none last = last
  noted (some now) last = some now

  unfoldable pub check_order :
      (quantity price equity : F)
      → (reference_price now : Option F) → RiskMiddleware F
      → Result BotError (Unit {0}) × RiskMiddleware F
  check_order quantity price equity reference_price now m =
      if le quantity nought
      then (err (order_rejected bad_quantity), m)
      else if le price nought
      then (err (order_rejected bad_price), m)
      else if gt (mul quantity price) (mul equity m.limits.max_position_notional_pct)
      then (err (order_rejected too_large), m)
      else if deviates m.limits price reference_price
      then (err (order_rejected too_far), m)
      else if hurried m.limits now m.last_order_at
      then (err (order_rejected too_soon), m)
      else (ok tt, record m { last_order_at = noted now m.last_order_at })
