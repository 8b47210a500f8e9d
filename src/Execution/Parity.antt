-- ===== src/Execution/Parity.antt =====
-- The loop of `run_strategy` against `LivePositionTracker`, fed one candle at a time.
pub mod Candles
pub mod Chronology
pub mod Order
pub mod Placed
pub mod Safety
use freqpanda.Prelude.{
  ℕ, ◌≡◌, refl, ◌∙◌, Bool, true, false, Option, none, some, List, [], ◌∷◌, ◌++◌, map, arith,
}
use mathlib.Core.List.{append-nil}
use freqpanda.Prelude.Result.{Result, ok, ◌>>=◌}
use freqpanda.Prelude.Float.{Float, one}
use freqpanda.Strategy.Schema.{RiskManagement}
use freqpanda.Strategy.Indicators.{StrategyError}
use freqpanda.Strategy.Interpreter.{Trade, Signals, Loop, start, step, run_loop, exit_of}
use freqpanda.Execution.LiveInterpreter.{
  SignalSnapshot, OpenPosition, TradeAction, enter, exit, snapshot_of, process,
}

-- What a client of the tracker keeps: its position, and the trades of its exits so far.
pub record Live (F : Type 0) : Type 0 where
  pub position : Option (OpenPosition F)
  pub trades : List (Trade F)

abbrev pub no_trades : {F : Type 0} → Live F
no_trades = record { position = none; trades = [] }

module _ {F : Type 0} ⦃fl : Float F⦄ where
  open fl use {sub, div}

  -- An exit closes the position that was open before the candle.
  abbrev pub trade_of :
      SignalSnapshot F → Option (OpenPosition F) → Option (TradeAction F) → List (Trade F)
  trade_of s (some p) (some (exit price reason)) =
      record {
        entry_time = p.entry_time;
        entry_price = p.entry_price;
        exit_time = s.timestamp;
        exit_price = price;
        exit_reason = reason;
        pnl_pct = sub (div price p.entry_price) one;
      }
      ∷ []
  trade_of s before action = []

  unfoldable pub live_step : RiskManagement F → Live F → SignalSnapshot F → Live F
  live_step risk l s =
      let after = process risk l.position s in
      record { position = after.0; trades = l.trades ++ trade_of s l.position after.1 }

  unfoldable pub live_run : RiskManagement F → Live F → List (SignalSnapshot F) → Live F
  live_run risk l [] = l
  live_run risk l (s ∷ rest) = live_run risk (live_step risk l s) rest

  -- The loop's variables that stand for a tracker's position.
  abbrev pub loop_of : Live F → Loop F
  loop_of l = elim l.position [
    | none ↦ record {
      trades = l.trades;
      in_position = false;
      entry_price = none;
      entry_time = none;
      highest_since_entry = none;
    }
    | some p ↦ record {
      trades = l.trades;
      in_position = true;
      entry_price = some p.entry_price;
      entry_time = some p.entry_time;
      highest_since_entry = some p.highest_since_entry;
    }
  ]

  pub step-loop_of :
      (risk : RiskManagement F) (position : Option (OpenPosition F)) (trades : List (Trade F))
      (s : Signals F)
      → let l : Live F = record { position = position; trades = trades } in
        step risk (loop_of l) s ≡ ok (loop_of (live_step risk l (snapshot_of s)))
  unfolding step live_step process
  step-loop_of risk none trades s = ground (arith, append-nil trades)
  step-loop_of risk (some p) trades s = ground (arith, append-nil trades)

  pub run_loop-loop_of :
      (risk : RiskManagement F) (l : Live F) (signals : List (Signals F))
      → run_loop risk (loop_of l) signals ≡ ok (loop_of (live_run risk l (map snapshot_of signals)))
  unfolding run_loop live_run
  run_loop-loop_of risk l [] = refl
  run_loop-loop_of risk l (s ∷ rest) =
      rw (step-loop_of risk l.position l.trades s)
        (run_loop-loop_of risk (live_step risk l (snapshot_of s)) rest)
