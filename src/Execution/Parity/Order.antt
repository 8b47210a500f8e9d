-- ===== src/Execution/Parity/Order.antt =====
-- The order of the trades that `run_strategy` returns.
use freqpanda.Prelude.{IsRising, ℕ, suc, ◌≡◌, sym, ◌∙◌, subst, Bool, List, [], ◌∷◌, map}
use freqpanda.Prelude.Result.{ok, >>=-eq-ok, IfOk, IfOk-bind, always}
use freqpanda.Prelude.Float.{Float}
use freqpanda.Strategy.Schema.{StrategyDefinition}
use freqpanda.Strategy.Indicators.{Ta, Frame, column_of}
use freqpanda.Strategy.Validation.{validate_definition}
use freqpanda.Strategy.Conditions.{evaluate_condition}
use freqpanda.Strategy.Interpreter.{
  Signals, Trade, compute_indicators, signals_of, exit_series, rows_of, with_signals, with_prices,
  run_loop, start, run_strategy,
}
use freqpanda.Strategy.Shape.{IsAligned}
use freqpanda.Strategy.Shape.Computed.{KeepsLength, compute_indicators-Extends}
use freqpanda.Execution.LiveInterpreter.{snapshot_of}
use freqpanda.Execution.Parity.{live_run, run_loop-loop_of, no_trades}
use freqpanda.Execution.Parity.Candles.{check_missing, trades-run}
use freqpanda.Execution.Parity.Chronology.{IsChronological, live_run-IsChronological}

module _ {F : Type 0} ⦃fl : Float F⦄ where
  abbrev pub times : List (Signals F) → List ℕ
  times signals = map (λ s. s.timestamp) (map snapshot_of signals)

  times-IsRising :
      (b : ℕ) (index : List ℕ) (os hs ls cs : List F) (es xs : List Bool)
      → IsRising b index
      → IsRising b (times (with_signals (with_prices index os hs ls cs) es xs))
  times-IsRising b [] os hs ls cs es xs r = tt
  times-IsRising b (t ∷ ts) [] hs ls cs es xs r = tt
  times-IsRising b (t ∷ ts) (o ∷ os) [] ls cs es xs r = tt
  times-IsRising b (t ∷ ts) (o ∷ os) (h ∷ hs) [] cs es xs r = tt
  times-IsRising b (t ∷ ts) (o ∷ os) (h ∷ hs) (l ∷ ls) [] es xs r = tt
  times-IsRising b (t ∷ ts) (o ∷ os) (h ∷ hs) (l ∷ ls) (c ∷ cs) [] xs r = tt
  times-IsRising b (t ∷ ts) (o ∷ os) (h ∷ hs) (l ∷ ls) (c ∷ cs) (e ∷ es) [] r = tt
  times-IsRising b (t ∷ ts) (o ∷ os) (h ∷ hs) (l ∷ ls) (c ∷ cs) (e ∷ es) (x ∷ xs) r =
      (r.0, times-IsRising (suc t) ts os hs ls cs es xs r.1)

  signals_of-IsRising :
      (d : StrategyDefinition F) (df : Frame F)
      → IsRising 0 df.index
      → IfOk (λ signals. IsRising 0 (times signals)) (signals_of d df)
  unfolding signals_of rows_of
  signals_of-IsRising d df r = always _ (evaluate_condition d.entry_conditions df) _ λ es.
      always _ (exit_series d.exit_conditions df) _ λ xs.
        IfOk-bind (λ rows. IsRising 0 (times (with_signals rows es xs))) _ (rows_of df) _
          (always _ (column_of df "open") _ λ os. always _ (column_of df "high") _ λ hs.
            always _ (column_of df "low") _ λ ls.
              always _ (column_of df "close") _ λ cs. times-IsRising 0 df.index os hs ls cs es xs r)
          (λ rows h. h)

  -- What `run_strategy` went through where it returned.
  pub run_strategy-live_run :
      (ta : Ta F) (d : StrategyDefinition F) (df : Frame F) (trades : List (Trade F))
      → run_strategy ta d df ≡ ok trades
      → (frame : Frame F) × (signals : List (Signals F)) × (compute_indicators ta df d.indicators
          ≡ ok frame)
        × (signals_of d frame ≡ ok signals)
        × ((live_run d.risk_management no_trades (map snapshot_of signals)).trades ≡ trades)
  unfolding run_strategy
  run_strategy-live_run ta d df trades e =
      let (u, valid, e₁) = >>=-eq-ok (validate_definition ta d) _ e in
      let (v, complete, e₂) = >>=-eq-ok (check_missing ta d df) _ e₁ in
      let (frame, computed, e₃) = >>=-eq-ok (compute_indicators ta df d.indicators) _ e₂ in
      let (signals, evaluated, e₄) = >>=-eq-ok (signals_of d frame) _ e₃ in
      let (loop, ran, e₅) = >>=-eq-ok (run_loop d.risk_management start signals) _ e₄ in
      let run = live_run d.risk_management no_trades (map snapshot_of signals) in
      (
        frame,
        signals,
        computed,
        evaluated,
        trades-run ta d run loop trades
            (sym ran ∙ run_loop-loop_of d.risk_management no_trades signals) e₅,
      )

  -- Over candles in the order of time the trades of a strategy do not overlap: each exits on a later
  -- candle than it enters, and the next one enters on a later candle than that exit. The indicator
  -- library is to keep the length of a series, and the columns are to be aligned.
  pub run_strategy-IsChronological :
      (ta : Ta F) (d : StrategyDefinition F) (df : Frame F) (trades : List (Trade F))
      → KeepsLength ta
      → IsAligned df
      → IsRising 0 df.index
      → run_strategy ta d df ≡ ok trades
      → IsChronological 0 trades
  run_strategy-IsChronological ta d df trades keeps aligned rising e =
      let (frame, signals, computed, evaluated, ran) = run_strategy-live_run ta d df trades e in
      let (rows, even) =
        rw computed at (compute_indicators-Extends ta keeps d.indicators df aligned) in
      let later = rw evaluated at (signals_of-IsRising d frame (rw rows rising)) in
      subst (IsChronological 0) ran
        (live_run-IsChronological d.risk_management (map snapshot_of signals) later)
