-- ===== src/Backtest/Engine/Accounts.antt =====
-- What a whole backtest of a strategy that passes its checks returns.
use freqpanda.Prelude.{
  ℕ, zero, suc, ◌+◌, ◌≤◌, ◌≡◌, refl, sym, ◌∙◌, ap, ◌⊎◌, inl, inr, true, some, List, [], ◌∷◌, map,
  length, get_last?, tabulate, tabulate_from, IsRising, arith,
}
use freqpanda.Prelude.Result.{ok, err, ◌>>=◌}
use freqpanda.Prelude.Float.{Float}
use freqpanda.Strategy.Schema.{StrategyDefinition, check_definition}
use freqpanda.Strategy.Indicators.{Frame, StrategyError, column_of}
use freqpanda.Strategy.Validation.{validate_definition, ohlcv_columns}
use freqpanda.Strategy.Interpreter.{Trade, run_strategy, missing}
use freqpanda.Strategy.Shape.{IsAligned}
use freqpanda.Strategy.Shape.Computed.{KeepsLength}
use freqpanda.Strategy.Safety.{Takes, column_of-Has}
use freqpanda.Execution.Parity.Safety.{run_strategy-Returns, without-keys}
use freqpanda.Execution.Parity.Placed.{run_strategy-Places}
use freqpanda.Backtest.Equity.{
  TradeCostResult, apply_costs, apply_costs_to_trades, build_equity_curve,
}
use freqpanda.Backtest.Equity.Curve.{
  Placed, InOrder, IsLocated, equity_at, build_equity_curve-equity_at,
}
use freqpanda.Backtest.Equity.Positions.{get_loc-lt-length}
use freqpanda.Backtest.Metrics.{Series, no_time, compute_drawdown, compute_trade_stats}
use freqpanda.Backtest.Engine.{
  Libraries, BacktestKwargs, BacktestResult, backtest, costs_of, series, final_of, result_of,
}
use freqpanda.Backtest.Engine.Total.{compute_drawdown-OrNoNumber, NoNumber}

module _ {F : Type 0} ⦃fl : Float F⦄ where
  -- The equity that the last trade leaves.
  pub settled : F → List (TradeCostResult F) → F
  settled equity [] = equity
  settled equity (tc ∷ rest) = settled tc.equity_after rest

  abbrev Within : ℕ → List (Placed F) → Type 0
  Within n [] = Unit
  Within n (p ∷ ps) = (p.exit_pos ≤ n) × Within n ps

  equity_at-settled :
      (close : List F) (n cursor : ℕ) (equity : F) (ps : List (Placed F))
      → InOrder cursor ps
      → Within n ps
      → equity_at close equity ps n ≡ settled equity (map (λ p. p.result) ps)
  unfolding equity_at settled
  equity_at-settled close n cursor equity [] ordered within = refl
  equity_at-settled close n cursor equity (p ∷ []) ordered within = ground arith
  equity_at-settled close n cursor equity (p ∷ q ∷ ps) ordered within =
      ground (arith, equity_at-settled close n (suc p.exit_pos) p.result.equity_after (q ∷ ps))

  IsLocated-Within :
      (index : List ℕ) (n : ℕ) (ps : List (Placed F))
      → length index ≡ suc n
      → IsLocated index ps
      → Within n ps
  IsLocated-Within index n [] e located = tt
  IsLocated-Within index n (p ∷ ps) e (entry, exit, located) = (
    omega (arith, get_loc-lt-length index p.result.trade.exit_time exit),
    IsLocated-Within index n ps e located,
  )

  last_of_tabulate :
      (i n : ℕ) (f : ℕ → F) → get_last? (tabulate_from i (suc n) f) ≡ some (f (i + n))
  last_of_tabulate i zero f = ap (λ j. some (f j)) (omega arith)
  last_of_tabulate i (suc n) f = last_of_tabulate (suc i) n f ∙ ap (λ j. some (f j)) (omega arith)

  located_in_none : (ps : List (Placed F)) → IsLocated [] ps → ps ≡ []
  located_in_none [] located = refl
  located_in_none (p ∷ ps) located = absurd (omega (arith, get_loc-lt-length [] _ located.0))

  final_of-settled :
      (close : List F) (equity : F) (index : List ℕ) (ps : List (Placed F))
      → IsLocated index ps
      → InOrder 0 ps
      → final_of equity (tabulate (length index) (equity_at close equity ps))
        ≡ settled equity (map (λ p. p.result) ps)
  unfolding settled
  final_of-settled close equity [] ps located ordered = rw (located_in_none ps located) refl
  final_of-settled close equity (t ∷ index) ps located ordered =
      rw (last_of_tabulate 0 (length index) (equity_at close equity ps)) (
        ap (equity_at close equity ps) (omega arith)
        ∙ equity_at-settled close (length index) 0 equity ps ordered
            (IsLocated-Within (t ∷ index) (length index) ps refl located))

  length-apply_costs_to_trades :
      (lib : Libraries F) (trades : List (Trade F)) (kwargs : BacktestKwargs F) (equity : F)
      → (compute_trade_stats lib.np
          (apply_costs_to_trades trades equity (costs_of kwargs))).num_trades
        ≡ length trades
  unfolding compute_trade_stats apply_costs_to_trades
  length-apply_costs_to_trades lib [] kwargs equity = refl
  length-apply_costs_to_trades lib (t ∷ []) kwargs equity = refl
  length-apply_costs_to_trades lib (t ∷ u ∷ trades) kwargs equity = ap suc (
      length-apply_costs_to_trades lib (u ∷ trades) kwargs
        (apply_costs (costs_of kwargs) equity t).equity_after)

  -- The curve that is the equity at each candle, with the trades at the rows of their times.
  abbrev pub IsCurve : Frame F → F → List (TradeCostResult F) → Series F → Type 0
  IsCurve df initial costed curve =
      (close : List F) × (ps : List (Placed F)) × (column_of df "close" ≡ ok close)
      × (map (λ p. p.result) ps ≡ costed)
      × IsLocated df.index ps
      × InOrder 0 ps
      × (curve ≡ series df.index (tabulate (length df.index) (equity_at close initial ps)))

  -- The accounts of a result: its trades are those of the strategy with costs, its curve is the
  -- equity at each candle, and its capital at the end is what the last trade left.
  pub record Accounts (df : Frame F) (kwargs : BacktestKwargs F) (trades : List (Trade F))
      (r : BacktestResult F) : Type 0 where
    pub priced : r.trades ≡ apply_costs_to_trades trades kwargs.initial_capital (costs_of kwargs)
    pub counted : r.num_trades ≡ length trades
    pub compounded : r.final_capital ≡ settled kwargs.initial_capital r.trades
    pub curve : IsCurve df kwargs.initial_capital r.trades r.equity_curve

  -- What has no accounts: the curve of the trades has no number to measure a drawdown by.
  abbrev pub Numberless : Frame F → BacktestKwargs F → List (Trade F) → Type 0
  Numberless df kwargs trades =
      let costed = apply_costs_to_trades trades kwargs.initial_capital (costs_of kwargs) in
      (curve : Series F) × IsCurve df kwargs.initial_capital costed curve × NoNumber curve

  backtest-priced :
      (lib : Libraries F) (d : StrategyDefinition F) (df : Frame F) (kwargs : BacktestKwargs F)
      (trades : List (Trade F)) (values : List F)
      → run_strategy lib.ta d df ≡ ok trades
      → build_equity_curve lib.blank df
          (apply_costs_to_trades trades kwargs.initial_capital (costs_of kwargs))
          kwargs.initial_capital
        ≡ ok values
      → backtest lib d df kwargs ≡ (
          compute_drawdown lib.np (series df.index values) >>= λ drawdown. ok (
            result_of lib.np kwargs d.name df.index
              (apply_costs_to_trades trades kwargs.initial_capital (costs_of kwargs))
              values
              drawdown))
  unfolding backtest
  backtest-priced lib d df kwargs trades values ran built = rw (ran, built) refl

  -- A definition that the schema accepts and validate_definition passes, over a frame with the OHLCV
  -- columns, aligned and in the order of time, where `ta` takes the parameters of the indicators:
  -- run_strategy returns trades, and the backtest returns their accounts. It raises a KeyError only
  -- where the curve of those trades, which is then not empty, has no drawdown that is a number, or no
  -- number up to the time of one. The indicator library is to keep the length of a series.
  pub backtest_lem :
      (lib : Libraries F) (d : StrategyDefinition F) (df : Frame F) (kwargs : BacktestKwargs F)
      → KeepsLength lib.ta
      → IsAligned df
      → IsRising 0 df.index
      → check_definition d ≡ true
      → validate_definition lib.ta d ≡ ok tt
      → missing df ≡ []
      → Takes lib.ta d.indicators
      → (trades : List (Trade F)) × (run_strategy lib.ta d df ≡ ok trades)
        × (((r : BacktestResult F) × (backtest lib d df kwargs ≡ ok r)
              × Accounts df kwargs trades r)
            ⊎ ((backtest lib d df kwargs ≡ err no_time) × Numberless df kwargs trades))
  unfolding missing
  backtest_lem lib d df kwargs keeps aligned rising accepts valid complete takes =
      let initial = kwargs.initial_capital in
      let (trades, ran) = run_strategy-Returns lib.ta d df accepts valid complete takes in
      let (ps, (same, located, ordered)) =
        run_strategy-Places lib.ta d df trades initial (costs_of kwargs) keeps aligned rising ran in
      let (close, found) =
        column_of-Has df "close" (without-keys df ohlcv_columns complete).1.1.1.0 in
      let values = tabulate (length df.index) (equity_at close initial ps) in
      let built =
        build_equity_curve-equity_at lib.blank df close ps initial found located ordered in
      let priced = backtest-priced lib d df kwargs trades values ran (rw (sym same) built) in
      let costed = apply_costs_to_trades trades initial (costs_of kwargs) in
      (
        trades,
        ran,
        elim (compute_drawdown-OrNoNumber lib.np (series df.index values)) [
          | inl (drawdown, e) ↦ inl (
            result_of lib.np kwargs d.name df.index costed values drawdown,
            priced ∙ rw e refl,
            record {
              priced = refl;
              counted = length-apply_costs_to_trades lib trades kwargs initial;
              compounded =
                  final_of-settled close initial df.index ps located ordered
                  ∙ ap (settled initial) same;
              curve = (close, ps, found, same, located, ordered, refl);
            },
          )
          | inr (e, numberless) ↦ inr (
            priced ∙ rw e refl,
            (series df.index values, (close, ps, found, same, located, ordered, refl), numberless),
          )
        ],
      )

  -- A backtest that raises the KeyError, of a curve that has no number to measure a drawdown by.
  abbrev pub Unmeasured :
      Libraries F → StrategyDefinition F → Frame F → BacktestKwargs F → StrategyError → Type 0
  Unmeasured lib d df kwargs e =
      (backtest lib d df kwargs ≡ err e)
      × (e ≡ no_time)
      × ((trades : List (Trade F)) × (run_strategy lib.ta d df ≡ ok trades)
          × Numberless df kwargs trades)

  pub backtest-Measures :
      (lib : Libraries F) (d : StrategyDefinition F) (df : Frame F) (kwargs : BacktestKwargs F)
      → KeepsLength lib.ta
      → IsAligned df
      → IsRising 0 df.index
      → check_definition d ≡ true
      → validate_definition lib.ta d ≡ ok tt
      → missing df ≡ []
      → Takes lib.ta d.indicators
      → ((r : BacktestResult F) × (backtest lib d df kwargs ≡ ok r))
        ⊎ Unmeasured lib d df kwargs no_time
  backtest-Measures lib d df kwargs keeps aligned rising accepts valid complete takes =
      let (trades, ran, outcome) =
        backtest_lem lib d df kwargs keeps aligned rising accepts valid complete takes in
      elim outcome [
        | inl (r, e, accounts) ↦ inl (r, e)
        | inr (e, numberless) ↦ inr (e, refl, (trades, ran, numberless))
      ]
