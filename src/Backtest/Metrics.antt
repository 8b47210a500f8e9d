-- ===== src/Backtest/Metrics.antt =====
-- freqpanda_backtest/metrics.py. A Series over timestamps is a list of pairs; its index rises, and
-- so `.loc[:t]` and `.loc[t:]` keep the entries up to and from t. What numpy and pandas compute over
-- a whole series (sums, means, deviations, a median) is a parameter.
pub mod Series
pub mod Extreme
pub mod Falls
pub mod Drawdown
use freqpanda.Prelude.{
  ℕ, ◌-◌, ◌*◌, Bool, not, ◌&&◌, Option, none, some, List, [], ◌∷◌, map, length, ltb, leb, ◌==◌,
  if◌then◌else◌,
}
use freqpanda.Prelude.Result.{Result, ok, err, ◌>>=◌}
use freqpanda.Prelude.Float.{Float, nought, one, max, is_nan}
use freqpanda.Strategy.Indicators.{StrategyError, value_error, key_error}
use freqpanda.Strategy.Schema.{is_empty}
use freqpanda.Backtest.Equity.{TradeCostResult}

-- numpy and pandas: the mean of a series, its deviation with ddof=1, and the median of differences
-- of time, in milliseconds. `negate` is the unary minus, `infinity` is float("inf"), and
-- `is_finite` is math.isfinite.
pub record Numpy (F : Type 0) : Type 0 where
  pub infinity : F
  pub negate : F → F
  pub sqrt : F → F
  pub sum : List F → F
  pub mean : List F → F
  pub std : List F → F
  pub median : List ℕ → F
  pub is_finite : F → Bool

pub record DrawdownInfo (F : Type 0) : Type 0 where
  pub max_drawdown_pct : F
  pub peak_time : Option ℕ
  pub trough_time : Option ℕ
  pub recovery_time : Option ℕ
  pub duration : ℕ

pub record TradeStats (F : Type 0) : Type 0 where
  pub num_trades : ℕ
  pub win_rate : F
  pub avg_win_pct : F
  pub avg_loss_pct : F
  pub profit_factor : F

abbrev pub Series : Type 0 → Type 0
Series F = List (ℕ × F)

-- series[mask]
abbrev pub select {ℓ} : {A : Type ℓ} → (A → Bool) → List A → List A
select p [] = []
select p (x ∷ xs) = if p x then x ∷ select p xs else select p xs

-- Series.diff() without its first entry
abbrev pub diffs : List ℕ → List ℕ
diffs [] = []
diffs (t ∷ []) = []
diffs (t ∷ u ∷ index) = (u - t) ∷ diffs (u ∷ index)

-- 365 days in milliseconds
abbrev pub year : ℕ
year = 31_536_000_000

abbrev pub first {ℓ} : {A : Type ℓ} → List A → Option A
first [] = none
first (x ∷ xs) = some x

-- series.index[-1], or the given time
abbrev pub last_time : {F : Type 0} → ℕ → Series F → ℕ
last_time t [] = t
last_time t ((u, v) ∷ s) = last_time u s

abbrev pub up_to : {F : Type 0} → ℕ → Series F → Series F
up_to t = select (λ e. leb e.0 t)

abbrev pub from : {F : Type 0} → ℕ → Series F → Series F
from t = select (λ e. leb t e.0)

-- series.loc[t]
unfoldable pub loc : {F : Type 0} → Series F → ℕ → Result StrategyError F
loc [] t = err (key_error "timestamp")
loc ((u, v) ∷ s) t = if u == t then ok v else loc s t

-- `.loc` of NaT
abbrev pub no_time : StrategyError
no_time = key_error "NaT"

-- idxmin and idxmax of no values give NaT, and `.loc` of that is a KeyError.
abbrev pub found_time : {F : Type 0} → Option (ℕ × F) → Result StrategyError ℕ
found_time none = err no_time
found_time (some (t, v)) = ok t

module _ {F : Type 0} ⦃fl : Float F⦄ where
  open fl use {add, sub, mul, div, lt, le}

  unfoldable pub infer_periods_per_year : Numpy F → List ℕ → F
  infer_periods_per_year np index =
      if ltb (length index) 2 then fl.nan else div (fl.of_nat year) (np.median (diffs index))

  -- The first entry that no other one is better than, NaN passed over.
  unfoldable pub extreme : (F → F → Bool) → Option (ℕ × F) → Series F → Option (ℕ × F)
  extreme better best [] = best
  extreme better none ((t, v) ∷ s) = extreme better (if is_nan v then none else some (t, v)) s
  extreme better (some (u, w)) ((t, v) ∷ s) =
      extreme better (if better v w then some (t, v) else some (u, w)) s

  abbrev pub idxmin : Series F → Result StrategyError ℕ
  idxmin s = found_time (extreme lt none s)

  abbrev pub idxmax : Series F → Result StrategyError ℕ
  idxmax s = found_time (extreme (λ v w. lt w v) none s)

  abbrev pub top_of : Option F → F → F
  top_of none v = v
  top_of (some m) v = max m v

  abbrev pub fall : F → F → F
  fall v m = div (sub v m) m

  -- (equity - running_max) / running_max, from the maximum so far; cummax passes NaN over.
  unfoldable pub drawdowns : Option F → Series F → Series F
  drawdowns m [] = []
  drawdowns m ((t, v) ∷ s) =
      (t, if is_nan v then fl.nan else fall v (top_of m v))
      ∷ drawdowns (if is_nan v then m else some (top_of m v)) s

  -- `recovered` and what follows from it
  abbrev pub recovery_of : ℕ → ℕ → Series F → Option ℕ × ℕ
  recovery_of peak_time last [] = (none, last - peak_time)
  recovery_of peak_time last ((t, v) ∷ recovered) = (some t, t - peak_time)

  unfoldable pub compute_drawdown : Numpy F → Series F → Result StrategyError (DrawdownInfo F)
  unfolding drawdowns extreme loc
  compute_drawdown np [] = ok (record {
    max_drawdown_pct = nought;
    peak_time = none;
    trough_time = none;
    recovery_time = none;
    duration = 0;
  })
  compute_drawdown np ((t, v) ∷ rest) = do
    let equity = (t, v) ∷ rest
    let drawdown = drawdowns none equity
    trough_time ← idxmin drawdown
    lowest ← loc drawdown trough_time
    peak_time ← idxmax (up_to trough_time equity)
    peak_value ← loc equity peak_time
    let recovered = select (λ e. le peak_value e.1) (from trough_time equity)
    let (recovery_time, duration) = recovery_of peak_time (last_time t rest) recovered
    ok (record {
      max_drawdown_pct = np.negate lowest;
      peak_time = some peak_time;
      trough_time = some trough_time;
      recovery_time = recovery_time;
      duration = duration;
    })

  -- equity.pct_change() without its first entry: NaN is not filled in.
  abbrev pct_change : List F → List F
  pct_change [] = []
  pct_change (v ∷ []) = []
  pct_change (v ∷ w ∷ vs) = sub (div w v) one ∷ pct_change (w ∷ vs)

  -- Python's truth of a number: NaN is true, and zero is not.
  abbrev is_zero : F → Bool
  is_zero x = le x nought && le nought x

  -- np.minimum(x, 0.0), which keeps NaN
  abbrev below_zero : F → F
  below_zero x = if lt nought x then nought else x

  abbrev sortino_of : Numpy F → F → F → F → F
  sortino_of np mean_excess deviation periods =
      if lt nought deviation
      then mul (div mean_excess deviation) (np.sqrt periods)
      else if lt nought mean_excess
      then np.infinity
      else fl.nan

  unfoldable pub compute_return_ratios : Numpy F → List F → F → F → F × F
  compute_return_ratios np equity periods_per_year risk_free_rate =
      let returns = select (λ r. not (is_nan r)) (pct_change equity) in
      let mar =
        if not (is_zero periods_per_year) && not (is_nan periods_per_year)
        then div risk_free_rate periods_per_year
        else nought in
      let mean_excess = np.mean (map (λ r. sub r mar) returns) in
      let std = np.std returns in
      let sharpe =
        if lt nought std then mul (div mean_excess std) (np.sqrt periods_per_year) else fl.nan in
      let downside = map (λ r. below_zero (sub r mar)) returns in
      let downside_deviation = np.sqrt (np.mean (map (λ d. mul d d) downside)) in
      if is_empty returns
      then (fl.nan, fl.nan)
      else (sharpe, sortino_of np mean_excess downside_deviation periods_per_year)

  abbrev wins : List (TradeCostResult F) → List (TradeCostResult F)
  wins = select (λ tc. lt nought tc.net_pnl_abs)

  abbrev losses : List (TradeCostResult F) → List (TradeCostResult F)
  losses = select (λ tc. lt tc.net_pnl_abs nought)

  -- The value of a selection, or 0.0 if nothing is selected.
  abbrev if_any : List (TradeCostResult F) → F → F
  if_any selected v = if is_empty selected then nought else v

  abbrev factor_of : Numpy F → F → F → F
  factor_of np gross_profit gross_loss =
      if lt nought gross_loss
      then div gross_profit gross_loss
      else if lt nought gross_profit
      then np.infinity
      else fl.nan

  unfoldable pub compute_trade_stats : Numpy F → List (TradeCostResult F) → TradeStats F
  compute_trade_stats np [] = record {
    num_trades = 0;
    win_rate = fl.nan;
    avg_win_pct = fl.nan;
    avg_loss_pct = fl.nan;
    profit_factor = fl.nan;
  }
  compute_trade_stats np (tc ∷ rest) =
      let trade_costs = tc ∷ rest in
      let won = wins trade_costs in
      let lost = losses trade_costs in
      let gross_profit = if_any won (np.sum (map (λ tc. tc.net_pnl_abs) won)) in
      let gross_loss = if_any lost (np.negate (np.sum (map (λ tc. tc.net_pnl_abs) lost))) in
      record {
        num_trades = length trade_costs;
        win_rate = div (fl.of_nat (length won)) (fl.of_nat (length trade_costs));
        avg_win_pct = if_any won (np.mean (map (λ tc. tc.net_pnl_pct) won));
        avg_loss_pct = if_any lost (np.mean (map (λ tc. tc.net_pnl_pct) lost));
        profit_factor = factor_of np gross_profit gross_loss;
      }
