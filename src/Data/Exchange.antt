-- ===== src/Data/Exchange.antt =====
-- freqpanda_data/exchange.py. The CCXT exchange is a parameter.
pub mod Complete
pub mod Ends
use freqpanda.Prelude.{
  ℕ, zero, suc, ◌+◌, ◌*◌, Bool, Option, none, some, List, [], ◌∷◌, length, get_last?, leb, ltb,
  if◌then◌else◌,
}

-- A row of CCXT: its time in milliseconds, and the prices.
pub record Candle (F : Type 0) : Type 0 where
  pub time : ℕ
  pub open_price : F
  pub high : F
  pub low : F
  pub close : F
  pub volume : F

-- `fetch_ohlcv` of one symbol and timeframe, by the number of the call, for an exchange changes in
-- between: `since`, `limit` and the candles, or `none` for an exception of CCXT.
pub record Market (F : Type 0) : Type 0 where
  pub timeframe_seconds : ℕ
  pub fetch_ohlcv : ℕ → ℕ → ℕ → Option (List (Candle F))

abbrev pub default_page_limit : ℕ
default_page_limit = 1000

abbrev pub timeframe_ms : {F : Type 0} → Market F → ℕ
timeframe_ms market = market.timeframe_seconds * 1000

-- How a generator ends: it returns, it raises, or its fuel is spent.
pub data End : Type 0 where
  returned raised spent : End

abbrev pub Pages : Type 0 → Type 0
Pages F = List (List (Candle F)) × End

abbrev pub yield_first : {F : Type 0} → List (Candle F) → Pages F → Pages F
yield_first batch more = (batch ∷ more.0, more.1)

-- What a round does with a batch, by its last candle. `more` is the loop from the next cursor on.
abbrev pub page :
    {F : Type 0}
    → (limit step cursor : ℕ) → List (Candle F)
    → Option (Candle F)
    → (ℕ → Pages F)
    → Pages F
page limit step cursor batch none more = ([], returned)
page limit step cursor batch (some last) more =
    let next_cursor = last.time + step in
    yield_first batch (
      if leb next_cursor cursor
      then ([], returned)
      else if ltb (length batch) limit
      then ([], returned)
      else more next_cursor)

abbrev pub round_of :
    {F : Type 0} → (limit step cursor : ℕ) → Option (List (Candle F)) → (ℕ → Pages F) → Pages F
round_of limit step cursor none more = ([], raised)
round_of limit step cursor (some batch) more = page limit step cursor batch (get_last? batch) more

-- The pages that fetch_ohlcv_since yields from a cursor on. Each round takes one unit of fuel.
unfoldable pub pages_from : {F : Type 0} → Market F → ℕ → (fuel call cursor : ℕ) → Pages F
pages_from market limit zero call cursor = ([], spent)
pages_from market limit (suc fuel) call cursor =
    round_of limit (timeframe_ms market) cursor (market.fetch_ohlcv call cursor limit)
      (pages_from market limit fuel (suc call))

unfoldable pub fetch_ohlcv_since : {F : Type 0} → Market F → (limit fuel since_ms : ℕ) → Pages F
unfolding pages_from
fetch_ohlcv_since market limit fuel since_ms = pages_from market limit fuel 0 since_ms

unfoldable pub is_closed_candle : {F : Type 0} → Candle F → ℕ → ℕ → Bool
is_closed_candle candle timeframe_ms now_ms = leb (candle.time + timeframe_ms) now_ms
