-- ===== src/Examples/Data.antt =====
-- Paging through a sample exchange, and a feed on its candles.
use freqpanda.Prelude.{
  ℕ, ◌≡◌, ◌≢◌, refl, some, List, [], ◌∷◌, map, take, get_last?, All, Any, ◌↔◌, arith, none, length,
  if◌then◌else◌,
}
use freqpanda.Prelude.Fixed.{Fixed}
use freqpanda.Data.Exchange.{Candle, Market, returned, spent, fetch_ohlcv_since}
use freqpanda.Data.Exchange.Complete.{since, concat, fetch_ohlcv_since-all}
use freqpanda.Data.Exchange.Ends.{fetch_ohlcv_since-end}
use freqpanda.Strategy.Interpreter.{or_else}
use freqpanda.Data.Store.{
  Series, StoredCandle, same_series, get_latest_timestamp_ms, upsert_candles, fetch_ohlcv_dataframe,
}
use freqpanda.Data.Store.Latest.{
  stored, newest, upsert_candles-stored, InOrder, IsRead, fetch_ohlcv_dataframe-InOrder,
}
use freqpanda.Data.Pipeline.{closed_only, update_symbol_timeframe}
use freqpanda.Data.Pipeline.Stored.{update_symbol_timeframe-stored}
use freqpanda.Prelude.Result.{ok}
use freqpanda.Execution.Feed.{Feed, deliver}
use freqpanda.Execution.Feed.Delivery.{fresh, after, IsSound, IsReady, deliver-fresh}
use freqpanda.Examples.Sample.{whole}

abbrev candle : ℕ → Candle Fixed
candle t = record {
  time = t;
  open_price = whole 10;
  high = whole 12;
  low = whole 9;
  close = whole 11;
  volume = whole 1;
}

-- One candle a second.
abbrev series : List (Candle Fixed)
series = candle 1000 ∷ candle 2000 ∷ candle 3000 ∷ candle 4000 ∷ candle 5000 ∷ []

abbrev market : Market Fixed
market = record {
  timeframe_seconds = 1;
  fetch_ohlcv = λ call t limit. some (take limit (since t series));
}

fetch_ohlcv_since-all_example :
    (concat (fetch_ohlcv_since market 2 5 2000).0 ≡ since 2000 series)
    × ((fetch_ohlcv_since market 2 5 2000).1 ≡ returned)
unfolding since
fetch_ohlcv_since-all_example =
    fetch_ohlcv_since-all market series (λ call t limit. refl)
      (omega arith, (omega arith, (omega arith, (omega arith, (omega arith, tt))))) 2 (omega arith)
      (omega arith) 5 2000 (omega arith)

-- An exchange that always repeats one candle.
abbrev stuck : Market Fixed
stuck = record { timeframe_seconds = 1; fetch_ohlcv = λ call t limit. some (candle 3000 ∷ []) }

fetch_ohlcv_since-end_example : (fetch_ohlcv_since stuck 1 4001 2000).1 ≢ spent
fetch_ohlcv_since-end_example = fetch_ohlcv_since-end stuck 1 3000 2000 (λ i t n. (omega arith, tt))

-- Two candles are kept, and the last of them is that of 2000.
abbrev feed : Feed Fixed
feed = record { history = candle 1000 ∷ candle 2000 ∷ []; max_history = 2 }

abbrev clock : Candle Fixed → ℕ
clock c = 4500

deliver-fresh_example :
    let batch = candle 2000 ∷ candle 3000 ∷ candle 3000 ∷ candle 4000 ∷ [] in
    let (histories, feed') = deliver 1000 (map (λ c. (c, clock c)) batch) feed in
    (map get_last? histories ≡ map some (fresh 1000 clock (after 0 feed.history) batch))
    × All (IsSound 2) histories
    × IsReady feed'
deliver-fresh_example =
    deliver-fresh 1000 clock (candle 2000 ∷ candle 3000 ∷ candle 3000 ∷ candle 4000 ∷ []) feed
      (omega arith, (omega arith, (omega arith, tt)))

abbrev btc_hours : Series
btc_hours = record { exchange = "binance"; symbol = "BTC/USDT"; timeframe = "1h" }

abbrev table : List (StoredCandle Fixed)
table = record { series = btc_hours; candle = candle 2000 } ∷ []

upsert_candles-stored_example :
    let batch = candle 2000 ∷ candle 3000 ∷ [] in
    (2 ≡ length batch)
    × (stored btc_hours 3000 (upsert_candles btc_hours batch table).1
        ≡ or_else
            (if same_series btc_hours btc_hours then newest 3000 batch else none)
            (stored btc_hours 3000 table))
unfolding upsert_candles
upsert_candles-stored_example =
    upsert_candles-stored btc_hours btc_hours 3000 2 (candle 2000 ∷ candle 3000 ∷ []) table refl

fetch_ohlcv_dataframe-InOrder_example :
    let fetched = fetch_ohlcv_dataframe btc_hours none (some 5000) table in
    InOrder fetched
    × ((c : Candle Fixed)
        → Any (λ d. d ≡ c) fetched ↔ Any (IsRead btc_hours none (some 5000) c) table)
fetch_ohlcv_dataframe-InOrder_example =
    fetch_ohlcv_dataframe-InOrder btc_hours none (some 5000) table

-- Two candles are new, and one of them is still open at the exchange's clock.
update_symbol_timeframe-stored_example :
    let result = update_symbol_timeframe market 4 9000 clock btc_hours 0 table in
    let closed = closed_only 1000 clock (since 3000 series) in
    (result.0 ≡ ok (length closed))
    × (stored btc_hours 3000 result.1
        ≡ or_else
            (if same_series btc_hours btc_hours then newest 3000 closed else none)
            (stored btc_hours 3000 table))
unfolding since get_latest_timestamp_ms same_series
update_symbol_timeframe-stored_example =
    update_symbol_timeframe-stored market series (λ call t limit. refl)
      (omega arith, (omega arith, (omega arith, (omega arith, (omega arith, tt))))) (omega arith) 4
      9000 clock btc_hours btc_hours 3000 0 table (omega arith) (omega arith)
