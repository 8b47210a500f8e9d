-- ===== src/Data/Store.antt =====
-- freqpanda_data/db.py: the table ohlcv_candles, as its rows in the order of insertion. A timestamp is
-- its milliseconds, and a read gives the candles that the DataFrame is made of.
pub mod Latest
use freqpanda.Prelude.{
  ℕ, zero, suc, String, Bool, true, false, not, ◌&&◌, Option, none, some, List, [], ◌∷◌, ◌++◌,
  length, take, drop, ltb, leb, ◌==◌, str_eq, if◌then◌else◌,
}
use freqpanda.Prelude.Result.{Result, ok, err}
use freqpanda.Data.Exchange.{Candle}

-- exchange, symbol and timeframe
pub record Series : Type 0 where
  pub exchange : String
  pub symbol : String
  pub timeframe : String

pub record StoredCandle (F : Type 0) : Type 0 where
  pub series : Series
  pub candle : Candle F

unfoldable pub same_series : Series → Series → Bool
same_series a b =
    str_eq a.exchange b.exchange && str_eq a.symbol b.symbol && str_eq a.timeframe b.timeframe

-- An upsert that would write one row twice fails.
pub data DbError : Type 0 where
  cardinality_violation : DbError

abbrev pub max_option : Option ℕ → ℕ → Option ℕ
max_option none t = some t
max_option (some u) t = some (if ltb u t then t else u)

-- execute_values sends its rows in pages of this size, one statement each.
abbrev pub page_size : ℕ
page_size = 100

module _ {F : Type 0} where
  abbrev pub conflicts : Series → Candle F → StoredCandle F → Bool
  conflicts series c row = same_series row.series series && row.candle.time == c.time

  -- insert … on conflict (…) do update set …, of one row
  unfoldable pub upsert_candle : Series → Candle F → List (StoredCandle F) → List (StoredCandle F)
  upsert_candle series c [] = record { series = series; candle = c } ∷ []
  upsert_candle series c (row ∷ rows) =
      let rest = upsert_candle series c rows in
      if conflicts series c row then record { series = series; candle = c } ∷ rows else row ∷ rest

  unfoldable pub upsert_all :
      Series → List (Candle F) → List (StoredCandle F) → List (StoredCandle F)
  upsert_all series [] rows = rows
  upsert_all series (c ∷ cs) rows = upsert_all series cs (upsert_candle series c rows)

  abbrev pub has_time : ℕ → List (Candle F) → Bool
  has_time t [] = false
  has_time t (c ∷ cs) = if c.time == t then true else has_time t cs

  -- Does one statement write a row twice?
  abbrev pub repeats : List (Candle F) → Bool
  repeats [] = false
  repeats (c ∷ cs) = if has_time c.time cs then true else repeats cs

  -- Does a statement write a row twice, of the pages that `fuel` is enough for?
  abbrev pub page_repeats : ℕ → List (Candle F) → Bool
  page_repeats zero cs = false
  page_repeats (suc fuel) cs =
      if repeats (take page_size cs) then true else page_repeats fuel (drop page_size cs)

  -- upsert_candles: how many are written, and the table after it, which an error leaves as it was. A
  -- page takes at least one candle, so their number is fuel enough.
  unfoldable pub upsert_candles :
      Series → List (Candle F) → List (StoredCandle F) → Result DbError ℕ × List (StoredCandle F)
  unfolding upsert_all upsert_candle
  upsert_candles series [] rows = (ok 0, rows)
  upsert_candles series (c ∷ cs) rows =
      if page_repeats (length (c ∷ cs)) (c ∷ cs)
      then (err cardinality_violation, rows)
      else (ok (length (c ∷ cs)), upsert_all series (c ∷ cs) rows)

  -- get_latest_timestamp_ms: max(timestamp), or none without a row
  unfoldable pub get_latest_timestamp_ms : Series → List (StoredCandle F) → Option ℕ
  get_latest_timestamp_ms series [] = none
  get_latest_timestamp_ms series (row ∷ rows) =
      let rest = get_latest_timestamp_ms series rows in
      if same_series row.series series then max_option rest row.candle.time else rest

  abbrev pub insert_in_time : Candle F → List (Candle F) → List (Candle F)
  insert_in_time c [] = c ∷ []
  insert_in_time c (d ∷ ds) = if ltb c.time d.time then c ∷ d ∷ ds else d ∷ insert_in_time c ds

  abbrev pub from_start : Option ℕ → Candle F → Bool
  from_start none c = true
  from_start (some t) c = leb t c.time

  abbrev pub to_end : Option ℕ → Candle F → Bool
  to_end none c = true
  to_end (some t) c = leb c.time t

  -- fetch_ohlcv_dataframe: the candles of a series within a range, in the order of time.
  unfoldable pub fetch_ohlcv_dataframe :
      Series → (start end : Option ℕ) → List (StoredCandle F) → List (Candle F)
  fetch_ohlcv_dataframe series start end [] = []
  fetch_ohlcv_dataframe series start end (row ∷ rows) =
      let rest = fetch_ohlcv_dataframe series start end rows in
      if same_series row.series series && from_start start row.candle && to_end end row.candle
      then insert_in_time row.candle rest
      else rest
