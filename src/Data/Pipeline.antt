-- ===== src/Data/Pipeline.antt =====
-- freqpanda_data/pipeline.py
pub mod Stored
use Prim.Native.String.{◌++◌}
use freqpanda.Prelude.Dict.{put}
use freqpanda.Prelude.{
  ℕ, ◌+◌, String, Option, none, some, Bool, true, false, List, [], ◌∷◌, leb, if◌then◌else◌,
}
use freqpanda.Prelude.Result.{Result, ok, err}
use freqpanda.Data.Exchange.{
  Candle, Market, End, returned, raised, spent, Pages, timeframe_ms, default_page_limit,
  fetch_ohlcv_since, is_closed_candle,
}
use freqpanda.Data.Store.{Series, StoredCandle, DbError, upsert_candles, get_latest_timestamp_ms}

-- Why an update ended early.
pub data UpdateError : Type 0 where
  database : DbError → UpdateError
  exchange : UpdateError
  out_of_fuel : UpdateError

abbrev pub ended : ℕ → End → Result UpdateError ℕ
ended total returned = ok total
ended total raised = err exchange
ended total spent = err out_of_fuel

abbrev pub resume_at : ℕ → ℕ → Option ℕ → ℕ
resume_at step default_since_ms none = default_since_ms
resume_at step default_since_ms (some latest) = latest + step

module _ {F : Type 0} where
  abbrev pub closed_only : ℕ → (Candle F → ℕ) → List (Candle F) → List (Candle F)
  closed_only step clock [] = []
  closed_only step clock (c ∷ cs) =
      if is_closed_candle c step (clock c)
      then c ∷ closed_only step clock cs
      else closed_only step clock cs

  -- total_written += …, and the rest of the loop
  abbrev pub after_write :
      Result DbError ℕ × List (StoredCandle F)
      → (ℕ → List (StoredCandle F) → Result UpdateError ℕ × List (StoredCandle F))
      → Result UpdateError ℕ × List (StoredCandle F)
  after_write (ok n, rows) rest = rest n rows
  after_write (err e, rows) rest = (err (database e), rows)

  -- The loop over the pages: each is stored before the next is asked for, so what an exception leaves
  -- stored stays stored. `clock` is the exchange's at each candle.
  unfoldable pub store_pages :
      Series
      → ℕ
      → (Candle F → ℕ)
      → (total : ℕ) → List (List (Candle F))
      → End
      → List (StoredCandle F)
      → Result UpdateError ℕ × List (StoredCandle F)
  store_pages series step clock total [] end rows = (ended total end, rows)
  store_pages series step clock total (batch ∷ pages) end rows =
      after_write (upsert_candles series (closed_only step clock batch) rows)
        (λ n after. store_pages series step clock (total + n) pages end after)

  unfoldable pub update_symbol_timeframe :
      Market F
      → (fuel now_ms : ℕ) → (Candle F → ℕ)
      → Series
      → (default_since_ms : ℕ) → List (StoredCandle F)
      → Result UpdateError ℕ × List (StoredCandle F)
  unfolding store_pages
  update_symbol_timeframe market fuel now_ms clock series default_since_ms rows =
      let step = timeframe_ms market in
      let since_ms = resume_at step default_since_ms (get_latest_timestamp_ms series rows) in
      let (pages, end) = fetch_ohlcv_since market default_page_limit fuel since_ms in
      if leb now_ms since_ms then (ok 0, rows) else store_pages series step clock 0 pages end rows

-- The connection of a run: the table, and whether a failed statement has aborted its transaction,
-- which nothing rolls back, so that every later statement fails too.
pub record Session (F : Type 0) : Type 0 where
  pub rows : List (StoredCandle F)
  pub aborted : Bool

abbrev pub aborts : Result UpdateError ℕ → Bool
aborts (err (database e)) = true
aborts _ = false

-- None for a pair that failed
abbrev pub reported : Result UpdateError ℕ → Option ℕ
reported (ok n) = some n
reported (err e) = none

abbrev pub pair_key : Series → String
pair_key series = series.symbol ++ ":" ++ series.timeframe

module _ {F : Type 0} where
  -- One pair of the loop of run_pipeline, whose exception is caught.
  unfoldable pub update_pair :
      Market F → (fuel now_ms : ℕ) → (Candle F → ℕ) → Series → ℕ → Session F → Option ℕ × Session F
  unfolding update_symbol_timeframe
  update_pair market fuel now_ms clock series default_since_ms session =
      let (result, rows) =
        update_symbol_timeframe market fuel now_ms clock series default_since_ms session.rows in
      if session.aborted
      then (none, session)
      else (reported result, record { rows = rows; aborted = aborts result })

  -- run_pipeline, from the results so far; `market` is the exchange for a pair.
  unfoldable pub run_pipeline :
      (Series → Market F)
      → (fuel now_ms : ℕ) → (Candle F → ℕ)
      → ℕ
      → List Series
      → List (String × Option ℕ)
      → Session F
      → List (String × Option ℕ) × Session F
  unfolding update_pair
  run_pipeline market fuel now_ms clock default_since_ms [] results session = (results, session)
  run_pipeline market fuel now_ms clock default_since_ms (series ∷ pairs) results session =
      let (written, after) =
        update_pair (market series) fuel now_ms clock series default_since_ms session in
      run_pipeline market fuel now_ms clock default_since_ms pairs
        (put (pair_key series) written results) after
