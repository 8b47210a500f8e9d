-- ===== src/Execution/Feed.antt =====
-- freqpanda_execution/feed.py. The history is a list of candles, oldest first; the callback gets each
-- history of the list that a round gives. Which of the two loops runs is the exchange's `has` table.
pub mod Delivery
use freqpanda.Prelude.{
  ℕ, zero, suc, ◌+◌, ◌-◌, ◌*◌, ◌==◌, Bool, false, Option, none, some, List, [], ◌∷◌, ◌++◌, map,
  drop, length, get_last?, leb, ltb, if◌then◌else◌,
}
use freqpanda.Prelude.Result.{Result, ok, err}
use freqpanda.Strategy.Indicators.{Frame}
use freqpanda.Data.Exchange.{
  Candle, Market, End, Pages, fetch_ohlcv_since, is_closed_candle, default_page_limit, timeframe_ms,
}
use freqpanda.Execution.Risk.{BotError, value_error}

-- RealtimeFeed, with the attributes that the loops use.
pub record Feed (F : Type 0) : Type 0 where
  pub history : List (Candle F)
  pub max_history : ℕ

-- history.iloc[-n:], which is everything for n = 0
abbrev pub last_rows {ℓ} : {A : Type ℓ} → ℕ → List A → List A
last_rows zero xs = xs
last_rows (suc n) xs = drop (length xs - suc n) xs

-- RealtimeFeed.__init__
unfoldable pub new_feed : {F : Type 0} → List (Candle F) → ℕ → Result BotError (Feed F)
new_feed [] max_history = err value_error
new_feed (c ∷ cs) max_history =
    ok (record { history = last_rows max_history (c ∷ cs); max_history = max_history })

abbrev pub is_stale : {F : Type 0} → Candle F → Option (Candle F) → Bool
is_stale candle none = false
is_stale candle (some last) = leb candle.time last.time

-- RealtimeFeed._append_candle: the new history if the candle is new, and the feed after it.
unfoldable pub append_candle : {F : Type 0} → Candle F → Feed F → Option (List (Candle F)) × Feed F
append_candle candle feed =
    let appended = last_rows feed.max_history (feed.history ++ (candle ∷ [])) in
    if is_stale candle (get_last? feed.history)
    then (none, feed)
    else (some appended, record feed { history = appended })

abbrev pub called_back {ℓ} : {A : Type ℓ} → Option A → List A → List A
called_back none rest = rest
called_back (some history) rest = history ∷ rest

-- The loop over the candles of a batch, which both ways of running share: each candle with the
-- exchange's clock when it is looked at. The histories that the callback gets, and the feed.
unfoldable pub deliver :
    {F : Type 0} → ℕ → List (Candle F × ℕ) → Feed F → List (List (Candle F)) × Feed F
deliver step [] feed = ([], feed)
deliver step ((candle, now_ms) ∷ rest) feed =
    let (history, appended) = append_candle candle feed in
    let skipped = deliver step rest feed in
    let (histories, after) = deliver step rest appended in
    if is_closed_candle candle step now_ms then (called_back history histories, after) else skipped

-- One wake-up of the websocket: its candles, and the clock after them.
unfoldable pub on_watch :
    {F : Type 0} → ℕ → List (Candle F) → ℕ → Feed F → List (List (Candle F)) × Feed F
on_watch step candles now_ms = deliver step (map (λ c. (c, now_ms)) candles)

abbrev pub all_pages {ℓ} : {A : Type ℓ} → List (List A) → List A
all_pages [] = []
all_pages (page ∷ rest) = page ++ all_pages rest

-- One round of the polling loop at the time `now_ms`, from the last candle of the history; `clock` is
-- the exchange's at each candle. An end that is raised is the caller's: it ends the loop.
abbrev pub poll_from :
    {F : Type 0}
    → Market F
    → (fuel now_ms : ℕ) → (Candle F → ℕ)
    → Option (Candle F)
    → Feed F
    → End × (List (List (Candle F)) × Feed F)
poll_from market fuel now_ms clock none feed = (End.raised, ([], feed))
poll_from market fuel now_ms clock (some last) feed =
    let step = timeframe_ms market in
    let since_ms = last.time + step in
    let (pages, end) = fetch_ohlcv_since market default_page_limit fuel since_ms in
    if ltb since_ms now_ms
    then (end, deliver step (map (λ c. (c, clock c)) (all_pages pages)) feed)
    else (End.returned, ([], feed))

unfoldable pub poll :
    {F : Type 0}
    → Market F
    → (fuel now_ms : ℕ) → (Candle F → ℕ)
    → Feed F
    → End × (List (List (Candle F)) × Feed F)
poll market fuel now_ms clock feed =
    poll_from market fuel now_ms clock (get_last? feed.history) feed

-- The rows of a history as the DataFrame that the callback gets.
unfoldable pub frame_of : {F : Type 0} → List (Candle F) → Frame F
frame_of history = record {
  index = map (λ c. c.time) history;
  columns =
      ("open", map (λ c. c.open_price) history)
      ∷ ("high", map (λ c. c.high) history)
      ∷ ("low", map (λ c. c.low) history)
      ∷ ("close", map (λ c. c.close) history)
      ∷ ("volume", map (λ c. c.volume) history)
      ∷ [];
}
