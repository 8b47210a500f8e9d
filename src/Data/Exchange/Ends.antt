-- ===== src/Data/Exchange/Ends.antt =====
-- Paging through an exchange that may answer anything, as long as it knows no candle of the future.
use freqpanda.Prelude.{
  ℕ, zero, suc, ◌+◌, ◌≤◌, ◌<◌, ◌≡◌, ◌≢◌, refl, Option, none, some, List, [], ◌∷◌, get_last?, arith,
  All,
}
use freqpanda.Data.Exchange.{
  Candle, Market, timeframe_ms, spent, Pages, page, round_of, pages_from, fetch_ohlcv_since,
}

module _ {F : Type 0} where
  -- No answer has a candle after `horizon`.
  abbrev pub IsPast : ℕ → Option (List (Candle F)) → Type 0
  IsPast horizon none = Unit
  IsPast horizon (some batch) = All (λ c. c.time ≤ horizon) batch

  last-le :
      (horizon : ℕ) (batch : List (Candle F)) (last : Candle F)
      → All (λ c. c.time ≤ horizon) batch
      → get_last? batch ≡ some last
      → last.time ≤ horizon
  last-le horizon [] last all e = cc
  last-le horizon (c ∷ []) last all e = grind arith
  last-le horizon (c ∷ d ∷ batch) last all e = last-le horizon (d ∷ batch) last all.1 e

  page-end :
      (limit step cursor : ℕ) (batch : List (Candle F)) (last : Option (Candle F))
      (more : ℕ → Pages F)
      → ((c : Candle F) → last ≡ some c → cursor < c.time + step → (more (c.time + step)).1 ≢ spent)
      → (page limit step cursor batch last more).1 ≢ spent
  page-end limit step cursor batch none more h = ground arith
  page-end limit step cursor batch (some c) more h = ground (arith, h c refl)

  round_of-end :
      (limit step cursor horizon : ℕ) (answer : Option (List (Candle F))) (more : ℕ → Pages F)
      → IsPast horizon answer
      → ((t : ℕ) → t ≤ horizon → cursor < t + step → (more (t + step)).1 ≢ spent)
      → (round_of limit step cursor answer more).1 ≢ spent
  round_of-end limit step cursor horizon none more past h = ground arith
  round_of-end limit step cursor horizon (some batch) more past h =
      page-end limit step cursor batch (get_last? batch) more
        (λ c e lt. h c.time (last-le horizon batch c past e) lt)

  pages_from-end :
      (market : Market F) (limit horizon fuel call cursor : ℕ)
      → ((i t n : ℕ) → IsPast horizon (market.fetch_ohlcv i t n))
      → horizon + timeframe_ms market < fuel + cursor
      → 0 < fuel
      → (pages_from market limit fuel call cursor).1 ≢ spent
  unfolding pages_from
  pages_from-end market limit horizon zero call cursor past h pos = absurd (omega arith)
  pages_from-end market limit horizon (suc fuel) call cursor past h pos =
      round_of-end limit (timeframe_ms market) cursor horizon (market.fetch_ohlcv call cursor limit)
        _ (past call cursor limit)
        (λ t le lt.
          pages_from-end market limit horizon fuel (suc call) (t + timeframe_ms market) past
            (omega arith) (omega arith))

  -- Whatever the exchange answers, short of candles after `horizon`, the generator returns or raises
  -- within a number of rounds that only depends on where it starts.
  pub fetch_ohlcv_since-end :
      (market : Market F) (limit horizon since_ms : ℕ)
      → ((i t n : ℕ) → IsPast horizon (market.fetch_ohlcv i t n))
      → (fetch_ohlcv_since market limit (suc (horizon + timeframe_ms market)) since_ms).1 ≢ spent
  unfolding fetch_ohlcv_since
  fetch_ohlcv_since-end market limit horizon since_ms past =
      pages_from-end market limit horizon (suc (horizon + timeframe_ms market)) 0 since_ms past
        (omega arith) (omega arith)
