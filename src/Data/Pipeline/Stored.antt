-- ===== src/Data/Pipeline/Stored.antt =====
-- What an update stores of an exchange that serves a fixed series.
use freqpanda.Prelude.{
  ℕ, zero, suc, ◌+◌, ◌<◌, ◌≡◌, refl, sym, ◌∙◌, ap, ap₂, false, none, List, [], ◌∷◌, ◌++◌, take,
  drop, length, length-append, leb, arith, if◌then◌else◌, Bool-cases, inl, inr,
}
use freqpanda.Prelude.Result.{ok}
use freqpanda.Strategy.Interpreter.{or_else}
use freqpanda.Data.Exchange.{
  Candle, Market, returned, timeframe_ms, default_page_limit, fetch_ohlcv_since, is_closed_candle,
}
use freqpanda.Data.Exchange.Complete.{
  since, since-IsSpaced, IsSpaced, Serves, concat, fetch_ohlcv_since-all,
}
use freqpanda.Data.Store.{
  Series, StoredCandle, same_series, upsert_all, upsert_candles, get_latest_timestamp_ms, has_time,
  repeats, page_repeats, page_size,
}
use freqpanda.Data.Store.Latest.{stored, newest, stored-upsert_all}
use freqpanda.Data.Pipeline.{
  closed_only, after_write, store_pages, resume_at, update_symbol_timeframe,
}
use freqpanda.Execution.Feed.Delivery.{InTime, InTime-weaken, InTime-drop}

module _ {F : Type 0} where
  InTime-take : (n b : ℕ) (cs : List (Candle F)) → InTime b cs → InTime b (take n cs)
  InTime-take zero b cs t = tt
  InTime-take (suc n) b [] t = tt
  InTime-take (suc n) b (c ∷ cs) t = (t.0, InTime-take n (suc c.time) cs t.1)

  InTime-split : (b : ℕ) (xs ys : List (Candle F)) → InTime b (xs ++ ys) → InTime b xs × InTime 0 ys
  InTime-split b [] ys t = (tt, InTime-weaken 0 b ys (omega arith) t)
  InTime-split b (x ∷ xs) ys t =
      let (tx, ty) = InTime-split (suc x.time) xs ys t.1 in ((t.0, tx), ty)

  InTime-closed :
      (step : ℕ) (clock : Candle F → ℕ) (b : ℕ) (cs : List (Candle F))
      → InTime b cs
      → InTime b (closed_only step clock cs)
  InTime-closed step clock b [] t = tt
  InTime-closed step clock b (c ∷ cs) t =
      let rest = InTime-closed step clock (suc c.time) cs t.1 in
      elim (Bool-cases (is_closed_candle c step (clock c))) [
        | inl e ↦ rw e (t.0, rest)
        | inr e ↦
            rw e
              (InTime-weaken b (suc c.time) (closed_only step clock cs) (omega (arith, t.0)) rest)
      ]

  IsSpaced-InTime :
      (step b : ℕ) (cs : List (Candle F)) → 0 < step → IsSpaced step b cs → InTime b cs
  IsSpaced-InTime step b [] pos s = tt
  IsSpaced-InTime step b (c ∷ cs) pos s = (
    s.0,
    InTime-weaken (suc c.time) (c.time + step) cs (omega arith)
        (IsSpaced-InTime step (c.time + step) cs pos s.1),
  )

  has_time-InTime : (t b : ℕ) (cs : List (Candle F)) → t < b → InTime b cs → has_time t cs ≡ false
  has_time-InTime t b [] h s = refl
  has_time-InTime t b (c ∷ cs) h s =
      ground (arith, s.0, has_time-InTime t (suc c.time) cs (omega (arith, s.0)) s.1)

  repeats-InTime : (b : ℕ) (cs : List (Candle F)) → InTime b cs → repeats cs ≡ false
  repeats-InTime b [] s = refl
  repeats-InTime b (c ∷ cs) s =
      rw (has_time-InTime c.time (suc c.time) cs (omega arith) s.1)
        (repeats-InTime (suc c.time) cs s.1)

  page_repeats-InTime :
      (fuel b : ℕ) (cs : List (Candle F)) → InTime b cs → page_repeats fuel cs ≡ false
  page_repeats-InTime zero b cs s = refl
  page_repeats-InTime (suc fuel) b cs s =
      rw (repeats-InTime b (take page_size cs) (InTime-take page_size b cs s))
        (page_repeats-InTime fuel b (drop page_size cs) (InTime-drop page_size b cs s))

  -- Candles in the order of time are all written.
  upsert_candles-InTime :
      (series : Series) (b : ℕ) (cs : List (Candle F)) (rows : List (StoredCandle F))
      → InTime b cs
      → upsert_candles series cs rows ≡ (ok (length cs), upsert_all series cs rows)
  unfolding upsert_candles upsert_all
  upsert_candles-InTime series b [] rows s = refl
  upsert_candles-InTime series b (c ∷ cs) rows s =
      rw (page_repeats-InTime (length (c ∷ cs)) b (c ∷ cs) s) refl

  closed-append :
      (step : ℕ) (clock : Candle F → ℕ) (xs ys : List (Candle F))
      → closed_only step clock (xs ++ ys) ≡ closed_only step clock xs ++ closed_only step clock ys
  closed-append step clock [] ys = refl
  closed-append step clock (x ∷ xs) ys = ground (arith, closed-append step clock xs ys)

  upsert_all-append :
      (series : Series) (xs ys : List (Candle F)) (rows : List (StoredCandle F))
      → upsert_all series (xs ++ ys) rows ≡ upsert_all series ys (upsert_all series xs rows)
  unfolding upsert_all
  upsert_all-append series [] ys rows = refl
  upsert_all-append series (x ∷ xs) ys rows = upsert_all-append series xs ys _

  store_pages-all :
      (series : Series) (step : ℕ) (clock : Candle F → ℕ) (pages : List (List (Candle F)))
      (total : ℕ) (rows : List (StoredCandle F))
      → InTime 0 (concat pages)
      → let closed = closed_only step clock (concat pages) in
        store_pages series step clock total pages returned rows
        ≡ (ok (total + length closed), upsert_all series closed rows)
  unfolding store_pages upsert_all
  store_pages-all series step clock [] total rows s = ap (λ n. (ok n, rows)) (omega arith)
  store_pages-all series step clock (page ∷ pages) total rows s =
      let (here, later) = InTime-split 0 page (concat pages) s in
      let closed = closed_only step clock page in
      let after = upsert_all series closed rows in
      let written =
        upsert_candles-InTime series 0 closed rows (InTime-closed step clock 0 page here) in
      ap
        (λ w.
          after_write w (λ n rest. store_pages series step clock (total + n) pages returned rest))
        written
      ∙ rw (closed-append step clock page (concat pages)) (
          store_pages-all series step clock pages (total + length closed) after later
          ∙ ap₂ (λ n r. (ok n, r))
              (omega (arith, length-append closed (closed_only step clock (concat pages))))
              (sym (upsert_all-append series closed (closed_only step clock (concat pages)) rows)))

  module _ (market : Market F) (candles : List (Candle F)) (serves : Serves market candles)
      (spaced : IsSpaced (timeframe_ms market) 0 candles) (advances : 0 < timeframe_ms market) where
    -- Where an update goes on, by what is stored.
    abbrev pub resumes : Series → ℕ → List (StoredCandle F) → ℕ
    resumes series default_since_ms rows =
        resume_at (timeframe_ms market) default_since_ms (get_latest_timestamp_ms series rows)

    -- An update from an exchange that serves a fixed series writes every candle of it that has closed,
    -- from where it resumes on, and reports their number. At each time the table then has the
    -- candle that was written, and else what it had; other series stay as they are. The resumption
    -- is to be in the past, and the candles at least a timeframe apart.
    pub update_symbol_timeframe-stored :
        (fuel now_ms : ℕ) (clock : Candle F → ℕ) (series other : Series) (t default_since_ms : ℕ)
        (rows : List (StoredCandle F))
        → resumes series default_since_ms rows < now_ms
        → length (since (resumes series default_since_ms rows) candles) < fuel
        → let result =
            update_symbol_timeframe market fuel now_ms clock series default_since_ms rows in
          let closed =
            closed_only
              (timeframe_ms market)
              clock
              (since (resumes series default_since_ms rows) candles) in
          (result.0 ≡ ok (length closed))
          × (stored other t result.1
              ≡ or_else
                  (if same_series series other then newest t closed else none)
                  (stored other t rows))
    unfolding update_symbol_timeframe
    update_symbol_timeframe-stored fuel now_ms clock series other t default_since_ms rows past
          enough =
        let since_ms = resumes series default_since_ms rows in
        let step = timeframe_ms market in
        let (all, end) =
          fetch_ohlcv_since-all market candles serves spaced default_page_limit (omega arith)
            advances fuel since_ms enough in
        let pages = (fetch_ohlcv_since market default_page_limit fuel since_ms).0 in
        let in_time =
          IsSpaced-InTime step since_ms (since since_ms candles) advances
            (since-IsSpaced step 0 since_ms candles spaced) in
        let ran =
          store_pages-all series step clock pages 0 rows
            (rw all (InTime-weaken 0 since_ms (since since_ms candles) (omega arith) in_time)) in
        let late : leb now_ms since_ms ≡ false = ground arith in
        rw (late, end, ran, all)
          (
            ap ok (omega arith),
            stored-upsert_all series other t (closed_only step clock (since since_ms candles)) rows,
          )
