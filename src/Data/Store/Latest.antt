-- ===== src/Data/Store/Latest.antt =====
-- What is stored of a series.
use freqpanda.Prelude.{
  ℕ, ◌≤◌, ◌≡◌, refl, ◌∙◌, ap, Bool, true, false, ◌&&◌, Option, none, some, List, [], ◌∷◌, ltb, ◌==◌,
  eq_iff, arith, if◌then◌else◌, ltb→lt, ltb→le, length, Bool-cases, inl, inr, All, Any, ◌⊎◌, ◌↔◌,
  sym,
}
use freqpanda.Prelude.Result.{Result, ok, err}
use freqpanda.Strategy.Interpreter.{or_else}
use freqpanda.Data.Exchange.{Candle}
use freqpanda.Data.Store.{
  Series, StoredCandle, same_series, upsert_candle, upsert_all, upsert_candles, insert_in_time,
  fetch_ohlcv_dataframe, from_start, to_end, page_repeats,
}

same_series-eq : (a b : Series) → same_series a b ≡ true → a ≡ b
unfolding same_series
same_series-eq a b e =
    ground (
      arith,
      eq_iff a.exchange b.exchange,
      eq_iff a.symbol b.symbol,
      eq_iff a.timeframe b.timeframe,
    )

same_series_refl : (a : Series) → same_series a a ≡ true
unfolding same_series
same_series_refl a =
    ground (
      arith,
      eq_iff a.exchange a.exchange,
      eq_iff a.symbol a.symbol,
      eq_iff a.timeframe a.timeframe,
    )

-- Two series that differ are not both a third.
same_series-apart :
    (a b c : Series) → same_series a b ≡ false → (same_series b c && same_series a c) ≡ false
same_series-apart a b c e = elim (Bool-cases (same_series b c)) [
  | inr h ↦ ground arith
  | inl h ↦ let same = ap (same_series a) (same_series-eq b c h) in ground arith
]

unless_err :
    {E D : Type 0} (b : Bool) (x : E) (m : ℕ) (before after : D) (n : ℕ)
    → let r : Result E ℕ × D = if b then (err x, before) else (ok m, after) in
      r.0 ≡ ok n → (n ≡ m) × (r.1 ≡ after)
unless_err true x m before after n e = cc
unless_err false x m before after n e = (cc, refl)

module _ {F : Type 0} where
  -- The candle that is stored of a series at a time.
  pub stored : Series → ℕ → List (StoredCandle F) → Option (Candle F)
  stored series t [] = none
  stored series t (row ∷ rows) =
      let rest = stored series t rows in
      if same_series row.series series && row.candle.time == t then some row.candle else rest

  stored-upsert_candle :
      (series other : Series) (c : Candle F) (t : ℕ) (rows : List (StoredCandle F))
      → stored other t (upsert_candle series c rows)
        ≡ (if same_series series other && c.time == t then some c else stored other t rows)
  unfolding upsert_candle stored
  stored-upsert_candle series other c t [] = refl
  stored-upsert_candle series other c t (row ∷ rows) =
      elim (Bool-cases (same_series row.series series)) [
        | inr e ↦ ground (
          arith,
          same_series-apart row.series series other e,
          stored-upsert_candle series other c t rows,
        )
        | inl e ↦ ground (
          arith,
          ap (λ s. same_series s other) (same_series-eq row.series series e),
          stored-upsert_candle series other c t rows,
        )
      ]

  -- The candle of a time that is last in a list.
  pub newest : ℕ → List (Candle F) → Option (Candle F)
  newest t [] = none
  newest t (c ∷ cs) = or_else (newest t cs) (if c.time == t then some c else none)

  pub stored-upsert_all :
      (series other : Series) (t : ℕ) (cs : List (Candle F)) (rows : List (StoredCandle F))
      → stored other t (upsert_all series cs rows)
        ≡ or_else (if same_series series other then newest t cs else none) (stored other t rows)
  unfolding upsert_all newest
  stored-upsert_all series other t [] rows = ground arith
  stored-upsert_all series other t (c ∷ cs) rows = ground (
    arith,
    stored-upsert_all series other t cs (upsert_candle series c rows),
    stored-upsert_candle series other c t rows,
  )

  -- After an upsert that reports a count, the candle of the series at a time is the one of the batch,
  -- if the batch has that time, and else the one from before; no other series has changed.
  pub upsert_candles-stored :
      (series other : Series) (t n : ℕ) (cs : List (Candle F)) (rows : List (StoredCandle F))
      → (upsert_candles series cs rows).0 ≡ ok n
      → (n ≡ length cs)
        × (stored other t (upsert_candles series cs rows).1
            ≡ or_else
                (if same_series series other then newest t cs else none)
                (stored other t rows))
  unfolding upsert_candles newest
  upsert_candles-stored series other t n [] rows e = (cc, ground arith)
  upsert_candles-stored series other t n (c ∷ cs) rows e =
      let (counted, after) = unless_err (page_repeats (length (c ∷ cs)) (c ∷ cs)) _ _ _ _ n e in
      (counted, ap (stored other t) after ∙ stored-upsert_all series other t (c ∷ cs) rows)

  -- In the order of time.
  abbrev pub InOrder : List (Candle F) → Type 0
  InOrder [] = Unit
  InOrder (c ∷ cs) = All (λ d. c.time ≤ d.time) cs × InOrder cs

  le-insert :
      (b : ℕ) (c : Candle F) (cs : List (Candle F))
      → b ≤ c.time
      → All (λ d. b ≤ d.time) cs
      → All (λ d. b ≤ d.time) (insert_in_time c cs)
  le-insert b c [] h all = (h, tt)
  le-insert b c (d ∷ ds) h all = elim (Bool-cases (ltb c.time d.time)) [
    | inl e ↦ rw e (h, all)
    | inr e ↦ rw e (all.0, le-insert b c ds h all.1)
  ]

  le-weaken :
      (a b : ℕ) (cs : List (Candle F)) → a ≤ b → All (λ d. b ≤ d.time) cs → All (λ d. a ≤ d.time) cs
  le-weaken a b [] h all = tt
  le-weaken a b (c ∷ cs) h all = (omega (arith, all.0), le-weaken a b cs h all.1)

  insert-InOrder :
      (c : Candle F) (cs : List (Candle F)) → InOrder cs → InOrder (insert_in_time c cs)
  insert-InOrder c [] h = (tt, tt)
  insert-InOrder c (d ∷ ds) h = elim (Bool-cases (ltb c.time d.time)) [
    | inl e ↦
        let below = ltb→lt c.time d.time e in
        rw e ((omega arith, le-weaken c.time d.time ds (omega arith) h.0), h)
    | inr e ↦ rw e (le-insert d.time c ds (ltb→le c.time d.time e) h.0, insert-InOrder c ds h.1)
  ]

  -- A row of the series, from the start on and up to the end, where these are given.
  abbrev pub IsWithin : Series → Option ℕ → Option ℕ → StoredCandle F → Type 0
  IsWithin series start end row =
      (row.series ≡ series)
      × ((t : ℕ) → start ≡ some t → t ≤ row.candle.time)
      × ((t : ℕ) → end ≡ some t → row.candle.time ≤ t)

  -- The rows that are asked for, and their candles alone.
  abbrev pub IsRead : Series → Option ℕ → Option ℕ → Candle F → StoredCandle F → Type 0
  IsRead series start end c row = IsWithin series start end row × (row.candle ≡ c)

  from_start_lem :
      (start : Option ℕ) (c : Candle F)
      → from_start start c ≡ true ↔ ((t : ℕ) → start ≡ some t → t ≤ c.time)
  from_start_lem none c = (λ e t f. cc, λ h. refl)
  from_start_lem (some u) c = (λ e t f. ground (arith, e, f), λ h. ground (arith, h u refl))

  to_end_lem :
      (end : Option ℕ) (c : Candle F) → to_end end c ≡ true ↔ ((t : ℕ) → end ≡ some t → c.time ≤ t)
  to_end_lem none c = (λ e t f. cc, λ h. refl)
  to_end_lem (some u) c = (λ e t f. ground (arith, e, f), λ h. ground (arith, h u refl))

  -- The filter of the query, and what it asks for.
  asked-IsWithin :
      (series : Series) (start end : Option ℕ) (row : StoredCandle F)
      → (same_series row.series series && from_start start row.candle && to_end end row.candle)
          ≡ true
        ↔ IsWithin series start end row
  asked-IsWithin series start end row = (
    λ e. (
      same_series-eq row.series series (ground (arith, e)),
      (from_start_lem start row.candle).0 (ground (arith, e)),
      (to_end_lem end row.candle).0 (ground (arith, e)),
    ),
    λ h.
        let same : same_series row.series series ≡ true =
          ap (same_series row.series) (sym h.0) ∙ same_series_refl row.series in
        ground
          (arith, same, (from_start_lem start row.candle).1 h.1, (to_end_lem end row.candle).1 h.2),
  )

  insert-Any :
      (P : Candle F → Type 0) (c : Candle F) (cs : List (Candle F))
      → Any P (insert_in_time c cs) ↔ (P c ⊎ Any P cs)
  insert-Any P c [] = (λ h. h, λ h. h)
  insert-Any P c (d ∷ ds) = elim (Bool-cases (ltb c.time d.time)) [
    | inl e ↦ rw e (λ h. h, λ h. h)
    | inr e ↦
        let (to, from) = insert-Any P c ds in
        rw e (
          λ h. elim h [
            | inl at ↦ inr (inl at)
            | inr later ↦ elim (to later) [ inl new ↦ inl new | inr old ↦ inr (inr old) ]
          ],
          λ h. elim h [
            | inl new ↦ inr (from (inl new))
            | inr old ↦ elim old [ inl at ↦ inl at | inr later ↦ inr (from (inr later)) ]
          ],
        )
  ]

  reads :
      (series : Series) (start end : Option ℕ) (rows : List (StoredCandle F)) (c : Candle F)
      → Any (λ d. d ≡ c) (fetch_ohlcv_dataframe series start end rows)
        ↔ Any (IsRead series start end c) rows
  unfolding fetch_ohlcv_dataframe
  reads series start end [] c = (λ h. h, λ h. h)
  reads series start end (row ∷ rows) c =
      let (to, from) = reads series start end rows c in
      let cs = fetch_ohlcv_dataframe series start end rows in
      let (out, back) = insert-Any (λ d. d ≡ c) row.candle cs in
      let (asked, asks) = asked-IsWithin series start end row in
      elim (Bool-cases
        (same_series row.series series && from_start start row.candle && to_end end row.candle)) [
          | inl e ↦ rw e (
            λ h. elim (out h) [ inl same ↦ inl (asked e, same) | inr old ↦ inr (to old) ],
            λ h. elim h [ inl here ↦ back (inl here.1) | inr later ↦ back (inr (from later)) ],
          )
          | inr e ↦ rw e (
            λ h. inr (to h),
            λ h. elim h [
              | inl here ↦ absurd (ground (arith, e, asks here.0))
              | inr later ↦ from later
            ],
          )
        ]

  fetched-InOrder :
      (series : Series) (start end : Option ℕ) (rows : List (StoredCandle F))
      → InOrder (fetch_ohlcv_dataframe series start end rows)
  unfolding fetch_ohlcv_dataframe
  fetched-InOrder series start end [] = tt
  fetched-InOrder series start end (row ∷ rows) =
      let rest = fetched-InOrder series start end rows in
      elim (Bool-cases
        (same_series row.series series && from_start start row.candle && to_end end row.candle)) [
          | inl e ↦
              rw e (insert-InOrder row.candle (fetch_ohlcv_dataframe series start end rows) rest)
          | inr e ↦ rw e rest
        ]

  -- A DataFrame is in the order of time, whatever the order its rows were stored in; and a candle is in
  -- it exactly where a row of the series has it, from the start on and up to the end, where these are
  -- given.
  pub fetch_ohlcv_dataframe-InOrder :
      (series : Series) (start end : Option ℕ) (rows : List (StoredCandle F))
      → let fetched = fetch_ohlcv_dataframe series start end rows in
        InOrder fetched
        × ((c : Candle F) → Any (λ d. d ≡ c) fetched ↔ Any (IsRead series start end c) rows)
  fetch_ohlcv_dataframe-InOrder series start end rows =
      (fetched-InOrder series start end rows, reads series start end rows)
