-- ===== src/Backtest/Metrics/Drawdown.antt =====
-- The drawdown of an equity curve: where it starts, how deep it is, and when it is recovered.
use freqpanda.Prelude.{
  ℕ, ◌-◌, ◌≤◌, ◌<◌, ◌≡◌, refl, sym, ◌∙◌, ap, ◌⊎◌, true, false, leb, leb→le, le→leb, Option, none,
  some, [], ◌∷◌, IsRising, arith, inl, inr,
}
use freqpanda.Prelude.Result.{ok}
use freqpanda.Prelude.Float.{Float, IsOrdered, is_nan}
use freqpanda.Backtest.Metrics.{
  Series, Numpy, DrawdownInfo, select, loc, first, extreme, drawdowns, fall, up_to, from,
  compute_drawdown, recovery_of, idxmax, idxmin, last_time,
}
use freqpanda.Backtest.Metrics.Series.{
  Has, index_of, Has-ge, loc-Has, Has-loc, Has-select, select-Has, before_first, select-IsRising,
  select-eq-nil,
}
use freqpanda.Backtest.Metrics.Extreme.{extreme-first, lt-Picks, gt-Picks}
use freqpanda.Backtest.Metrics.Falls.{
  highest_to, AllNumbers, extreme-tops, extreme-some, index_of-drawdowns, drawdowns_first,
  all-drawdowns-Has, all-Has-drawdowns,
}

module _ {F : Type 0} ⦃fl : Float F⦄ where
  open fl use {lt, le}

  -- The peak of the curve up to a time: its time and its value.
  record Peak (t : ℕ) (v : F) (rest : Series F) (trough peak : ℕ) (high : F) : Type 0 where
    time_of : idxmax (up_to trough ((t, v) ∷ rest)) ≡ ok peak
    value_of : loc ((t, v) ∷ rest) peak ≡ ok high
    before : peak ≤ trough
    is_number : is_nan high ≡ false
    is_top : high ≡ highest_to v rest trough
    is_highest : (u : ℕ) (x : F) → loc ((t, v) ∷ rest) u ≡ ok x → u ≤ trough → lt high x ≡ false

  up_to-Peak :
      (ordered : IsOrdered F) (t : ℕ) (v : F) (rest : Series F) (trough : ℕ)
      → IsRising t (index_of ((t, v) ∷ rest))
      → is_nan v ≡ false
      → t ≤ trough
      → (peak : ℕ) × (high : F) × Peak t v rest trough peak high
  unfolding extreme highest_to
  up_to-Peak ordered t v rest trough rising number within =
      let e : leb t trough ≡ true = ground arith in
      let (peak, high, ran, is_number, found, highest) =
        extreme-first (λ x w. lt w x) (gt-Picks ordered) t v (up_to trough rest) number in
      let whole : up_to trough ((t, v) ∷ rest) ≡ (t, v) ∷ up_to trough rest = rw e refl in
      let (old, small) = Has-select (λ e. leb e.0 trough) ((t, v) ∷ rest) peak high (rw e found) in
      (
        peak,
        high,
        record {
          time_of = rw (whole, ran) refl;
          value_of = Has-loc t ((t, v) ∷ rest) peak high rising old;
          before = leb→le peak trough small;
          is_number = is_number;
          is_top =
              extreme-tops (up_to trough rest) t peak v high
                (extreme-some _ t v (up_to trough rest) number ∙ ran);
          is_highest = λ u x at_u h. highest u x (
              rw whole at (
                select-Has (λ e. leb e.0 trough) ((t, v) ∷ rest) u x (le→leb u trough h)
                  (loc-Has ((t, v) ∷ rest) u x at_u)));
        },
      )

  -- The candle on which the peak is reached again, if any.
  abbrev pub Recovers : ℕ → F → Series F → ℕ → F → ℕ → Option ℕ × ℕ → Type 0
  Recovers t v rest trough high peak (recovery_time, duration) =
      ((recovery_time ≡ none)
        × (duration ≡ last_time t rest - peak)
        × ((u : ℕ) (x : F) → loc ((t, v) ∷ rest) u ≡ ok x → trough ≤ u → le high x ≡ false))
      ⊎ ((r : ℕ) × (y : F) × (recovery_time ≡ some r)
          × (duration ≡ r - peak)
          × (loc ((t, v) ∷ rest) r ≡ ok y)
          × (trough ≤ r)
          × (le high y ≡ true)
          × ((u : ℕ) (x : F)
              → loc ((t, v) ∷ rest) u ≡ ok x
              → trough ≤ u
              → u < r
              → le high x ≡ false))

  -- What the drawdown of a curve is, for the trough at `trough` with the value `low`, and the peak
  -- before it at `peak` with the value `high`.
  pub record IsDrawdown (np : Numpy F) (t : ℕ) (v : F) (rest : Series F) (info : DrawdownInfo F)
      (trough : ℕ) (low : F) (peak : ℕ) (high : F) : Type 0 where
    pub trough_time : info.trough_time ≡ some trough
    pub peak_time : info.peak_time ≡ some peak
    pub at_trough : loc ((t, v) ∷ rest) trough ≡ ok low
    pub at_peak : loc ((t, v) ∷ rest) peak ≡ ok high
    pub peak_before : peak ≤ trough
    pub peak_highest :
        (u : ℕ) (x : F) → loc ((t, v) ∷ rest) u ≡ ok x → u ≤ trough → lt high x ≡ false
    pub depth : info.max_drawdown_pct ≡ np.negate (fall low high)
    pub deepest :
        (u : ℕ) (x : F)
        → loc ((t, v) ∷ rest) u ≡ ok x
        → lt (fall x (highest_to v rest u)) (fall low high) ≡ false
    pub recovery : Recovers t v rest trough high peak (info.recovery_time, info.duration)

  Series-cases :
      (s : Series F) → (s ≡ []) ⊎ ((r : ℕ) × (y : F) × (more : Series F) × (s ≡ (r, y) ∷ more))
  Series-cases [] = inl refl
  Series-cases ((r, y) ∷ more) = inr (r, y, more, refl)

  recovery_of-Recovers :
      (t : ℕ) (v : F) (rest : Series F) (trough : ℕ) (high : F) (peak : ℕ)
      → IsRising t (index_of ((t, v) ∷ rest))
      → Recovers t v rest trough high peak (
          recovery_of peak
            (last_time t rest)
            (select (λ e. le high e.1) (from trough ((t, v) ∷ rest))))
  recovery_of-Recovers t v rest trough high peak rising =
      let equity = (t, v) ∷ rest in
      let after = from trough equity in
      let in_after : (u : ℕ) (x : F) → loc equity u ≡ ok x → trough ≤ u → Has after u x =
        λ u x at_u h.
          select-Has (λ e. leb trough e.0) equity u x (le→leb trough u h)
            (loc-Has equity u x at_u) in
      elim (Series-cases (select (λ e. le high e.1) after)) [
        | inl e ↦ rw e (
            inl (
              refl,
              refl,
              λ u x at_u h. select-eq-nil (λ e. le high e.1) after e u x (in_after u x at_u h),
            ))
        | inr (r, y, more, e) ↦
            let (kept, reached) =
              Has-select (λ e. le high e.1) after r y (rw e (inl (refl, refl))) in
            let (found, late) = Has-select (λ e. leb trough e.0) equity r y kept in
            rw e (
              inr (
                r,
                y,
                refl,
                refl,
                Has-loc t equity r y rising found,
                leb→le trough r late,
                reached,
                λ u x at_u h soon.
                    before_first t (λ e. le high e.1) after r y
                      (select-IsRising t (λ e. leb trough e.0) equity rising) (ap first e) u x
                      (in_after u x at_u h) soon,
              ))
      ]

  -- What `compute_drawdown` answers, from the answers of its calls.
  info_of : Numpy F → ℕ → F → Series F → ℕ → F → ℕ → F → DrawdownInfo F
  info_of np t v rest trough lowest peak high =
      let recovered = select (λ e. le high e.1) (from trough ((t, v) ∷ rest)) in
      let (recovery_time, duration) = recovery_of peak (last_time t rest) recovered in
      record {
        max_drawdown_pct = np.negate lowest;
        peak_time = some peak;
        trough_time = some trough;
        recovery_time = recovery_time;
        duration = duration;
      }

  compute_drawdown-ok :
      (np : Numpy F) (t : ℕ) (v : F) (rest : Series F) (trough : ℕ) (lowest : F) (peak : ℕ)
      (high : F)
      → idxmin (drawdowns none ((t, v) ∷ rest)) ≡ ok trough
      → loc (drawdowns none ((t, v) ∷ rest)) trough ≡ ok lowest
      → idxmax (up_to trough ((t, v) ∷ rest)) ≡ ok peak
      → loc ((t, v) ∷ rest) peak ≡ ok high
      → compute_drawdown np ((t, v) ∷ rest) ≡ ok (info_of np t v rest trough lowest peak high)
  unfolding compute_drawdown info_of
  compute_drawdown-ok np t v rest trough lowest peak high a b c d = rw (a, b, c, d) refl

  -- A curve of numbers over rising timestamps whose first drawdown is a number has a drawdown: its
  -- peak is the highest value up to the trough, its depth is the fall from that peak to the trough,
  -- no candle has fallen deeper below the highest value before it, and it is recovered on the first
  -- candle from the trough on that is at the peak again, if there is one. The duration is the time
  -- from the peak to that candle, or else to the last one.
  pub compute_drawdown_lem :
      (np : Numpy F) (t : ℕ) (v : F) (rest : Series F)
      → IsOrdered F
      → IsRising t (index_of ((t, v) ∷ rest))
      → AllNumbers ((t, v) ∷ rest)
      → is_nan (fall v v) ≡ false
      → (info : DrawdownInfo F) × (compute_drawdown np ((t, v) ∷ rest) ≡ ok info)
        × ((trough : ℕ) × (low : F) × (peak : ℕ) × (high : F) × IsDrawdown np t v rest info trough
              low peak high)
  unfolding info_of
  compute_drawdown_lem np t v rest ordered rising numbers first_fall =
      let equity = (t, v) ∷ rest in
      let falls = (t, fall v v) ∷ drawdowns (some v) rest in
      let (trough, lowest, ran, lowest_number, in_falls, all) =
        extreme-first lt (lt-Picks ordered) t (fall v v) (drawdowns (some v) rest) first_fall in
      let (low, in_equity, fell) =
        all-Has-drawdowns t v rest trough lowest rising numbers in_falls in
      let within = Has-ge t equity trough low rising in_equity in
      let (peak, high, p) = up_to-Peak ordered t v rest trough rising numbers.0 within in
      let rising' : IsRising t (index_of falls) =
        (rising.0, rw (index_of-drawdowns rest (some v)) rising.1) in
      let deep = fell ∙ ap (fall low) (sym p.is_top) in
      let first_eq = drawdowns_first t v rest numbers.0 in
      (
        info_of np t v rest trough lowest peak high,
        compute_drawdown-ok np t v rest trough lowest peak high (rw (first_eq, ran) refl)
            (rw first_eq (Has-loc t falls trough lowest rising' in_falls)) p.time_of p.value_of,
        (
          trough,
          low,
          peak,
          high,
          record {
            trough_time = refl;
            peak_time = refl;
            at_trough = Has-loc t equity trough low rising in_equity;
            at_peak = p.value_of;
            peak_before = p.before;
            peak_highest = p.is_highest;
            depth = ap np.negate deep;
            deepest = λ u x at_u.
                rw (sym deep) (
                  all u _
                    (all-drawdowns-Has t v rest u x rising numbers (loc-Has equity u x at_u)));
            recovery = recovery_of-Recovers t v rest trough high peak rising;
          },
        ),
      )
