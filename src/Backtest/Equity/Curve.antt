-- ===== src/Backtest/Equity/Curve.antt =====
-- The equity curve, position by position.
use freqpanda.Prelude.{
  ℕ, zero, suc, ◌+◌, ◌≤◌, ◌<◌, ◌≡◌, refl, ◌∙◌, ap, ◌&&◌, Option, none, some, List, [], ◌∷◌, map,
  length, length-map, get_elem?, get_elem?-lt, lt-get_elem?, ltb, leb, ◌==◌, arith, if◌then◌else◌,
  tabulate, tabulate_ext,
}
use native.Mathlib.Nat.{add-zero}
use freqpanda.Prelude.Result.{ok, >>=-eq-ok}
use freqpanda.Prelude.Float.{Float}
use freqpanda.Strategy.Indicators.{Frame, column_of}
use freqpanda.Backtest.Equity.{
  TradeCostResult, get_loc, write, write_from, write_trade, close_at, curve_from,
  build_equity_curve,
}

-- A trade with the positions of its entry and exit.
pub record Placed (F : Type 0) : Type 0 where
  pub entry_pos : ℕ
  pub exit_pos : ℕ
  pub result : TradeCostResult F

-- From `cursor` on: each trade exits after it enters, and the next one enters after that.
abbrev pub InOrder : {F : Type 0} → ℕ → List (Placed F) → Type 0
InOrder cursor [] = Unit
InOrder cursor (p ∷ ps) =
    (cursor ≤ p.entry_pos) × (p.entry_pos < p.exit_pos) × InOrder (suc p.exit_pos) ps

-- `get_loc` finds the positions.
abbrev pub IsLocated : {F : Type 0} → List ℕ → List (Placed F) → Type 0
IsLocated index [] = Unit
IsLocated index (p ∷ ps) =
    (get_loc index p.result.trade.entry_time ≡ ok p.entry_pos)
    × (get_loc index p.result.trade.exit_time ≡ ok p.exit_pos)
    × IsLocated index ps

abbrev written {ℓ} : {A : Type ℓ} → ℕ → ℕ → (ℕ → A) → ℕ → Option A → Option A
written first last f i none = none
written first last f i (some v) = some (if leb first i && ltb i last then f i else v)

get_elem?-write_from {ℓ} :
    {A : Type ℓ} (k first last : ℕ) (f : ℕ → A) (vs : List A) (j : ℕ)
    → get_elem? (write_from k first last f vs) j ≡ written first last f (k + j) (get_elem? vs j)
unfolding write_from
get_elem?-write_from k first last f [] j = refl
get_elem?-write_from k first last f (v ∷ vs) zero = rw add-zero
get_elem?-write_from k first last f (v ∷ vs) (suc j) =
    get_elem?-write_from (suc k) first last f vs j
    ∙ ap (λ i. written first last f i (get_elem? vs j)) (omega arith)

length-write_from {ℓ} :
    {A : Type ℓ} (k first last : ℕ) (f : ℕ → A) (vs : List A)
    → length (write_from k first last f vs) ≡ length vs
unfolding write_from
length-write_from k first last f [] = refl
length-write_from k first last f (v ∷ vs) = ap suc (length-write_from (suc k) first last f vs)

-- An element that a write finds, after it.
get_elem?-write {ℓ} :
    {A : Type ℓ} (first last : ℕ) (f : ℕ → A) (vs : List A) (i : ℕ) (v : A)
    → get_elem? vs i ≡ some v
    → get_elem? (write first last f vs) i ≡ some (if leb first i && ltb i last then f i else v)
get_elem?-write first last f vs i v h =
    get_elem?-write_from 0 first last f vs i
    ∙ ap (λ k. written first last f k (get_elem? vs i)) (omega arith)
    ∙ ap (written first last f i) h

module _ {F : Type 0} ⦃fl : Float F⦄ where
  open fl use {mul}

  -- The equity at a position: what the last finished trade left while flat, the fill value on an
  -- entry, the mark to market while a trade is open, and its realised equity on the exit.
  unfoldable pub equity_at : List F → F → List (Placed F) → ℕ → F
  equity_at close equity [] i = equity
  equity_at close equity (p ∷ ps) i =
      let later = equity_at close p.result.equity_after ps i in
      if ltb i p.entry_pos
      then equity
      else if i == p.entry_pos
      then mul p.result.quantity p.result.entry_fill
      else if ltb i p.exit_pos
      then mul p.result.quantity (close_at close i)
      else if i == p.exit_pos
      then p.result.equity_after
      else later

  -- One trade's writes.
  get_elem?-write_trade :
      (close : List F) (equity : F) (cursor : ℕ) (p : Placed F) (values : List F) (i : ℕ) (v : F)
      → cursor ≤ p.entry_pos
      → p.entry_pos < p.exit_pos
      → get_elem? values i ≡ some v
      → get_elem? (write_trade close equity cursor p.result p.entry_pos p.exit_pos values) i
        ≡ some (
            if ltb i cursor
            then v
            else if leb i p.exit_pos
            then equity_at close equity (p ∷ []) i
            else v)
  unfolding write_trade equity_at
  get_elem?-write_trade close equity cursor p values i v h k e =
      let w₁ = write cursor p.entry_pos (λ i. equity) values in
      let e₁ = get_elem?-write cursor p.entry_pos (λ i. equity) values i v e in
      let w₂ =
        write p.entry_pos (suc p.entry_pos) (λ i. mul p.result.quantity p.result.entry_fill) w₁ in
      let e₂ = get_elem?-write p.entry_pos (suc p.entry_pos) _ w₁ i _ e₁ in
      let w₃ =
        write (suc p.entry_pos) p.exit_pos (λ i. mul p.result.quantity (close_at close i)) w₂ in
      let e₃ = get_elem?-write (suc p.entry_pos) p.exit_pos _ w₂ i _ e₂ in
      get_elem?-write p.exit_pos (suc p.exit_pos) _ w₃ i _ e₃ ∙ ap some (ground arith)

  abbrev Describes : List F → F → ℕ → List (Placed F) → List F → List F → Type 0
  Describes close equity cursor ps values curve =
      (i : ℕ) (v : F)
      → get_elem? values i ≡ some v
      → get_elem? curve i ≡ some (if ltb i cursor then v else equity_at close equity ps i)

  curve_from-Describes :
      (index : List ℕ) (close : List F) (equity : F) (cursor : ℕ) (values : List F)
      (ps : List (Placed F))
      → IsLocated index ps
      → InOrder cursor ps
      → (curve : List F) × (curve_from index close equity cursor values (map (λ p. p.result) ps)
          ≡ ok curve)
        × Describes close equity cursor ps values curve
  unfolding curve_from equity_at
  curve_from-Describes index close equity cursor values [] located ordered = (
    write cursor (cursor + length values) (λ i. equity) values,
    refl,
    λ i v e.
        get_elem?-write cursor (cursor + length values) (λ i. equity) values i v e
        ∙ ap some (ground (arith, get_elem?-lt values i e)),
  )
  curve_from-Describes index close equity cursor values (p ∷ ps) located ordered =
      let values' = write_trade close equity cursor p.result p.entry_pos p.exit_pos values in
      let (curve, ran, described) =
        curve_from-Describes index close p.result.equity_after (suc p.exit_pos) values' ps located.2
          ordered.2 in
      (
        curve,
        rw (located.0, located.1) ran,
        λ i v e.
            described i _
              (get_elem?-write_trade close equity cursor p values i v ordered.0 ordered.1 e)
            ∙ ap some (ground arith),
      )

  length-write_trade :
      (close : List F) (equity : F) (cursor : ℕ) (tc : TradeCostResult F) (i j : ℕ)
      (values : List F)
      → length (write_trade close equity cursor tc i j values) ≡ length values
  unfolding write_trade
  length-write_trade close equity cursor tc i j values = simp length-write_from

  length-curve_from :
      (index : List ℕ) (close : List F) (tcs : List (TradeCostResult F)) (equity : F) (cursor : ℕ)
      (values curve : List F)
      → curve_from index close equity cursor values tcs ≡ ok curve
      → length curve ≡ length values
  unfolding curve_from
  length-curve_from index close [] equity cursor values curve e =
      cc (length-write_from 0 cursor (cursor + length values) (λ i. equity) values)
  length-curve_from index close (tc ∷ tcs) equity cursor values curve e =
      let (i, found, e₁) = >>=-eq-ok (get_loc index tc.trade.entry_time) _ e in
      let (j, found', e₂) = >>=-eq-ok (get_loc index tc.trade.exit_time) _ e₁ in
      length-curve_from index close tcs tc.equity_after (suc j)
        (write_trade close equity cursor tc i j values) curve e₂
      ∙ length-write_trade close equity cursor tc i j values

  -- The curve of trades in order has one value for each candle, and it is `equity_at`. What the
  -- array of `np.empty` held does not show.
  pub build_equity_curve-equity_at :
      (blank : ℕ → F) (df : Frame F) (close : List F) (ps : List (Placed F)) (initial_capital : F)
      → column_of df "close" ≡ ok close
      → IsLocated df.index ps
      → InOrder 0 ps
      → build_equity_curve blank df (map (λ p. p.result) ps) initial_capital
        ≡ ok (tabulate (length df.index) (equity_at close initial_capital ps))
  unfolding build_equity_curve
  build_equity_curve-equity_at blank df close ps initial_capital e located ordered =
      let values = map blank df.index in
      let (curve, ran, described) =
        curve_from-Describes df.index close initial_capital 0 values ps located ordered in
      rw e (
        ran
        ∙ ap ok (
            tabulate_ext (length df.index) (equity_at close initial_capital ps) curve
              (length-curve_from df.index close (map (λ p. p.result) ps) initial_capital 0 values
                  curve ran
                ∙ length-map blank df.index)
              (λ i h.
                let (v, found) = lt-get_elem? values i (omega (arith, length-map blank df.index)) in
                described i v found ∙ ap some (ground arith))))
