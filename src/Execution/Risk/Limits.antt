-- ===== src/Execution/Risk/Limits.antt =====
-- When the risk middleware halts a bot, over the equities that it is told of.
use freqpanda.Prelude.{
  ℕ, zero, suc, ◌≡◌, refl, ◌↔◌, Bool-cases, inl, inr, true, false, some, List, [], ◌∷◌, take,
  get_elem?, arith,
}
use freqpanda.Prelude.Result.{Result, ok, err}
use freqpanda.Prelude.Float.{Float, max}
use freqpanda.Execution.Risk.{RiskMiddleware, BotError, circuit_breaker_tripped, update_equity}

module _ {F : Type 0} ⦃fl : Float F⦄ where
  open fl use {sub, div, le}

  -- One update after another, up to the first that raises.
  pub update_all : List F → RiskMiddleware F → Result BotError (Unit {0}) × RiskMiddleware F
  update_all [] m = (ok tt, m)
  update_all (equity ∷ rest) m =
      let (r, m') = update_equity equity m in
      let later = update_all rest m' in elim r [ ok u ↦ later | err e ↦ (err e, m') ]

  -- The highest of an equity and those after it.
  abbrev pub highest : F → List F → F
  highest peak [] = peak
  highest peak (equity ∷ rest) = highest (max peak equity) rest

  -- The fall from a peak to an equity, as a part of the peak, reaches the limit.
  abbrev pub IsTooDeep : F → F → F → Type 0
  IsTooDeep limit peak equity = le limit (div (sub peak equity) peak) ≡ true

  -- Some equity is too deep below the highest up to it.
  abbrev pub Falls : F → F → List F → Type 0
  Falls limit peak equities =
      (i : ℕ) × (equity : F) × (get_elem? equities i ≡ some equity)
      × IsTooDeep limit (highest peak (take (suc i) equities)) equity

  Falls-later :
      (limit peak equity : F) (rest : List F)
      → le limit (div (sub (max peak equity) equity) (max peak equity)) ≡ false
      → Falls limit peak (equity ∷ rest)
      → Falls limit (max peak equity) rest
  Falls-later limit peak equity rest shallow (zero, x, at, deep) =
      absurd (grind (arith, shallow, at, deep))
  Falls-later limit peak equity rest shallow (suc i, x, at, deep) = (i, x, at, deep)

  -- Told of equities one after another, the middleware raises the breaker exactly where one of them
  -- is below the highest up to it, the first peak included, by the limit or more of that peak.
  pub update_equity_lem :
      (equities : List F) (m : RiskMiddleware F)
      → (update_all equities m).0 ≡ err circuit_breaker_tripped
        ↔ Falls m.limits.max_drawdown_pct m.peak_equity equities
  unfolding update_all update_equity
  update_equity_lem [] m = (λ e. cc, λ (i, equity, at, deep). cc)
  update_equity_lem (equity ∷ rest) m =
      let limit = m.limits.max_drawdown_pct in
      let peak = max m.peak_equity equity in
      let (to, from) = update_equity_lem rest (record m { peak_equity = peak }) in
      elim (Bool-cases (le limit (div (sub peak equity) peak))) [
        | inl deep ↦ rw (deep, update_all) (λ e. (0, equity, refl, deep), λ h. refl)
        | inr shallow ↦
            rw (shallow, update_all)
              (
                λ e. let (i, x, at, deep) = to e in (suc i, x, at, deep),
                λ h. from (Falls-later limit m.peak_equity equity rest shallow h),
              )
      ]
