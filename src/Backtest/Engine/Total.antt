-- ===== src/Backtest/Engine/Total.antt =====
-- The drawdown of a curve raises nothing but the KeyError of a curve without a number.
use freqpanda.Prelude.{
  ℕ, ◌≡◌, ◌≢◌, refl, sym, leb, ◌⊎◌, Bool, ◌==◌, true, Option, none, some, [], ◌∷◌, inl, inr,
  Bool-cases, Option-cases, if◌then◌else◌, All, arith,
}
use freqpanda.Prelude.Result.{ok, err}
use freqpanda.Prelude.Float.{Float, is_nan}
use freqpanda.Backtest.Metrics.{
  Series, Numpy, extreme, drawdowns, loc, up_to, found_time, compute_drawdown, DrawdownInfo,
  no_time,
}
use freqpanda.Backtest.Metrics.Series.{Has, Has-select}

module _ {F : Type 0} ⦃fl : Float F⦄ where
  loc_of_Has : (s : Series F) (t : ℕ) (v : F) → Has s t v → (w : F) × (loc s t ≡ ok w)
  unfolding loc
  loc_of_Has [] t v h = absurd h
  loc_of_Has ((u, x) ∷ s) t v (inl (et, ev)) = (x, ground arith)
  loc_of_Has ((u, x) ∷ s) t v (inr h) = elim (Bool-cases (u == t)) [
    | inl e ↦ (x, rw e refl)
    | inr e ↦ let (w, found) = loc_of_Has s t v h in (w, rw e found)
  ]

  abbrev From : Option (ℕ × F) → Series F → ℕ → F → Type 0
  From best s t v = (best ≡ some (t, v)) ⊎ Has s t v

  extreme-From :
      (better : F → F → Bool) (s : Series F) (best : Option (ℕ × F)) (t : ℕ) (v : F)
      → extreme better best s ≡ some (t, v)
      → From best s t v
  unfolding extreme
  extreme-From better [] best t v e = inl e
  extreme-From better ((u, x) ∷ s) none t v e =
      elim (extreme-From better s (if is_nan x then none else some (u, x)) t v e) [
        | inr h ↦ inr (inr h)
        | inl h ↦ elim (Bool-cases (is_nan x)) [
          | inl n ↦ absurd (cc (rw n at h))
          | inr n ↦ inr (inl (cc (rw n at h), cc (rw n at h)))
        ]
      ]
  extreme-From better ((u, x) ∷ s) (some (w, y)) t v e =
      elim (extreme-From better s (if better x y then some (u, x) else some (w, y)) t v e) [
        | inr h ↦ inr (inr h)
        | inl h ↦ elim (Bool-cases (better x y)) [
          | inl b ↦ inr (inl (cc (rw b at h), cc (rw b at h)))
          | inr b ↦ inl (rw b at h)
        ]
      ]

  -- The time of an extreme is one of the series.
  found-loc :
      (better : F → F → Bool) (s : Series F) (t : ℕ)
      → found_time (extreme better none s) ≡ ok t
      → (v : F) × Has s t v
  found-loc better s t e = elim (Option-cases (extreme better none s)) [
    | inl n ↦ absurd (cc (rw n at e))
    | inr ((u, v), found) ↦
        let same : u ≡ t = cc (rw found at e) in
        elim (extreme-From better s none u v found) [
          | inl h ↦ absurd (cc h)
          | inr h ↦ (v, rw (sym same) h)
        ]
  ]

  extreme-some :
      (better : F → F → Bool) (s : Series F) (best : ℕ × F)
      → (extreme better (some best) s ≡ none)
      → ⊥
  unfolding extreme
  extreme-some better [] best e = cc
  extreme-some better ((u, x) ∷ s) (w, y) e =
      extreme-some better s (if better x y then (u, x) else (w, y)) (ground (arith, e))

  abbrev pub AllNan : Series F → Type 0
  AllNan = All (λ e. is_nan e.1 ≡ true)

  extreme-none : (better : F → F → Bool) (s : Series F) → extreme better none s ≡ none → AllNan s
  unfolding extreme
  extreme-none better [] e = tt
  extreme-none better ((u, x) ∷ s) e = elim (Bool-cases (is_nan x)) [
    | inl n ↦ (n, extreme-none better s (rw n at e))
    | inr n ↦ absurd (extreme-some better s (u, x) (rw n at e))
  ]

  -- A curve that is not empty, and has no drawdown that is a number, or a drawdown at some time up to
  -- which it has no number.
  abbrev pub NoNumber : Series F → Type 0
  NoNumber s =
      (s ≢ [])
      × (AllNan (drawdowns none s)
          ⊎ ((t : ℕ) × (v : F) × Has (drawdowns none s) t v × AllNan (up_to t s)))

  pub compute_drawdown-OrNoNumber :
      (np : Numpy F) (s : Series F)
      → ((info : DrawdownInfo F) × (compute_drawdown np s ≡ ok info))
        ⊎ ((compute_drawdown np s ≡ err no_time) × NoNumber s)
  unfolding compute_drawdown
  compute_drawdown-OrNoNumber np [] = inl (_, refl)
  compute_drawdown-OrNoNumber np ((t, v) ∷ rest) =
      let equity = (t, v) ∷ rest in
      elim (Option-cases (extreme fl.lt none (drawdowns none equity))) [
        | inl none_found ↦ inr (
          rw none_found refl,
          (λ h. cc, inl (extreme-none fl.lt (drawdowns none equity) none_found)),
        )
        | inr ((trough, u), e) ↦
            let (x, has) = found-loc fl.lt (drawdowns none equity) trough (rw e refl) in
            let (y, found) = loc_of_Has (drawdowns none equity) trough x has in
            elim (Option-cases (extreme (λ v w. fl.lt w v) none (up_to trough equity))) [
              | inl none_found ↦ inr (
                rw (e, found, none_found) refl,
                (
                  λ h. cc,
                  inr (
                    trough,
                    x,
                    has,
                    extreme-none (λ v w. fl.lt w v) (up_to trough equity) none_found,
                  ),
                ),
              )
              | inr ((peak, z), e') ↦
                  let (z', has') =
                    found-loc (λ v w. fl.lt w v) (up_to trough equity) peak (rw e' refl) in
                  let (w, found') =
                    loc_of_Has equity peak z'
                      (Has-select (λ e. leb e.0 trough) equity peak z' has').0 in
                  rw (e, found, e', found') (inl (_, refl))
            ]
      ]
