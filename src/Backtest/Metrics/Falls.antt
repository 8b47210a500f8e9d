-- ===== src/Backtest/Metrics/Falls.antt =====
-- The series of drawdowns: each entry is the fall of a value below the greatest one before.
use freqpanda.Prelude.{
  ℕ, suc, ◌≡◌, refl, sym, ◌∙◌, ap, Bool, true, false, leb, Option, none, some, [], ◌∷◌, All,
  IsRising, arith, Bool-cases, inl, inr,
}
use freqpanda.Prelude.Float.{Float, max, is_nan}
use freqpanda.Backtest.Metrics.{Series, extreme, drawdowns, fall, up_to}
use freqpanda.Backtest.Metrics.Series.{Has, index_of, Has-ge, up_to-later}

module _ {F : Type 0} ⦃fl : Float F⦄ where
  open fl use {lt, le}

  -- The greatest of a value and those of a series.
  unfoldable pub tops : F → Series F → F
  tops m [] = m
  tops m ((t, v) ∷ s) = tops (max m v) s

  -- The greatest value of a curve up to a time, from its first value on.
  unfoldable pub highest_to : F → Series F → ℕ → F
  highest_to v rest t = tops v (up_to t rest)

  abbrev pub AllNumbers : Series F → Type 0
  AllNumbers = All (λ e. is_nan e.1 ≡ false)

  pub extreme-tops :
      (s : Series F) (u p : ℕ) (m r : F)
      → extreme (λ v w. lt w v) (some (u, m)) s ≡ some (p, r)
      → r ≡ tops m s
  unfolding extreme tops
  extreme-tops [] u p m r e = cc
  extreme-tops ((t, v) ∷ s) u p m r e = elim (Bool-cases (lt m v)) [
    | inl h ↦ rw h (extreme-tops s t p v r (rw h at e))
    | inr h ↦ rw h (extreme-tops s u p m r (rw h at e))
  ]

  pub index_of-drawdowns : (s : Series F) (m : Option F) → index_of (drawdowns m s) ≡ index_of s
  unfolding drawdowns
  index_of-drawdowns [] m = refl
  index_of-drawdowns ((t, v) ∷ s) m = ap (◌∷◌ t) (index_of-drawdowns s _)

  -- Each entry of the drawdown is the fall of a value below the greatest one before.
  drawdowns-Has :
      (b : ℕ) (m : F) (s : Series F) (t : ℕ) (v : F)
      → IsRising b (index_of s)
      → AllNumbers s
      → Has s t v
      → Has (drawdowns (some m) s) t (fall v (tops m (up_to t s)))
  unfolding drawdowns tops
  drawdowns-Has b m [] t v r n h = absurd h
  drawdowns-Has b m ((u, w) ∷ s) t v r n (inl (et, ev)) =
      let e : leb u t ≡ true = ground arith in
      let later : up_to t s ≡ [] = rw (sym et) (up_to-later u s r.1) in
      rw (e, later, n.0) (inl (et, ap (λ x. fall x (max m w)) ev))
  drawdowns-Has b m ((u, w) ∷ s) t v r n (inr h) =
      let e : leb u t ≡ true = ground (arith, Has-ge (suc u) s t v r.1 h) in
      rw (e, n.0) (inr (drawdowns-Has (suc u) (max m w) s t v r.1 n.1 h))

  Has-drawdowns :
      (b : ℕ) (m : F) (s : Series F) (t : ℕ) (d : F)
      → IsRising b (index_of s)
      → AllNumbers s
      → Has (drawdowns (some m) s) t d
      → (v : F) × Has s t v × (d ≡ fall v (tops m (up_to t s)))
  unfolding drawdowns tops
  Has-drawdowns b m [] t d r n h = absurd h
  Has-drawdowns b m ((u, w) ∷ s) t d r n (inl (et, ed)) =
      let e : leb u t ≡ true = ground arith in
      let later : up_to t s ≡ [] = rw (sym et) (up_to-later u s r.1) in
      (w, inl (et, refl), rw (e, later) (sym ed ∙ rw n.0 refl))
  Has-drawdowns b m ((u, w) ∷ s) t d r n (inr h) =
      let (v, found, fell) = Has-drawdowns (suc u) (max m w) s t d r.1 n.1 (rw n.0 at h) in
      let e : leb u t ≡ true = ground (arith, Has-ge (suc u) s t v r.1 found) in
      (v, inr found, rw e fell)

  pub drawdowns_first :
      (t : ℕ) (v : F) (rest : Series F)
      → is_nan v ≡ false
      → drawdowns none ((t, v) ∷ rest) ≡ (t, fall v v) ∷ drawdowns (some v) rest
  unfolding drawdowns
  drawdowns_first t v rest n = rw n refl

  pub all-drawdowns-Has :
      (t : ℕ) (v : F) (rest : Series F) (u : ℕ) (x : F)
      → IsRising t (index_of ((t, v) ∷ rest))
      → AllNumbers ((t, v) ∷ rest)
      → Has ((t, v) ∷ rest) u x
      → Has ((t, fall v v) ∷ drawdowns (some v) rest) u (fall x (highest_to v rest u))
  unfolding highest_to tops
  all-drawdowns-Has t v rest u x r n (inl (et, ex)) =
      let later : up_to u rest ≡ [] = rw (sym et) (up_to-later t rest r.1) in
      rw later (inl (et, ap (λ y. fall y v) ex))
  all-drawdowns-Has t v rest u x r n (inr h) = inr (drawdowns-Has (suc t) v rest u x r.1 n.1 h)

  pub all-Has-drawdowns :
      (t : ℕ) (v : F) (rest : Series F) (u : ℕ) (d : F)
      → IsRising t (index_of ((t, v) ∷ rest))
      → AllNumbers ((t, v) ∷ rest)
      → Has ((t, fall v v) ∷ drawdowns (some v) rest) u d
      → (x : F) × Has ((t, v) ∷ rest) u x × (d ≡ fall x (highest_to v rest u))
  unfolding highest_to tops
  all-Has-drawdowns t v rest u d r n (inl (et, ed)) =
      let later : up_to u rest ≡ [] = rw (sym et) (up_to-later t rest r.1) in
      (v, inl (et, refl), rw later (sym ed))
  all-Has-drawdowns t v rest u d r n (inr h) =
      let (x, found, fell) = Has-drawdowns (suc t) v rest u d r.1 n.1 h in (x, inr found, fell)

  pub extreme-some :
      (better : F → F → Bool) (t : ℕ) (v : F) (s : Series F)
      → is_nan v ≡ false
      → extreme better (some (t, v)) s ≡ extreme better none ((t, v) ∷ s)
  unfolding extreme
  extreme-some better t v s n = rw n refl
