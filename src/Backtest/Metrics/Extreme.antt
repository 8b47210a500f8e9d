-- ===== src/Backtest/Metrics/Extreme.antt =====
-- What idxmin and idxmax find in a series.
use freqpanda.Prelude.{
  ℕ, ◌≡◌, refl, sym, ◌⊎◌, Bool, true, false, none, some, [], ◌∷◌, arith, Bool-cases, inl, inr,
}
use freqpanda.Prelude.Float.{Float, IsOrdered, is_nan}
use freqpanda.Backtest.Metrics.{Series, extreme}
use freqpanda.Backtest.Metrics.Series.{Has}

module _ {F : Type 0} ⦃fl : Float F⦄ where
  open fl use {lt, le}

  -- What `extreme` needs of its test.
  pub record Picks (better : F → F → Bool) : Type 0 where
    trans :
        (x w r : F)
        → is_nan w ≡ false
        → better x w ≡ false
        → better w r ≡ false
        → better x r ≡ false
    asym : (x w : F) → better x w ≡ true → better w x ≡ false
    irrefl : (x : F) → better x x ≡ false
    number : (x w : F) → better x w ≡ true → is_nan x ≡ false

  -- The entry `(t, r)` that `extreme` ends with, from `(u, w)` on: no other one is better.
  record Best (better : F → F → Bool) (s : Series F) (u : ℕ) (w : F) (t : ℕ) (r : F) : Type 0 where
    number : is_nan r ≡ false
    under : better w r ≡ false
    all : (x : ℕ) (v : F) → Has s x v → better v r ≡ false
    place : ((u ≡ t) × (w ≡ r)) ⊎ Has s t r

  extreme-Best :
      (better : F → F → Bool) (picks : Picks better) (s : Series F) (u : ℕ) (w : F)
      → is_nan w ≡ false
      → (t : ℕ) × (r : F) × (extreme better (some (u, w)) s ≡ some (t, r)) × Best better s u w t r
  unfolding extreme
  extreme-Best better picks [] u w number = (
    u,
    w,
    refl,
    record {
      number = number;
      under = picks.irrefl w;
      all = λ x v h. absurd h;
      place = inl (refl, refl);
    },
  )
  extreme-Best better picks ((t, v) ∷ s) u w number = elim (Bool-cases (better v w)) [
    | inl e ↦
        let v_number = picks.number v w e in
        let (p, r, ran, best) = extreme-Best better picks s t v v_number in
        (
          p,
          r,
          rw e ran,
          record {
            number = best.number;
            under = picks.trans w v r v_number (picks.asym v w e) best.under;
            all =
                λ x y h. elim h [ inl (ex, ey) ↦ rw (sym ey) best.under | inr k ↦ best.all x y k ];
            place = inr best.place;
          },
        )
    | inr e ↦
        let (p, r, ran, best) = extreme-Best better picks s u w number in
        let head = picks.trans v w r number e best.under in
        (
          p,
          r,
          rw e ran,
          record {
            number = best.number;
            under = best.under;
            all = λ x y h. elim h [ inl (ex, ey) ↦ rw (sym ey) head | inr k ↦ best.all x y k ];
            place = elim best.place [ inl q ↦ inl q | inr k ↦ inr (inr k) ];
          },
        )
  ]

  -- From no entry, where the first is a number.
  pub extreme-first :
      (better : F → F → Bool) (picks : Picks better) (t : ℕ) (v : F) (s : Series F)
      → is_nan v ≡ false
      → (p : ℕ) × (r : F) × (extreme better none ((t, v) ∷ s) ≡ some (p, r))
        × (is_nan r ≡ false)
        × Has ((t, v) ∷ s) p r
        × ((x : ℕ) (y : F) → Has ((t, v) ∷ s) x y → better y r ≡ false)
  unfolding extreme
  extreme-first better picks t v s number =
      let (p, r, ran, best) = extreme-Best better picks s t v number in
      (
        p,
        r,
        rw number ran,
        best.number,
        best.place,
        λ x y h. elim h [ inl (ex, ey) ↦ rw (sym ey) best.under | inr k ↦ best.all x y k ],
      )

  module _ (ordered : IsOrdered F) where
    lt-number : (x w : F) → lt x w ≡ true → (is_nan x ≡ false) × (is_nan w ≡ false)
    lt-number x w e = ground (arith, ordered.le_of_lt x w, ordered.refl_of_le x w)

    -- Not less, between numbers, is greater or equal.
    le-of_not_lt : (x w : F) → is_nan x ≡ false → is_nan w ≡ false → lt x w ≡ false → le w x ≡ true
    le-of_not_lt x w nx nw e = ground (arith, ordered.lt_or_le x w)

    not_lt-of_le : (x w : F) → le w x ≡ true → lt x w ≡ false
    not_lt-of_le x w e = ground (arith, ordered.refl_of_le w x, ordered.lt_or_le x w)

    not_lt_irrefl : (x : F) → lt x x ≡ false
    not_lt_irrefl x = ground (arith, lt-number x x, ordered.lt_or_le x x)

    pub not_lt_asym : (x w : F) → lt x w ≡ true → lt w x ≡ false
    not_lt_asym x w e = not_lt-of_le w x (ordered.le_of_lt x w e)

    pub not_lt_trans :
        (x w r : F) → is_nan w ≡ false → lt x w ≡ false → lt w r ≡ false → lt x r ≡ false
    not_lt_trans x w r nw e f = elim (Bool-cases (lt x r)) [
      | inl h ↦
          let (nx, nr) = lt-number x r h in
          let h' =
            not_lt-of_le x r
              (ordered.le_trans r w x (le-of_not_lt w r nw nr f) (le-of_not_lt x w nx nw e)) in
          cc
      | inr h ↦ h
    ]

    pub lt-Picks : Picks lt
    lt-Picks = record {
      trans = not_lt_trans;
      asym = not_lt_asym;
      irrefl = not_lt_irrefl;
      number = λ x w e. (lt-number x w e).0;
    }

    pub gt-Picks : Picks (λ v w. lt w v)
    gt-Picks = record {
      trans = λ x w r nw e f. not_lt_trans r w x nw f e;
      asym = λ x w e. not_lt_asym w x e;
      irrefl = not_lt_irrefl;
      number = λ x w e. (lt-number w x e).1;
    }
