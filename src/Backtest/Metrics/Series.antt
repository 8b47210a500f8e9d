-- ===== src/Backtest/Metrics/Series.antt =====
-- Series over rising timestamps: what they have, what `.loc` finds, and what a selection keeps.
use freqpanda.Prelude.{
  ℕ, suc, ◌≤◌, ◌<◌, ◌≡◌, refl, ◌⊎◌, Bool, true, false, ◌==◌, leb, leb→le, some, List, [], ◌∷◌, map,
  IsRising, IsRising-lower, arith, Bool-cases, inl, inr,
}
use freqpanda.Prelude.Result.{ok}
use freqpanda.Backtest.Metrics.{Series, select, loc, first, up_to}

module _ {F : Type 0} where
  -- An entry of a series.
  abbrev pub Has : Series F → ℕ → F → Type 0
  Has [] t v = ⊥
  Has ((u, w) ∷ s) t v = ((u ≡ t) × (w ≡ v)) ⊎ Has s t v

  abbrev pub index_of : Series F → List ℕ
  index_of = map (λ e. e.0)

  pub Has-ge : (b : ℕ) (s : Series F) (t : ℕ) (v : F) → IsRising b (index_of s) → Has s t v → b ≤ t
  Has-ge b [] t v r h = absurd h
  Has-ge b ((u, w) ∷ s) t v r (inl (e, f)) = omega arith
  Has-ge b ((u, w) ∷ s) t v r (inr h) = omega (arith, r.0, Has-ge (suc u) s t v r.1 h)

  pub loc-Has : (s : Series F) (t : ℕ) (v : F) → loc s t ≡ ok v → Has s t v
  unfolding loc
  loc-Has [] t v e = cc
  loc-Has ((u, w) ∷ s) t v e = elim (Bool-cases (u == t)) [
    | inl h ↦ inl (ground arith, cc (rw h at e))
    | inr h ↦ inr (loc-Has s t v (rw h at e))
  ]

  pub Has-loc :
      (b : ℕ) (s : Series F) (t : ℕ) (v : F) → IsRising b (index_of s) → Has s t v → loc s t ≡ ok v
  unfolding loc
  Has-loc b [] t v r h = absurd h
  Has-loc b ((u, w) ∷ s) t v r (inl (e, f)) = ground arith
  Has-loc b ((u, w) ∷ s) t v r (inr h) =
      ground (arith, Has-ge (suc u) s t v r.1 h, Has-loc (suc u) s t v r.1 h)

  pub Has-select :
      (p : ℕ × F → Bool) (s : Series F) (t : ℕ) (v : F)
      → Has (select p s) t v
      → Has s t v × (p (t, v) ≡ true)
  Has-select p [] t v h = absurd h
  Has-select p ((u, w) ∷ s) t v h = elim (Bool-cases (p (u, w))) [
    | inl e ↦
        let kept : Has ((u, w) ∷ select p s) t v = rw e at h in
        elim kept [
          | inl (et, ev) ↦ (inl (et, ev), cc)
          | inr k ↦ let (old, good) = Has-select p s t v k in (inr old, good)
        ]
    | inr e ↦ let (old, good) = Has-select p s t v (rw e at h) in (inr old, good)
  ]

  pub select-Has :
      (p : ℕ × F → Bool) (s : Series F) (t : ℕ) (v : F)
      → p (t, v) ≡ true
      → Has s t v
      → Has (select p s) t v
  select-Has p [] t v good h = absurd h
  select-Has p ((u, w) ∷ s) t v good (inl (et, ev)) =
      let e : p (u, w) ≡ true = cc in rw e (inl (et, ev))
  select-Has p ((u, w) ∷ s) t v good (inr h) = elim (Bool-cases (p (u, w))) [
    | inl e ↦ rw e (inr (select-Has p s t v good h))
    | inr e ↦ rw e (select-Has p s t v good h)
  ]

  -- What stands before the first entry of a selection is not selected.
  pub before_first :
      (b : ℕ) (p : ℕ × F → Bool) (s : Series F) (t : ℕ) (v : F)
      → IsRising b (index_of s)
      → first (select p s) ≡ some (t, v)
      → (u : ℕ) (w : F) → Has s u w
      → u < t
      → p (u, w) ≡ false
  before_first b p [] t v r e u w h lt = absurd h
  before_first b p ((x, y) ∷ s) t v r e u w h lt = elim (Bool-cases (p (x, y))) [
    | inl good ↦
        let same : x ≡ t = cc (rw good at e) in
        elim h [
          | inl (ex, ey) ↦ absurd (omega arith)
          | inr k ↦ absurd (omega (arith, Has-ge (suc x) s u w r.1 k))
        ]
    | inr bad ↦ elim h [
      | inl (ex, ey) ↦ cc
      | inr k ↦ before_first (suc x) p s t v r.1 (rw bad at e) u w k lt
    ]
  ]

  pub select-IsRising :
      (b : ℕ) (p : ℕ × F → Bool) (s : Series F)
      → IsRising b (index_of s)
      → IsRising b (index_of (select p s))
  select-IsRising b p [] r = tt
  select-IsRising b p ((u, w) ∷ s) r = elim (Bool-cases (p (u, w))) [
    | inl e ↦ rw e (r.0, select-IsRising (suc u) p s r.1)
    | inr e ↦ rw e (
        IsRising-lower b (suc u) (index_of (select p s)) (omega (arith, r.0))
          (select-IsRising (suc u) p s r.1))
  ]

  -- Nothing is selected.
  pub select-eq-nil :
      (p : ℕ × F → Bool) (s : Series F)
      → select p s ≡ []
      → (u : ℕ) (w : F) → Has s u w
      → p (u, w) ≡ false
  select-eq-nil p s e u w h = elim (Bool-cases (p (u, w))) [
    | inl good ↦ absurd (rw e at (select-Has p s u w good h))
    | inr bad ↦ bad
  ]

  -- No time is up to one before the series.
  pub up_to-later : (t : ℕ) (s : Series F) → IsRising (suc t) (index_of s) → up_to t s ≡ []
  up_to-later t s r = none_left (select (λ e. leb e.0 t) s) (λ u w h. Has-select _ s u w h)
    where
      none_left :
          (k : Series F) → ((u : ℕ) (w : F) → Has k u w → Has s u w × (leb u t ≡ true)) → k ≡ []
      none_left [] h = refl
      none_left ((u, w) ∷ k) h =
          let (old, small) = h u w (inl (refl, refl)) in
          absurd (omega (arith, Has-ge (suc t) s u w r old, leb→le u t small))
