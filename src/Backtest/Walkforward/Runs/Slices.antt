-- ===== src/Backtest/Walkforward/Runs/Slices.antt =====
-- A slice of a frame that is aligned, in order and complete is so too, and has the rows of a range.
use freqpanda.Prelude.{
  ℕ, suc, String, ◌≤◌, ◌<◌, ◌≡◌, refl, ap, ◌∙◌, Bool, List, [], ◌∷◌, map, length, All, IsRising,
  IsRising-lower, arith, Bool-cases, inl, inr, length-map,
}
use freqpanda.Prelude.Dict.{map_values}
use freqpanda.Strategy.Indicators.{Frame}
use freqpanda.Strategy.Interpreter.{missing}
use freqpanda.Strategy.Shape.{IsAligned}
use freqpanda.Strategy.Validation.{without, ohlcv_columns}
use freqpanda.Backtest.Walkforward.Runs.{keep, within, slice}

length-keep {ℓ κ} :
    {A : Type ℓ} {B : Type κ} (mask : List Bool) (xs : List A) (ys : List B)
    → length xs ≡ length mask
    → length ys ≡ length mask
    → length (keep mask xs) ≡ length (keep mask ys)
length-keep [] xs ys h k = refl
length-keep (b ∷ mask) [] ys h k = absurd (omega arith)
length-keep (b ∷ mask) (x ∷ xs) [] h k = absurd (omega arith)
length-keep (b ∷ mask) (x ∷ xs) (y ∷ ys) h k =
    let same = length-keep mask xs ys (omega arith) (omega arith) in
    elim (Bool-cases b) [ inl e ↦ rw e (ap suc same) | inr e ↦ rw e same ]

-- What a slice has of an index.
abbrev pub InRange : ℕ → ℕ → ℕ → Type 0
InRange first last t = (first ≤ t) × (t < last)

keep-InRange :
    (first last : ℕ) (index : List ℕ)
    → All (InRange first last) (keep (map (within first last) index) index)
keep-InRange first last [] = tt
keep-InRange first last (t ∷ index) =
    let rest = keep-InRange first last index in
    elim (Bool-cases (within first last t)) [
      | inl e ↦ rw e (((ground arith, ground arith), rest))
      | inr e ↦ rw e rest
    ]

keep-IsRising :
    (mask : List Bool) (b : ℕ) (index : List ℕ) → IsRising b index → IsRising b (keep mask index)
keep-IsRising [] b index r = tt
keep-IsRising (m ∷ mask) b [] r = tt
keep-IsRising (m ∷ mask) b (t ∷ index) r =
    let rest = keep-IsRising mask (suc t) index r.1 in
    elim (Bool-cases m) [
      | inl e ↦ rw e (r.0, rest)
      | inr e ↦ rw e (IsRising-lower b (suc t) (keep mask index) (omega (arith, r.0)) rest)
    ]

module _ {F : Type 0} where
  keep-All :
      (mask : List Bool) (index : List ℕ) (columns : List (String × List F))
      → length index ≡ length mask
      → All (λ c. length c.1 ≡ length index) columns
      → All (λ c. length c.1 ≡ length (keep mask index)) (map_values (keep mask) columns)
  keep-All mask index [] h all = tt
  keep-All mask index ((k, v) ∷ columns) h all =
      (length-keep mask v index (all.0 ∙ h) h, keep-All mask index columns h all.1)

  pub slice-IsAligned :
      (first last : ℕ) (df : Frame F) → IsAligned df → IsAligned (slice first last df)
  unfolding slice
  slice-IsAligned first last df aligned =
      let mask = map (within first last) df.index in
      keep-All mask df.index df.columns (omega (arith, length-map (within first last) df.index))
        aligned

  pub slice-IsRising :
      (first last : ℕ) (df : Frame F) → IsRising 0 df.index → IsRising 0 (slice first last df).index
  unfolding slice
  slice-IsRising first last df r = keep-IsRising (map (within first last) df.index) 0 df.index r

  keys-map_values :
      (f : List F → List F) (columns : List (String × List F))
      → map (λ c. c.0) (map_values f columns) ≡ map (λ c. c.0) columns
  keys-map_values f [] = refl
  keys-map_values f ((k, v) ∷ columns) = ap (◌∷◌ k) (keys-map_values f columns)

  pub missing-slice : (first last : ℕ) (df : Frame F) → missing (slice first last df) ≡ missing df
  unfolding missing slice
  missing-slice first last df =
      ap (λ names. without names ohlcv_columns)
        (keys-map_values (keep (map (within first last) df.index)) df.columns)

  -- The rows of a slice are in its range.
  pub slice-InRange :
      (first last : ℕ) (df : Frame F) → All (InRange first last) (slice first last df).index
  unfolding slice
  slice-InRange first last df = keep-InRange first last df.index
