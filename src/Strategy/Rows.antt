-- ===== src/Strategy/Rows.antt =====
-- Comparisons row by row, where an operand is NaN.
use freqpanda.Prelude.{
  ℕ, zero, suc, ◌≡◌, refl, ap, ◌∙◌, ◌⊎◌, inl, inr, Bool, true, false, not, ◌&&◌, some, List, [],
  ◌∷◌, map, zip_with, get_elem?, arith,
}
use freqpanda.Prelude.Float.{Float, IsOrdered}
use freqpanda.Strategy.Schema.{ComparisonOp, gt, gte, lt, lte, crosses_above, crosses_below}
use freqpanda.Strategy.Conditions.{apply_op, shift_from}

get_elem?-zip_with {ℓ κ μ} :
    {A : Type ℓ} {B : Type κ} {C : Type μ} (f : A → B → C) (xs : List A) (ys : List B) (i : ℕ)
    (a : A) (b : B)
    → get_elem? xs i ≡ some a
    → get_elem? ys i ≡ some b
    → get_elem? (zip_with f xs ys) i ≡ some (f a b)
get_elem?-zip_with f [] ys i a b h k = cc
get_elem?-zip_with f (x ∷ xs) [] i a b h k = cc
get_elem?-zip_with f (x ∷ xs) (y ∷ ys) zero a b h k = cc
get_elem?-zip_with f (x ∷ xs) (y ∷ ys) (suc i) a b h k = get_elem?-zip_with f xs ys i a b h k

get_elem?-map {ℓ κ} :
    {A : Type ℓ} {B : Type κ} (f : A → B) (xs : List A) (i : ℕ) (a : A)
    → get_elem? xs i ≡ some a
    → get_elem? (map f xs) i ≡ some (f a)
get_elem?-map f [] i a h = cc
get_elem?-map f (x ∷ xs) zero a h = cc
get_elem?-map f (x ∷ xs) (suc i) a h = get_elem?-map f xs i a h

-- Is the operator `ne`?
abbrev pub is_ne : ComparisonOp → Bool
is_ne ComparisonOp.ne = true
is_ne _ = false

module _ {F : Type 0} ⦃fl : Float F⦄ where
  get_elem?-shift_from :
      (prev : F) (xs : List F) (i : ℕ) (a : F)
      → get_elem? xs i ≡ some a
      → (p : F) × (get_elem? (shift_from prev xs) i ≡ some p)
  unfolding shift_from
  get_elem?-shift_from prev [] i a h = absurd (cc)
  get_elem?-shift_from prev (x ∷ xs) zero a h = (prev, refl)
  get_elem?-shift_from prev (x ∷ xs) (suc i) a h = get_elem?-shift_from x xs i a h

  -- No comparison holds of NaN.
  abbrev Incomparable : F → F → Type 0
  Incomparable a b =
      (fl.lt a b ≡ false)
      × (fl.lt b a ≡ false)
      × (fl.le a b ≡ false)
      × (fl.le b a ≡ false)
      × (fl.is_close a b ≡ false)

  nan-Incomparable : (a b : F) → IsOrdered F → (a ≡ fl.nan) ⊎ (b ≡ fl.nan) → Incomparable a b
  nan-Incomparable a b laws (inl e) = rw e (
    (laws.nan_lt b).0,
    (laws.nan_lt b).1,
    (laws.nan_le b).0,
    (laws.nan_le b).1,
    (laws.nan_close b).0,
  )
  nan-Incomparable a b laws (inr e) = rw e (
    (laws.nan_lt a).1,
    (laws.nan_lt a).0,
    (laws.nan_le a).1,
    (laws.nan_le a).0,
    (laws.nan_close a).1,
  )

  -- On a row where an operand is NaN every comparison is false but `ne`, which is true.
  pub apply_op-nan :
      (op : ComparisonOp) (left right : List F) (i : ℕ) (a b : F)
      → IsOrdered F
      → get_elem? left i ≡ some a
      → get_elem? right i ≡ some b
      → (a ≡ fl.nan) ⊎ (b ≡ fl.nan)
      → get_elem? (apply_op op left right) i ≡ some (is_ne op)
  unfolding apply_op
  apply_op-nan gt left right i a b laws ha hb n =
      get_elem?-zip_with _ left right i a b ha hb ∙ ap some (nan-Incomparable a b laws n).1
  apply_op-nan gte left right i a b laws ha hb n =
      get_elem?-zip_with _ left right i a b ha hb ∙ ap some (nan-Incomparable a b laws n).3
  apply_op-nan lt left right i a b laws ha hb n =
      get_elem?-zip_with _ left right i a b ha hb ∙ ap some (nan-Incomparable a b laws n).0
  apply_op-nan lte left right i a b laws ha hb n =
      get_elem?-zip_with _ left right i a b ha hb ∙ ap some (nan-Incomparable a b laws n).2
  apply_op-nan ComparisonOp.eq left right i a b laws ha hb n =
      get_elem?-zip_with _ left right i a b ha hb ∙ ap some (nan-Incomparable a b laws n).4
  apply_op-nan ComparisonOp.ne left right i a b laws ha hb n =
      get_elem?-map not _ i _ (get_elem?-zip_with _ left right i a b ha hb)
      ∙ ap (λ c. some (not c)) (nan-Incomparable a b laws n).4
  apply_op-nan crosses_above left right i a b laws ha hb n =
      let (p, hp) = get_elem?-shift_from fl.nan left i a ha in
      let (q, hq) = get_elem?-shift_from fl.nan right i b hb in
      get_elem?-zip_with ◌&&◌ _ _ i _ _ (get_elem?-zip_with _ _ _ i p q hp hq)
        (get_elem?-zip_with _ left right i a b ha hb)
      ∙ ground (arith, nan-Incomparable a b laws n)
  apply_op-nan crosses_below left right i a b laws ha hb n =
      let (p, hp) = get_elem?-shift_from fl.nan left i a ha in
      let (q, hq) = get_elem?-shift_from fl.nan right i b hb in
      get_elem?-zip_with ◌&&◌ _ _ i _ _ (get_elem?-zip_with _ _ _ i p q hp hq)
        (get_elem?-zip_with _ left right i a b ha hb)
      ∙ ground (arith, nan-Incomparable a b laws n)
