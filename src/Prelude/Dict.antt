-- ===== src/Prelude/Dict.antt =====
-- Python's `dict` with text keys, as an association list in insertion order.
use Prim.Native.String.{String}
use mathlib.Core.Path.{◌≡◌, refl, subst, ◌∙◌}
use mathlib.Core.Option.{Option, none, some, some-injective}
use mathlib.Core.List.{List, [], ◌∷◌}
use native.Mathlib.Omega.{arith}
use text.Mathlib.Text.{◌==◌}
use text.Mathlib.TextEquality.{eq_iff}
use freqpanda.Prelude.Tests.{if◌then◌else◌, Bool-cases}
use freqpanda.Prelude.Lists.{All}
use mathlib.Core.Logic.{inl, inr}

module _ {ℓ} {V : Type ℓ} where
  -- d.get(k)
  unfoldable pub get : String → List (String × V) → Option V
  get k [] = none
  get k ((j, v) ∷ d) = if j == k then some v else get k d

  -- d[k] = v: a new key goes to the end, and an old one keeps its place.
  unfoldable pub put : String → V → List (String × V) → List (String × V)
  put k v [] = (k, v) ∷ []
  put k v ((j, w) ∷ d) = if j == k then (k, v) ∷ d else (j, w) ∷ put k v d

  -- del d[k]
  unfoldable pub remove : String → List (String × V) → List (String × V)
  remove k [] = []
  remove k ((j, v) ∷ d) = let rest = remove k d in if j == k then rest else (j, v) ∷ rest

  pub get-put :
      (k j : String) (v : V) (d : List (String × V))
      → get j (put k v d) ≡ (if k == j then some v else get j d)
  unfolding get put
  get-put k j v [] = refl
  get-put k j v ((i, w) ∷ d) = ground (arith, eq_iff k j, eq_iff i k, eq_iff i j, get-put k j v d)

  pub get-remove :
      (k j : String) (d : List (String × V))
      → get j (remove k d) ≡ (if k == j then none else get j d)
  unfolding get remove
  get-remove k j [] = ground arith
  get-remove k j ((i, w) ∷ d) = ground (arith, eq_iff k j, eq_iff i k, eq_iff i j, get-remove k j d)

module _ {ℓ κ} {V : Type ℓ} {W : Type κ} (f : V → W) where
  abbrev pub map_values : List (String × V) → List (String × W)
  map_values [] = []
  map_values ((k, v) ∷ d) = (k, f v) ∷ map_values d

  abbrev pub map_option : Option V → Option W
  map_option none = none
  map_option (some v) = some (f v)

  pub get-map_values :
      (k : String) (d : List (String × V)) → get k (map_values d) ≡ map_option (get k d)
  unfolding get
  get-map_values k [] = refl
  get-map_values k ((j, v) ∷ d) = ground (arith, get-map_values k d)

  pub put-map_values :
      (k : String) (v : V) (d : List (String × V))
      → put k (f v) (map_values d) ≡ map_values (put k v d)
  unfolding put
  put-map_values k v [] = refl
  put-map_values k v ((j, w) ∷ d) = ground (arith, put-map_values k v d)

-- What holds of every value holds of the one that a key has.
pub get-All {ℓ κ} :
    {V : Type ℓ} (P : V → Type κ) (k : String) (d : List (String × V)) (v : V)
    → All (λ e. P e.1) d
    → get k d ≡ some v
    → P v
unfolding get
get-All P k [] v all h = cc
get-All P k ((j, w) ∷ d) v all h = elim (Bool-cases (j == k)) [
  | inl e ↦ subst P (some-injective _ _ (rw e at h)) all.0
  | inr e ↦ get-All P k d v all.1 (rw e at h)
]

pub get-AllAt {ℓ κ} :
    {V : Type ℓ} (P : String → V → Type κ) (k : String) (d : List (String × V)) (v : V)
    → All (λ e. P e.0 e.1) d
    → get k d ≡ some v
    → P k v
unfolding get
get-AllAt P k [] v all h = cc
get-AllAt P k ((j, w) ∷ d) v all h = elim (Bool-cases (j == k)) [
  | inl e ↦
      subst (λ i. P i v) ((eq_iff j k).0 e) (subst (P j) (some-injective _ _ (rw e at h)) all.0)
  | inr e ↦ get-AllAt P k d v all.1 (rw e at h)
]

pub put-All {ℓ κ} :
    {V : Type ℓ} (P : V → Type κ) (k : String) (v : V) (d : List (String × V))
    → P v
    → All (λ e. P e.1) d
    → All (λ e. P e.1) (put k v d)
unfolding put
put-All P k v [] p all = (p, tt)
put-All P k v ((j, w) ∷ d) p all = elim (Bool-cases (j == k)) [
  | inl e ↦ rw e (p, all.1)
  | inr e ↦ rw e (all.0, put-All P k v d p all.1)
]

pub remove-All {ℓ κ} :
    {V : Type ℓ} (P : V → Type κ) (k : String) (d : List (String × V))
    → All (λ e. P e.1) d
    → All (λ e. P e.1) (remove k d)
unfolding remove
remove-All P k [] all = tt
remove-All P k ((j, w) ∷ d) all = elim (Bool-cases (j == k)) [
  | inl e ↦ rw e (remove-All P k d all.1)
  | inr e ↦ rw e (all.0, remove-All P k d all.1)
]

-- No key twice.
abbrev pub Distinct {ℓ} : {V : Type ℓ} → List (String × V) → Type ℓ
Distinct [] = Unit
Distinct ((k, v) ∷ d) = (get k d ≡ none) × Distinct d

pub Distinct-remove {ℓ} :
    {V : Type ℓ} (k : String) (d : List (String × V)) → Distinct d → Distinct (remove k d)
unfolding remove
Distinct-remove k [] h = h
Distinct-remove k ((j, v) ∷ d) h = elim (Bool-cases (j == k)) [
  | inl e ↦ rw e (Distinct-remove k d h.1)
  | inr e ↦ rw e (get-remove k j d ∙ ground (arith, h.0), Distinct-remove k d h.1)
]

pub Distinct-put {ℓ} :
    {V : Type ℓ} (k : String) (v : V) (d : List (String × V)) → Distinct d → Distinct (put k v d)
unfolding get put
Distinct-put k v [] h = (refl, tt)
Distinct-put k v ((j, w) ∷ d) h = elim (Bool-cases (j == k)) [
  | inl e ↦ rw e (ground (arith, eq_iff j k, h.0), h.1)
  | inr e ↦
      rw e (get-put k j v d ∙ ground (arith, eq_iff j k, eq_iff k j, h.0), Distinct-put k v d h.1)
]
