-- ===== src/Prelude/Lists.antt =====
-- Lists measured and cut by native numbers, and series combined row by row.
use Prim.Native.Nat.{ℕ, zero, suc, ◌+◌, ◌-◌, ◌≤◌, ◌<◌}
use mathlib.Core.Path.{◌≡◌, refl, ap, ap₂, ◌∙◌}
use mathlib.Core.Logic.{◌⊎◌}
use mathlib.Core.Option.{Option, none, some, some-injective}
use mathlib.Core.List.{List, [], ◌∷◌, ◌++◌, map}
use native.Mathlib.Omega.{arith}

-- Numbers rise strictly, from a lower bound on.
abbrev pub IsRising : ℕ → List ℕ → Type 0
IsRising b [] = Unit
IsRising b (t ∷ ts) = (b ≤ t) × IsRising (suc t) ts

pub IsRising-lower : (b c : ℕ) (ts : List ℕ) → b ≤ c → IsRising c ts → IsRising b ts
IsRising-lower b c [] h r = tt
IsRising-lower b c (t ∷ ts) h r = (omega arith, r.1)

module _ {ℓ} {A : Type ℓ} where
  abbrev pub length : List A → ℕ
  length [] = 0
  length (x ∷ xs) = suc (length xs)

  abbrev pub get_elem? : List A → ℕ → Option A
  get_elem? [] i = none
  get_elem? (x ∷ xs) zero = some x
  get_elem? (x ∷ xs) (suc i) = get_elem? xs i

  abbrev pub take : ℕ → List A → List A
  take zero xs = []
  take (suc n) [] = []
  take (suc n) (x ∷ xs) = x ∷ take n xs

  abbrev pub drop : ℕ → List A → List A
  drop zero xs = xs
  drop (suc n) [] = []
  drop (suc n) (x ∷ xs) = drop n xs

  abbrev pub get_last? : List A → Option A
  get_last? [] = none
  get_last? (x ∷ []) = some x
  get_last? (x ∷ y ∷ xs) = get_last? (y ∷ xs)

  abbrev pub All {κ} : (A → Type κ) → List A → Type κ
  All P [] = Unit
  All P (x ∷ xs) = P x × All P xs

  abbrev pub Any : (A → Type 0) → List A → Type 0
  Any P [] = ⊥
  Any P (x ∷ xs) = P x ⊎ Any P xs

  pub length-append : (xs ys : List A) → length (xs ++ ys) ≡ length xs + length ys
  length-append [] ys = omega arith
  length-append (x ∷ xs) ys = omega (arith, length-append xs ys)

  pub length-drop : (n : ℕ) (xs : List A) → length (drop n xs) ≡ length xs - n
  length-drop zero xs = omega arith
  length-drop (suc n) [] = omega arith
  length-drop (suc n) (x ∷ xs) = omega (arith, length-drop n xs)

  pub All-append {κ} : (P : A → Type κ) (xs ys : List A) → All P xs → All P ys → All P (xs ++ ys)
  All-append P [] later hx hy = hy
  All-append P (x ∷ xs) ys hx hy = (hx.0, All-append P xs ys hx.1 hy)

  pub All-split {κ} : (P : A → Type κ) (xs ys : List A) → All P (xs ++ ys) → All P xs × All P ys
  All-split P [] ys h = (tt, h)
  All-split P (x ∷ xs) ys h = let (hx, hy) = All-split P xs ys h.1 in ((h.0, hx), hy)

  pub append-eq-nil : (xs ys : List A) → xs ++ ys ≡ [] → (xs ≡ []) × (ys ≡ [])
  append-eq-nil [] ys e = (refl, e)
  append-eq-nil (x ∷ xs) ys e = cc

  pub All-drop {κ} : (P : A → Type κ) (n : ℕ) (xs : List A) → All P xs → All P (drop n xs)
  All-drop P zero xs h = h
  All-drop P (suc n) [] h = h
  All-drop P (suc n) (x ∷ xs) h = All-drop P n xs h.1

-- Two series row by row, as far as both go.
abbrev pub zip_with {ℓ κ μ} :
    {A : Type ℓ} {B : Type κ} {C : Type μ} → (A → B → C) → List A → List B → List C
zip_with f [] ys = []
zip_with f (x ∷ xs) [] = []
zip_with f (x ∷ xs) (y ∷ ys) = f x y ∷ zip_with f xs ys

pub take-zip_with {ℓ κ μ} :
    {A : Type ℓ} {B : Type κ} {C : Type μ} (f : A → B → C) (n : ℕ) (xs : List A) (ys : List B)
    → take n (zip_with f xs ys) ≡ zip_with f (take n xs) (take n ys)
take-zip_with f zero xs ys = refl
take-zip_with f (suc n) [] ys = refl
take-zip_with f (suc n) (x ∷ xs) [] = refl
take-zip_with f (suc n) (x ∷ xs) (y ∷ ys) = ap (◌∷◌ (f x y)) (take-zip_with f n xs ys)

pub take-map {ℓ κ} :
    {A : Type ℓ} {B : Type κ} (f : A → B) (n : ℕ) (xs : List A)
    → take n (map f xs) ≡ map f (take n xs)
take-map f zero xs = refl
take-map f (suc n) [] = refl
take-map f (suc n) (x ∷ xs) = ap (◌∷◌ (f x)) (take-map f n xs)

module _ {ℓ} {A : Type ℓ} where
  -- The element at an index within a list is the head of what is left there, and the last of a prefix.
  pub split_at :
      (xs : List A) (i : ℕ)
      → i < length xs
      → (x : A) × (drop i xs ≡ x ∷ drop (suc i) xs) × (get_last? (take (suc i) xs) ≡ some x)
  split_at [] i h = absurd (omega arith)
  split_at (x ∷ xs) zero h = (x, refl, refl)
  split_at (x ∷ []) (suc i) h = absurd (omega arith)
  split_at (x ∷ y ∷ xs) (suc i) h = split_at (y ∷ xs) i (omega arith)

  pub drop-length : (xs : List A) → drop (length xs) xs ≡ []
  drop-length [] = refl
  drop-length (x ∷ xs) = drop-length xs

  pub drop_all : (i : ℕ) (xs : List A) → i ≡ length xs → drop i xs ≡ []
  drop_all i xs h = rw h (drop-length xs)

pub length-map {ℓ κ} :
    {A : Type ℓ} {B : Type κ} (f : A → B) (xs : List A) → length (map f xs) ≡ length xs
length-map f [] = refl
length-map f (x ∷ xs) = ap suc (length-map f xs)

pub length-zip_with {ℓ κ μ} :
    {A : Type ℓ} {B : Type κ} {C : Type μ} (f : A → B → C) (n : ℕ) (xs : List A) (ys : List B)
    → length xs ≡ n
    → length ys ≡ n
    → length (zip_with f xs ys) ≡ n
length-zip_with f n [] ys h k = h
length-zip_with f n (x ∷ xs) [] h k = k
length-zip_with f zero (x ∷ xs) (y ∷ ys) h k = absurd (omega arith)
length-zip_with f (suc n) (x ∷ xs) (y ∷ ys) h k =
    ap suc (length-zip_with f n xs ys (omega arith) (omega arith))

pub get_elem?-lt {ℓ} :
    {A : Type ℓ} (xs : List A) (i : ℕ) {a : A} → get_elem? xs i ≡ some a → i < length xs
get_elem?-lt [] i h = cc
get_elem?-lt (x ∷ xs) zero h = omega arith
get_elem?-lt (x ∷ xs) (suc i) h = omega (arith, get_elem?-lt xs i h)

pub lt-get_elem? {ℓ} :
    {A : Type ℓ} (xs : List A) (i : ℕ) → i < length xs → (a : A) × (get_elem? xs i ≡ some a)
lt-get_elem? [] i h = absurd (omega arith)
lt-get_elem? (x ∷ xs) zero h = (x, refl)
lt-get_elem? (x ∷ xs) (suc i) h = lt-get_elem? xs i (omega arith)

-- The first values of a function.
abbrev pub tabulate_from {ℓ} : {A : Type ℓ} → ℕ → ℕ → (ℕ → A) → List A
tabulate_from i zero f = []
tabulate_from i (suc n) f = f i ∷ tabulate_from (suc i) n f

abbrev pub tabulate {ℓ} : {A : Type ℓ} → ℕ → (ℕ → A) → List A
tabulate = tabulate_from 0

tabulate_from_ext {ℓ} :
    {A : Type ℓ} (k n : ℕ) (f : ℕ → A) (xs : List A)
    → length xs ≡ n
    → ((i : ℕ) → i < n → get_elem? xs i ≡ some (f (k + i)))
    → xs ≡ tabulate_from k n f
tabulate_from_ext k zero f [] e h = refl
tabulate_from_ext k zero f (x ∷ xs) e h = absurd (omega arith)
tabulate_from_ext k (suc n) f [] e h = absurd (omega arith)
tabulate_from_ext k (suc n) f (x ∷ xs) e h =
    ap₂ ◌∷◌ (some-injective _ _ (h 0 (omega arith)) ∙ ap f (omega arith)) (
      tabulate_from_ext (suc k) n f xs (omega arith)
        (λ i l. h (suc i) (omega arith) ∙ ap (λ j. some (f j)) (omega arith)))

-- A list that has the values of a function at its positions.
pub tabulate_ext {ℓ} :
    {A : Type ℓ} (n : ℕ) (f : ℕ → A) (xs : List A)
    → length xs ≡ n
    → ((i : ℕ) → i < n → get_elem? xs i ≡ some (f i))
    → xs ≡ tabulate n f
tabulate_ext n f xs e h =
    tabulate_from_ext 0 n f xs e (λ i l. h i l ∙ ap (λ j. some (f j)) (omega arith))
