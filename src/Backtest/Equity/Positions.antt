-- ===== src/Backtest/Equity/Positions.antt =====
-- Positions that get_loc finds in a rising index.
use freqpanda.Prelude.{
  ℕ, suc, ◌≤◌, ◌<◌, ◌≡◌, refl, List, [], ◌∷◌, All, length, IsRising, ◌==◌, Bool-cases, inl, inr,
  arith, ◌+◌,
}
use freqpanda.Prelude.Result.{ok}
use freqpanda.Backtest.Equity.{get_loc, get_loc_from}

abbrev pub FoundFrom : ℕ → List ℕ → ℕ → Type 0
FoundFrom k index t = (i : ℕ) × (get_loc_from k index t ≡ ok i)

-- A time that the index has.
abbrev pub IsFound : List ℕ → ℕ → Type 0
IsFound = FoundFrom 0

found_later : (k x : ℕ) (xs : List ℕ) (t : ℕ) → FoundFrom (suc k) xs t → FoundFrom k (x ∷ xs) t
unfolding get_loc_from
found_later k x xs t (i, found) = elim (Bool-cases (x == t)) [
  | inl e ↦ (k, rw e refl)
  | inr e ↦ (i, rw e found)
]

All-found_later :
    (k x : ℕ) (xs ts : List ℕ) → All (FoundFrom (suc k) xs) ts → All (FoundFrom k (x ∷ xs)) ts
All-found_later k x xs [] all = tt
All-found_later k x xs (t ∷ ts) all = (found_later k x xs t all.0, All-found_later k x xs ts all.1)

All-found : (k : ℕ) (index : List ℕ) → All (FoundFrom k index) index
unfolding get_loc_from
All-found k [] = tt
All-found k (x ∷ xs) = ((k, ground arith), All-found_later k x xs xs (All-found (suc k) xs))

pub index-IsFound : (index : List ℕ) → All (IsFound index) index
index-IsFound index = All-found 0 index

get_loc_from_bounds :
    (k : ℕ) (index : List ℕ) (t i : ℕ)
    → get_loc_from k index t ≡ ok i
    → (k ≤ i) × (i < k + length index)
unfolding get_loc_from
get_loc_from_bounds k [] t i e = cc
get_loc_from_bounds k (x ∷ xs) t i e = ground (arith, get_loc_from_bounds (suc k) xs t i)

pub get_loc-lt-length : (index : List ℕ) (t : ℕ) {i : ℕ} → get_loc index t ≡ ok i → i < length index
get_loc-lt-length index t e = omega (arith, get_loc_from_bounds 0 index t _ e)

get_loc_from-ge :
    (k b : ℕ) (index : List ℕ) (t i : ℕ) → IsRising b index → get_loc_from k index t ≡ ok i → b ≤ t
unfolding get_loc_from
get_loc_from-ge k b [] t i r e = cc
get_loc_from-ge k b (x ∷ xs) t i r e = ground (arith, get_loc_from-ge (suc k) (suc x) xs t i r.1)

get_loc_from-lt :
    (k b : ℕ) (index : List ℕ) (t u i j : ℕ)
    → IsRising b index
    → get_loc_from k index t ≡ ok i
    → get_loc_from k index u ≡ ok j
    → t < u
    → i < j
unfolding get_loc_from
get_loc_from-lt k b [] t u i j r e e' h = cc
get_loc_from-lt k b (x ∷ xs) t u i j r e e' h = ground (
  arith,
  get_loc_from-ge (suc k) (suc x) xs t i r.1,
  get_loc_from_bounds (suc k) xs u j,
  get_loc_from-lt (suc k) (suc x) xs t u i j r.1,
)

-- A later time has a later position.
pub get_loc-lt :
    (b : ℕ) (index : List ℕ) (t u : ℕ) {i j : ℕ}
    → IsRising b index
    → get_loc index t ≡ ok i
    → get_loc index u ≡ ok j
    → t < u
    → i < j
get_loc-lt b index t u r e e' h = get_loc_from-lt 0 b index t u _ _ r e e' h
