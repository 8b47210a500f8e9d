-- ===== src/Api/Results/Finite.antt =====
-- What is written to a jsonb column is strict JSON: no number in it is infinite or NaN.
use freqpanda.Prelude.{◌≡◌, refl, ap, ap₂, ◌↔◌, Bool, true, Bool-cases, inl, inr}
use freqpanda.Prelude.Json.{
  Json, Items, Fields, null, text, int, float, array, object, no_items, item, no_fields, field,
}
use freqpanda.Api.Results.{json_safe, json_safe_items, json_safe_fields}

module _ {F : Type 0} (is_finite : F → Bool) where
  -- Every float of a document is finite.
  mutual
    pub IsFinite : Json F → Type 0
    IsFinite null = Unit
    IsFinite (text s) = Unit
    IsFinite (int n) = Unit
    IsFinite (float x) = is_finite x ≡ true
    IsFinite (array js) = AllFinite js
    IsFinite (object fs) = FieldsFinite fs

    pub AllFinite : Items F → Type 0
    AllFinite no_items = Unit
    AllFinite (item j js) = IsFinite j × AllFinite js

    pub FieldsFinite : Fields F → Type 0
    FieldsFinite no_fields = Unit
    FieldsFinite (field k j fs) = IsFinite j × FieldsFinite fs

  mutual
    unfolding json_safe json_safe_items json_safe_fields IsFinite AllFinite FieldsFinite

    safe-IsFinite : (j : Json F) → IsFinite (json_safe is_finite j)
    safe-IsFinite null = tt
    safe-IsFinite (text s) = tt
    safe-IsFinite (int n) = tt
    safe-IsFinite (float x) = elim (Bool-cases (is_finite x)) [ inl e ↦ rw e e | inr e ↦ rw e tt ]
    safe-IsFinite (array js) = safe-AllFinite js
    safe-IsFinite (object fs) = safe-FieldsFinite fs

    safe-AllFinite : (js : Items F) → AllFinite (json_safe_items is_finite js)
    safe-AllFinite no_items = tt
    safe-AllFinite (item j js) = (safe-IsFinite j, safe-AllFinite js)

    safe-FieldsFinite : (fs : Fields F) → FieldsFinite (json_safe_fields is_finite fs)
    safe-FieldsFinite no_fields = tt
    safe-FieldsFinite (field k j fs) = (safe-IsFinite j, safe-FieldsFinite fs)

  mutual
    unfolding json_safe json_safe_items json_safe_fields IsFinite AllFinite FieldsFinite

    safe_of_IsFinite : (j : Json F) → IsFinite j → json_safe is_finite j ≡ j
    safe_of_IsFinite null h = refl
    safe_of_IsFinite (text s) h = refl
    safe_of_IsFinite (int n) h = refl
    safe_of_IsFinite (float x) h = rw h refl
    safe_of_IsFinite (array js) h = ap array (safe_of_AllFinite js h)
    safe_of_IsFinite (object fs) h = ap object (safe_of_FieldsFinite fs h)

    safe_of_AllFinite : (js : Items F) → AllFinite js → json_safe_items is_finite js ≡ js
    safe_of_AllFinite no_items h = refl
    safe_of_AllFinite (item j js) h = ap₂ item (safe_of_IsFinite j h.0) (safe_of_AllFinite js h.1)

    safe_of_FieldsFinite : (fs : Fields F) → FieldsFinite fs → json_safe_fields is_finite fs ≡ fs
    safe_of_FieldsFinite no_fields h = refl
    safe_of_FieldsFinite (field k j fs) h =
        ap₂ (field k) (safe_of_IsFinite j h.0) (safe_of_FieldsFinite fs h.1)

  -- What _json_safe gives has only finite numbers in it, and it leaves a document as it is exactly
  -- when all its numbers are finite.
  pub json_safe-IsFinite :
      (j : Json F) → IsFinite (json_safe is_finite j) × ((json_safe is_finite j ≡ j) ↔ IsFinite j)
  json_safe-IsFinite j = (safe-IsFinite j, (λ e. rw e at (safe-IsFinite j), safe_of_IsFinite j))
