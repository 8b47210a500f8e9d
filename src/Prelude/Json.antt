-- ===== src/Prelude/Json.antt =====
-- JSON values as Python's json module and the database take them. A dict has its keys in order.
use Prim.Native.Nat.{ℕ}
use Prim.Native.String.{String}
use mathlib.Core.List.{List, [], ◌∷◌}

mutual
  pub data Json (F : Type 0) : Type 0 where
    null : Json F
    text : String → Json F
    int : ℕ → Json F
    float : F → Json F
    array : Items F → Json F
    object : Fields F → Json F

  pub data Items (F : Type 0) : Type 0 where
    no_items : Items F
    item : Json F → Items F → Items F

  pub data Fields (F : Type 0) : Type 0 where
    no_fields : Fields F
    field : String → Json F → Fields F → Fields F

-- A list of values, and a dict of them.
abbrev pub items_of : {F : Type 0} → List (Json F) → Items F
items_of [] = no_items
items_of (j ∷ js) = item j (items_of js)

abbrev pub fields_of : {F : Type 0} → List (String × Json F) → Fields F
fields_of [] = no_fields
fields_of ((k, j) ∷ js) = field k j (fields_of js)
