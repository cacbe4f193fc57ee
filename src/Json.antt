-- ===== src/Json.antt =====
-- The values that the firmware's JSON library hands over, as the fields of `cJSON` that the code
-- reads, and what the code takes from the C library's `double`. Neither is this repository's code:
-- the type of doubles and its operations are a parameter, and so are parsing and lookup.
use remote_wake.Base.{ℕ, Bool, true, false, Option, some, none, List}
use remote_wake.Base.Int.{ℤ}

-- `double`: the comparisons, conversions and functions that the code calls.
pub record Doubles : Type 1 where
  pub Double : Type 0
  pub is_nan : Double → Bool
  pub is_inf : Double → Bool
  pub lt : Double → Double → Bool
  pub eq : Double → Double → Bool
  pub floor : Double → Double
  pub trunc : Double → Double
  pub fabs : Double → Double
  pub of_int : ℤ → Double
  pub to_int : Double → ℤ
  pub print_g : ℕ → Double → List ℕ
  pub strtod : List ℕ → Double

-- One constructor for each type of item. A C string is its bytes before the NUL, and `none` is a
-- NULL pointer. A member of an object has the address of its item, its key and its value.
mutual
  pub data Json (D : Type 0) : Type 0 where
    invalid null false_item true_item other : Json D
    num : D → Json D
    str raw : Option (List ℕ) → Json D
    arr : Items D → Json D
    obj : Members D → Json D

  pub data Items (D : Type 0) : Type 0 where
    nil : Items D
    cons : Json D → Items D → Items D

  pub data Members (D : Type 0) : Type 0 where
    end : Members D
    member : ℕ → Option (List ℕ) → Json D → Members D → Members D

module _ {D : Type 0} where
  abbrev pub is_object : Option (Json D) → Bool
  is_object (some (obj ms)) = true
  is_object _ = false

  -- The string of a string item.
  abbrev pub string_of : Option (Json D) → Option (List ℕ)
  string_of (some (str s)) = s
  string_of _ = none

  abbrev pub number_of : Option (Json D) → Option D
  number_of (some (num d)) = some d
  number_of _ = none
