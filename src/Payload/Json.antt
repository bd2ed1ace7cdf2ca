-- ===== src/Payload/Json.antt =====
-- A parsed JSON body, and what ECMAScript computes from the scalars in it.
use tatuzin.Prelude.{ℕ, ◌-◌, ◌^◌, String, Bool, false, Option, none, some, leb, ◌==◌, if◌then◌else◌}
use tatuzin.Prelude.Int.{ℤ, abs, signed}

-- A `number`: the sign, the integer part of the magnitude, and whether a fraction is left.
pub data Number : Type 0 where
  finite : Bool → ℕ → Bool → Number
  infinite : Bool → Number
  nan : Number

mutual
  pub data Json : Type 0 where
    null : Json
    bool : Bool → Json
    num : Number → Json
    str : String → Json
    arr : Items → Json
    obj : Fields → Json

  pub data Items : Type 0 where
    nil : Items
    cons : Json → Items → Items

  pub data Fields : Type 0 where
    end : Fields
    field : String → Json → Fields → Fields

-- The built-ins of ECMAScript on texts, numbers and dates that the code calls. A date is a number
-- of milliseconds, and `none` is the invalid date.
pub record Runtime : Type 0 where
  pub to_lower_case : String → String
  pub to_upper_case : String → String
  pub number_of : String → Number
  pub text_of : ℤ → String
  pub date_of : String → Option ℤ
  pub iso_of : ℤ → String
  pub string_of : Json → String

-- `payload[key]`, which is `undefined` on a missing key
unfoldable pub get : Fields → String → Option Json
get end k = none
get (field j v fs) k = if j == k then some v else get fs k

-- `Number.isFinite(n)` and `Math.trunc(n)` together
unfoldable pub trunc : Number → Option ℤ
trunc (finite negative whole fraction) = some (signed negative whole)
trunc (infinite negative) = none
trunc nan = none

-- a finite number that `Number.isInteger` accepts
unfoldable pub integer : Number → Option ℤ
integer (finite negative whole false) = some (signed negative whole)
integer _ = none

-- `Number.isSafeInteger` of an integer
unfoldable pub is_safe_integer : ℤ → Bool
is_safe_integer n = leb (abs n) (2 ^ 53 - 1)
