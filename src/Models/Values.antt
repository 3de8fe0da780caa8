-- ===== src/Models/Values.antt =====
-- The scalars of a submission. A submission is JSON that nobody has checked, and TypeScript's types are
-- not there at run time: a property is a value of the language, `undefined` where the object lacks it. The
-- numbers of blocks and the times of receipts, which the code only computes with, are numbers by type.
use momoka.Prelude.{ℤ, String, Bool, true, false, not, ◌==◌, eq_int, eq_string, to_decimal}

-- `BigNumberish`, `Arrayish`, `string` and `number`. An object is given by its `toString()`: two objects
-- that were parsed apart are never `===`. A number is an integer: fractions are not modelled.
pub data Value : Type 0 where
  undefined : Value
  null : Value
  boolean : Bool → Value
  text : String → Value
  number : ℤ → Value
  object : String → Value

-- `a === b`, for values from different places
unfoldable pub strictly_equal : Value → Value → Bool
strictly_equal undefined undefined = true
strictly_equal null null = true
strictly_equal (boolean true) (boolean b) = b
strictly_equal (boolean false) (boolean b) = not b
strictly_equal (text s) (text t) = s == t
strictly_equal (number m) (number n) = m == n
strictly_equal _ _ = false

-- `${value}`
unfoldable pub template_text : Value → String
template_text undefined = "undefined"
template_text null = "null"
template_text (boolean true) = "true"
template_text (boolean false) = "false"
template_text (text s) = s
template_text (number n) = to_decimal n
template_text (object s) = s
