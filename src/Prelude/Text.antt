-- ===== src/Prelude/Text.antt =====
-- The string functions of the language that the program calls.
-- `toLowerCase` maps the letters A to Z; no character outside ASCII has a lower case in 0-9, a-f or x,
-- so a text compared with lower-case hexadecimal digits is compared as the language does it.
use Prim.Native.Nat.{ℕ, zero, suc, ◌-◌, ◌/◌, ◌%◌}
use Prim.Native.Char.{Char, code, nul}
use Prim.Native.String.{String, [], ◌∷◌, ◌++◌}
use mathlib.Core.Path.{◌≡◌, refl}
use mathlib.Core.Bool.{◌&&◌}
use mathlib.Core.Option.{Option, none, some}
use momoka.Prelude.Tests.{leb, nat_eq, if◌then◌else◌}
use momoka.Prelude.Int.{ℤ, pos, negsuc}

nth_char : String → ℕ → Char → Char
nth_char [] i d = d
nth_char (c ∷ s) zero d = c
nth_char (c ∷ s) (suc i) d = nth_char s i d

lower_char : Char → Char
unfolding nth_char
lower_char c =
    if leb b'A' (code c) && leb (code c) b'Z'
    then nth_char "abcdefghijklmnopqrstuvwxyz" (code c - b'A') c
    else c

-- `s.toLowerCase()`
unfoldable pub to_lower_case : String → String
unfolding lower_char
to_lower_case [] = []
to_lower_case (c ∷ s) = lower_char c ∷ to_lower_case s

-- What is left of a text behind a prefix.
strip_prefix : String → String → Option String
strip_prefix [] s = some s
strip_prefix (p ∷ ps) [] = none
strip_prefix (p ∷ ps) (c ∷ s) = if nat_eq (code p) (code c) then strip_prefix ps s else none

-- `s.replace(pattern, '')`: the first occurrence goes.
unfoldable pub replace_first : String → String → String
unfolding strip_prefix
replace_first pattern [] = []
replace_first pattern (c ∷ s) = elim (strip_prefix pattern (c ∷ s)) [
  | some rest ↦ rest
  | none ↦ c ∷ replace_first pattern s
]

-- `s.split(separator)[0]` for a separator of one character
unfoldable pub split_head : ℕ → String → String
split_head separator [] = []
split_head separator (c ∷ s) = if nat_eq (code c) separator then [] else c ∷ split_head separator s

digit : ℕ → String
unfolding nth_char
digit d = nth_char "0123456789abcdef" d nul ∷ []

-- The digits of a number; the fuel is the number itself, of which each round takes a part.
radix_digits : ℕ → ℕ → ℕ → String → String
unfolding digit
radix_digits base zero n text = text
radix_digits base (suc fuel) n text =
    let more = radix_digits base fuel (n / base) (digit (n % base) ++ text) in
    if nat_eq n 0 then text else more

radix_text : ℕ → ℕ → String
unfolding radix_digits
radix_text base n = if nat_eq n 0 then "0" else radix_digits base n n ""

signed_text : ℕ → ℤ → String
unfolding radix_text
signed_text base (pos n) = radix_text base n
signed_text base (negsuc n) = "-" ++ radix_text base (suc n)

-- `n.toString()`
unfoldable pub to_decimal : ℤ → String
unfolding signed_text
to_decimal = signed_text 10

-- `n.toString(16)`
unfoldable pub to_hex : ℤ → String
unfolding signed_text
to_hex = signed_text 16

lower_test : to_lower_case "0xBe29Z-é" ≡ "0xbe29z-é"
unfolding to_lower_case
lower_test = refl

replace_test : replace_first "ar://" "ar://x-ar://" ≡ "x-ar://"
unfolding replace_first
replace_test = refl

split_test : split_head b'-' "68d40ddd-a9ae" ≡ "68d40ddd"
unfolding split_head
split_test = refl

decimal_test : to_decimal (pos 37123) ≡ "37123"
unfolding to_decimal
decimal_test = refl

hex_test : to_hex (pos 32613524) ≡ "1f1a494"
unfolding to_hex
hex_test = refl
