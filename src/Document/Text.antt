-- ===== src/Document/Text.antt =====
-- Strings as the standard library has them: their bytes, their order, and numbers in decimal.
use Prim.Native.Char.{code}
use Prim.Native.String.{String}
use perch.Common.{
  ℕ, zero, suc, ◌+◌, ◌-◌, ◌*◌, ◌/◌, ◌%◌, ◌^◌, Str, Bool, true, false, ◌&&◌, ◌||◌, Option, none,
  some, [], ◌∷◌, ◌++◌, ltb, leb, ◌==◌, if◌then◌else◌,
}
use perch.Common.Int.{ℤ, pos, negsuc}

-- The bytes of an ASCII literal.
abbrev pub codes : String → Str
codes String.[] = []
codes (String.◌∷◌ c s) = code c ∷ codes s

-- The order of byte strings, `a < b`.
unfoldable pub str_lt : Str → Str → Bool
str_lt xs [] = false
str_lt [] (y ∷ ys) = true
str_lt (x ∷ xs) (y ∷ ys) = ltb x y || (x == y && str_lt xs ys)

-- `u32::to_string`: at most as many digits as the fuel, and ten are enough for 32 bits.
unfoldable pub digits : ℕ → ℕ → Str
digits zero n = []
digits (suc fuel) n =
    let rest = digits fuel (n / 10) in
    if ltb n 10 then (b'0' + n) ∷ [] else rest ++ (b'0' + n % 10) ∷ []

unfoldable pub u32_to_string : ℕ → Str
u32_to_string n = digits 10 n

abbrev pub is_digit : ℕ → Bool
is_digit c = leb b'0' c && leb c b'9'

-- The value of a string of decimal digits.
unfoldable pub decimal : Str → ℕ → Option ℕ
decimal [] acc = some acc
decimal (c ∷ cs) acc = if is_digit c then decimal cs (acc * 10 + (c - b'0')) else none

abbrev pub i128_of : Bool → ℕ → Option ℤ
i128_of true zero = some (pos 0)
i128_of true (suc n) = if ltb n (2 ^ 127) then some (negsuc n) else none
i128_of false n = if ltb n (2 ^ 127) then some (pos n) else none

abbrev pub signed_decimal : Bool → Str → Option ℤ
signed_decimal negative [] = none
signed_decimal negative (c ∷ cs) = elim (decimal (c ∷ cs) 0) [
  | none ↦ none
  | some n ↦ i128_of negative n
]

-- `str::parse::<i128>`: an optional sign, then digits, within the type's range.
unfoldable pub parse_i128 : Str → Option ℤ
parse_i128 [] = none
parse_i128 (c ∷ cs) =
    if c == b'-'
    then signed_decimal true cs
    else if c == b'+'
    then signed_decimal false cs
    else signed_decimal false (c ∷ cs)
