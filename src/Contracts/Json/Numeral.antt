-- ===== src/Contracts/Json/Numeral.antt =====
-- The words of a JSON text that are neither punctuation nor strings: literals and numbers.
use api_proxy.Base.{
  ℕ, ◌+◌, ◌-◌, ◌*◌, ◌/◌, ◌%◌, Bool, true, false, not, ◌&&◌, ◌||◌, Text, codes, text_eq, Option,
  none, some, [], ◌∷◌, ◌++◌, ltb, leb, ◌==◌, length, if◌then◌else◌,
}
use Prim.Native.Nat.{◌^◌}
use api_proxy.Contracts.Json.{Json}

unfoldable pub is_digit : ℕ → Bool
is_digit c = leb b'0' c && leb c b'9'

-- The digits that a text begins with, and the rest.
unfoldable pub digits : Text → Text × Text
unfolding is_digit
digits [] = ([], [])
digits (c ∷ t) = let (ds, rest) = digits t in if is_digit c then (c ∷ ds, rest) else ([], c ∷ t)

unfoldable pub value_from : ℕ → Text → ℕ
value_from n [] = n
value_from n (d ∷ ds) = value_from (n * 10 + (d - 48)) ds

-- `0`, or digits that do not begin with it.
is_integer_part : Text → Bool
is_integer_part [] = false
is_integer_part (d ∷ []) = true
is_integer_part (d ∷ e ∷ ds) = not (d == b'0')

-- A fraction, if there is one: its digits and the rest. `none` is a point with no digit after it.
fraction_part : Text → Option (Text × Text)
unfolding digits
fraction_part [] = some ([], [])
fraction_part (c ∷ t) =
    let (ds, rest) = digits t in
    if c == b'.' then (if length ds == 0 then none else some (ds, rest)) else some ([], c ∷ t)

-- An exponent up to the end: whether it is negative, and its value.
exponent_digits : Bool → Text → Option (Bool × ℕ)
unfolding digits value_from
exponent_digits negative t =
    let (ds, rest) = digits t in
    if length ds == 0 || not (length rest == 0) then none else some (negative, value_from 0 ds)

exponent_signed : Text → Option (Bool × ℕ)
unfolding exponent_digits
exponent_signed [] = none
exponent_signed (c ∷ t) =
    if c == b'+'
    then exponent_digits false t
    else if c == b'-'
    then exponent_digits true t
    else exponent_digits false (c ∷ t)

exponent_part : Text → Option (Bool × ℕ)
unfolding exponent_signed
exponent_part [] = some (false, 0)
exponent_part (c ∷ t) = if c == b'e' || c == b'E' then exponent_signed t else none

-- Powers of ten past those of the doubles are not computed.
natural_value : Text → ℕ → (up down : ℕ) → Json
natural_value word m up down =
    if m == 0
    then Json.number 0
    else if ltb (down + 400) up
    then Json.other_number word
    else if leb down up
    then Json.number (m * 10 ^ (up - down))
    else if ltb (up + length word) down
    then Json.other_number word
    else if m % 10 ^ (down - up) == 0
    then Json.number (m / 10 ^ (down - up))
    else Json.other_number word

signed_value : Text → Bool → ℕ → (up down : ℕ) → Json
unfolding natural_value
signed_value word negative m up down =
    if negative && not (m == 0) then Json.other_number word else natural_value word m up down

module _ (word : Text) (negative : Bool) where
  after_fraction : Text → Text × Text → Option Json
  unfolding exponent_part signed_value value_from
  after_fraction ds (fs, rest) = elim (exponent_part rest) [
    | none ↦ none
    | some (below, e) ↦ some (
        signed_value word negative (value_from 0 (ds ++ fs)) (if below then 0 else e)
          (length fs + (if below then e else 0)))
  ]

  unsigned : Text → Option Json
  unfolding digits fraction_part after_fraction is_integer_part
  unsigned t =
      let (ds, rest) = digits t in
      if is_integer_part ds
      then elim (fraction_part rest) [ none ↦ none | some r ↦ after_fraction ds r ]
      else none

-- A number as a natural number where it is one. It is read exactly, not as a double.
numeral : Text → Option Json
unfolding unsigned
numeral [] = none
numeral (c ∷ t) = if c == b'-' then unsigned (c ∷ t) true t else unsigned (c ∷ t) false (c ∷ t)

unfoldable pub literal : Text → Option Json
unfolding numeral
literal word =
    if text_eq word (codes "null")
    then some Json.null
    else if text_eq word (codes "true")
    then some (Json.boolean true)
    else if text_eq word (codes "false")
    then some (Json.boolean false)
    else numeral word
