-- ===== src/Contracts/Json/Stringify.antt =====
-- `JSON.stringify` and `Buffer.byteLength(text, "utf8")`, on code units of UTF-16.
use api_proxy.Base.{
  ℕ, ◌+◌, ◌/◌, ◌%◌, Bool, true, false, not, ◌&&◌, ◌||◌, Text, codes, decimal, [], ◌∷◌, ◌++◌, ltb,
  leb, ◌==◌, if◌then◌else◌,
}
use api_proxy.Contracts.Json.{Json, Items, Fields, nil, cons, end, field}

abbrev pub is_high_surrogate : ℕ → Bool
is_high_surrogate c = leb 0xD800 c && leb c 0xDBFF

abbrev pub is_low_surrogate : ℕ → Bool
is_low_surrogate c = leb 0xDC00 c && leb c 0xDFFF

abbrev starts_low : Text → Bool
starts_low [] = false
starts_low (c ∷ t) = is_low_surrogate c

abbrev hex_digit : ℕ → ℕ
hex_digit n = if ltb n 10 then 48 + n else 87 + n

-- `\u` and four digits.
abbrev unicode_escape : ℕ → Text
unicode_escape c =
    codes "\\u"
    ++ (hex_digit (c / 4096 % 16)
        ∷ hex_digit (c / 256 % 16)
        ∷ hex_digit (c / 16 % 16)
        ∷ hex_digit (c % 16)
        ∷ [])

unfoldable pub escape_unit : ℕ → Text
escape_unit c =
    if c == 8
    then codes "\\b"
    else if c == 9
    then codes "\\t"
    else if c == 10
    then codes "\\n"
    else if c == 12
    then codes "\\f"
    else if c == 13
    then codes "\\r"
    else if c == 34
    then codes "\\\""
    else if c == 92
    then codes "\\\\"
    else if ltb c 32 || is_high_surrogate c || is_low_surrogate c
    then unicode_escape c
    else c ∷ []

-- `after` says that the head is the second half of a surrogate pair.
unfoldable pub escape : Bool → Text → Text
unfolding escape_unit
escape after [] = []
escape after (c ∷ t) =
    let pair = not after && is_high_surrogate c && starts_low t in
    (if after || pair then c ∷ [] else escape_unit c) ++ escape pair t

unfoldable pub quote : Text → Text
unfolding escape
quote t = codes "\"" ++ (escape false t ++ codes "\"")

abbrev boolean_text : Bool → Text
boolean_text true = codes "true"
boolean_text false = codes "false"

unfoldable mutual
  unfolding quote

  pub stringify : Json → Text
  stringify Json.null = codes "null"
  stringify (Json.boolean b) = boolean_text b
  stringify (Json.number n) = decimal n
  stringify (Json.other_number t) = t
  stringify (Json.text t) = quote t
  stringify (Json.array xs) = codes "[" ++ (stringify_items false xs ++ codes "]")
  stringify (Json.object fs) = codes "{" ++ (stringify_fields false fs ++ codes "}")

  stringify_items : Bool → Items → Text
  stringify_items comma nil = []
  stringify_items comma (cons v xs) =
      (if comma then codes "," else []) ++ (stringify v ++ stringify_items true xs)

  stringify_fields : Bool → Fields → Text
  stringify_fields comma end = []
  stringify_fields comma (field k v fs) =
      (if comma then codes "," else [])
      ++ (quote k ++ (codes ":" ++ (stringify v ++ stringify_fields true fs)))

abbrev unit_bytes : ℕ → ℕ
unit_bytes c = if ltb c 128 then 1 else if ltb c 2048 then 2 else 3

-- A pair takes four bytes, a lone surrogate three (it is replaced by U+FFFD).
unfoldable pub byte_length : Bool → Text → ℕ
byte_length after [] = 0
byte_length after (c ∷ t) =
    let pair = not after && is_high_surrogate c && starts_low t in
    (if after || pair then 2 else unit_bytes c) + byte_length pair t
