-- ===== src/Contracts/Json/Parse.antt =====
-- `JSON.parse`: the tokens of a text, and a value from them by a stack of open brackets. `none` is
-- the SyntaxError.
use api_proxy.Base.{
  ℕ, ◌+◌, ◌-◌, ◌*◌, Bool, ◌&&◌, ◌||◌, Text, text_eq, Option, none, some, List, [], ◌∷◌, ◌++◌, ltb,
  leb, ◌==◌, if◌then◌else◌,
}
use api_proxy.Contracts.Json.{Json, Items, Fields, nil, cons, end, field}
use api_proxy.Contracts.Json.Numeral.{literal}

pub data Token : Type 0 where
  open_brace close_brace open_bracket close_bracket colon comma : Token
  word : Text → Token
  string : Text → Token

-- Where the lexer is: between tokens, in a word, in a string, or in one of its escapes.
pub data Lexing : Type 0 where
  between : Lexing
  in_word : Text → Lexing
  in_string : Text → Lexing
  in_escape : Text → Lexing
  in_unicode : Text → (missing value : ℕ) → Lexing

is_blank : ℕ → Bool
is_blank c = c == 32 || c == 9 || c == 10 || c == 13

punctuation : ℕ → Option Token
punctuation c =
    if c == b'{'
    then some Token.open_brace
    else if c == b'}'
    then some Token.close_brace
    else if c == b'['
    then some Token.open_bracket
    else if c == b']'
    then some Token.close_bracket
    else if c == b':'
    then some Token.colon
    else if c == b','
    then some Token.comma
    else none

-- The unit that `\` and a letter stand for.
simple_escape : ℕ → Option ℕ
simple_escape c =
    if c == b'b'
    then some 8
    else if c == b't'
    then some 9
    else if c == b'n'
    then some 10
    else if c == b'f'
    then some 12
    else if c == b'r'
    then some 13
    else if c == 34 || c == 92 || c == b'/'
    then some c
    else none

hex_value : ℕ → Option ℕ
hex_value c =
    if leb b'0' c && leb c b'9'
    then some (c - 48)
    else if leb b'a' c && leb c b'f'
    then some (c - 87)
    else if leb b'A' c && leb c b'F'
    then some (c - 55)
    else none

-- Where the lexer is after one unit, and the tokens that it has seen the end of.
abbrev Lexed : Type 0
Lexed = Option (Lexing × List Token)

begin_token : ℕ → Lexed
unfolding is_blank punctuation
begin_token c =
    if c == 34
    then some (in_string [], [])
    else if is_blank c
    then some (between, [])
    else elim (punctuation c) [
      | some p ↦ some (between, p ∷ [])
      | none ↦ some (in_word (c ∷ []), [])
    ]

end_word : Text → ℕ → Lexed
unfolding is_blank punctuation
end_word w c =
    if c == 34
    then some (in_string [], Token.word w ∷ [])
    else if is_blank c
    then some (between, Token.word w ∷ [])
    else elim (punctuation c) [
      | some p ↦ some (between, Token.word w ∷ p ∷ [])
      | none ↦ some (in_word (w ++ (c ∷ [])), [])
    ]

in_string_step : Text → ℕ → Lexed
in_string_step s c =
    if c == 34
    then some (between, Token.string s ∷ [])
    else if c == 92
    then some (in_escape s, [])
    else if ltb c 32
    then none
    else some (in_string (s ++ (c ∷ [])), [])

in_escape_step : Text → ℕ → Lexed
unfolding simple_escape
in_escape_step s c =
    if c == b'u'
    then some (in_unicode s 4 0, [])
    else elim (simple_escape c) [ none ↦ none | some u ↦ some (in_string (s ++ (u ∷ [])), []) ]

in_unicode_step : Text → ℕ → ℕ → ℕ → Lexed
unfolding hex_value
in_unicode_step s missing v c = elim (hex_value c) [
  | none ↦ none
  | some d ↦
      if leb missing 1
      then some (in_string (s ++ ((v * 16 + d) ∷ [])), [])
      else some (in_unicode s (missing - 1) (v * 16 + d), [])
]

lex_unit : Lexing → ℕ → Lexed
unfolding begin_token end_word in_string_step in_escape_step in_unicode_step
lex_unit between c = begin_token c
lex_unit (in_word w) c = end_word w c
lex_unit (in_string s) c = in_string_step s c
lex_unit (in_escape s) c = in_escape_step s c
lex_unit (in_unicode s missing v) c = in_unicode_step s missing v c

lex_end : Lexing → Option (List Token)
lex_end between = some []
lex_end (in_word w) = some (Token.word w ∷ [])
lex_end _ = none

lex : Lexing → Text → Option (List Token)
unfolding lex_unit lex_end
lex l [] = lex_end l
lex l (c ∷ t) = elim (lex_unit l c) [
  | none ↦ none
  | some (l', seen) ↦ elim (lex l' t) [ none ↦ none | some ts ↦ some (seen ++ ts) ]
]

-- An array or an object that is still open, with what was read of it.
pub data Frame : Type 0 where
  open_array : Items → Frame
  open_object : Fields → (key : Text) → Frame

-- What the parser expects next; `after` is a value that is complete.
pub data Expecting : Type 0 where
  a_value : Expecting
  first_item : Expecting
  first_key : Expecting
  a_key : Fields → Expecting
  a_colon : Fields → Text → Expecting
  after : Json → Expecting

snoc : Items → Json → Items
snoc nil v = cons v nil
snoc (cons x xs) v = cons x (snoc xs v)

-- A key that comes again has its value replaced.
assign : Text → Json → Fields → Fields
assign k v end = field k v end
assign k v (field j w fs) = if text_eq j k then field j v fs else field j w (assign k v fs)

-- What the parser expects after a token, with which brackets open.
abbrev Parsing : Type 0
Parsing = Option (Expecting × List Frame)

value_token : List Frame → Token → Parsing
unfolding literal
value_token st Token.open_brace = some (first_key, st)
value_token st Token.open_bracket = some (first_item, st)
value_token st (Token.word w) = elim (literal w) [ none ↦ none | some v ↦ some (after v, st) ]
value_token st (Token.string s) = some (after (Json.text s), st)
value_token st _ = none

item_token : List Frame → Token → Parsing
unfolding value_token
item_token st Token.close_bracket = some (after (Json.array nil), st)
item_token st t = value_token (open_array nil ∷ st) t

after_token : Json → List Frame → Token → Parsing
unfolding snoc assign
after_token v (open_array xs ∷ st) Token.comma = some (a_value, open_array (snoc xs v) ∷ st)
after_token v (open_array xs ∷ st) Token.close_bracket = some (after (Json.array (snoc xs v)), st)
after_token v (open_object fs k ∷ st) Token.comma = some (a_key (assign k v fs), st)
after_token v (open_object fs k ∷ st) Token.close_brace =
    some (after (Json.object (assign k v fs)), st)
after_token v _ _ = none

parse_token : Expecting → List Frame → Token → Parsing
unfolding value_token item_token after_token
parse_token a_value st t = value_token st t
parse_token first_item st t = item_token st t
parse_token first_key st Token.close_brace = some (after (Json.object end), st)
parse_token first_key st (Token.string k) = some (a_colon end k, st)
parse_token first_key st _ = none
parse_token (a_key fs) st (Token.string k) = some (a_colon fs k, st)
parse_token (a_key fs) st _ = none
parse_token (a_colon fs k) st Token.colon = some (a_value, open_object fs k ∷ st)
parse_token (a_colon fs k) st _ = none
parse_token (after v) st t = after_token v st t

parse_tokens : Expecting → List Frame → List Token → Option Json
unfolding parse_token
parse_tokens (after v) [] [] = some v
parse_tokens e st [] = none
parse_tokens e st (t ∷ ts) = elim (parse_token e st t) [
  | none ↦ none
  | some (e', st') ↦ parse_tokens e' st' ts
]

unfoldable pub json_parse : Text → Option Json
unfolding lex parse_tokens
json_parse t = elim (lex between t) [ none ↦ none | some ts ↦ parse_tokens a_value [] ts ]
