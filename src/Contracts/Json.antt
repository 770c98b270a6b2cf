-- ===== src/Contracts/Json.antt =====
-- Values of type `unknown`: what `JSON.parse` returns and what the document client stores.
pub mod Stringify
pub mod Numeral
pub mod Parse
use api_proxy.Base.{ℕ, Bool, Text, Option, none, some, List, [], ◌∷◌, text_eq, if◌then◌else◌}

-- A number that is no natural number (negative or fractional) is `other_number`, with its spelling.
mutual
  pub data Json : Type 0 where
    null : Json
    boolean : Bool → Json
    number : ℕ → Json
    other_number : Text → Json
    text : Text → Json
    array : Items → Json
    object : Fields → Json

  pub data Items : Type 0 where
    nil : Items
    cons : Json → Items → Items

  pub data Fields : Type 0 where
    end : Fields
    field : Text → Json → Fields → Fields

-- `value[key]`
unfoldable pub property : Text → Fields → Option Json
property k end = none
property k (field j v fs) = if text_eq j k then some v else property k fs

abbrev pub entries : Fields → List (Text × Json)
entries end = []
entries (field k v fs) = (k, v) ∷ entries fs
