-- ===== src/Shared/Json.antt =====
-- JSON values, as request bodies and event payloads carry them. A missing property is `none`.
use Prim.Native.String.{◌++◌ as ◌<>◌}
use bearlink.Prelude.{
  ℕ, zero, suc, ◌+◌, String, Bool, true, false, Option, none, some, List, [], ◌∷◌, str_eq,
  if◌then◌else◌,
}
use bearlink.Prelude.Text.Decimal.{show}

-- A JavaScript number: a natural number, a negative integer -(n + 1), or any other number, which
-- the program only prints.
pub data Number : Type 0 where
  nat negative : ℕ → Number
  fraction : String → Number

mutual
  pub data Json : Type 0 where
    null : Json
    bool : Bool → Json
    num : Number → Json
    str : String → Json
    arr : Items → Json
    obj : Fields → Json

  pub data Items : Type 0 where
    nil : Items
    cons : Json → Items → Items

  pub data Fields : Type 0 where
    end : Fields
    field : String → Json → Fields → Fields

-- obj[name]
abbrev pub property : String → Fields → Option Json
property name end = none
property name (field key value rest) = if str_eq key name then some value else property name rest

abbrev pub fields_of : List (String × Option Json) → Fields
fields_of [] = end
fields_of ((name, none) ∷ ps) = fields_of ps
fields_of ((name, some value) ∷ ps) = field name value (fields_of ps)

-- An object literal. A property that is undefined leaves no trace in its JSON.
abbrev pub object : List (String × Option Json) → Json
object ps = obj (fields_of ps)

-- `x || null` and `x ?? null` of a text that may be missing
abbrev pub or_null : Option String → Json
or_null none = null
or_null (some s) = str s

-- Whether `if (value)` takes its branch.
abbrev pub truthy : Json → Bool
truthy null = false
truthy (bool b) = b
truthy (num (nat zero)) = false
truthy (num (nat (suc n))) = true
truthy (num (negative n)) = true
truthy (num (fraction s)) = if str_eq s "NaN" then false else true
truthy (str s) = if str_eq s "" then false else true
truthy (arr items) = true
truthy (obj fields) = true

abbrev pub number_text : Number → String
number_text (nat n) = show n
number_text (negative n) = "-" <> show (n + 1)
number_text (fraction s) = s

unfoldable mutual
  -- String(value)
  pub to_text : Json → String
  to_text null = "null"
  to_text (bool true) = "true"
  to_text (bool false) = "false"
  to_text (num n) = number_text n
  to_text (str s) = s
  to_text (arr items) = join_items items
  to_text (obj fields) = "[object Object]"

  -- an element of an array, where null prints as nothing
  pub item_text : Json → String
  item_text null = ""
  item_text (bool true) = "true"
  item_text (bool false) = "false"
  item_text (num n) = number_text n
  item_text (str s) = s
  item_text (arr items) = join_items items
  item_text (obj fields) = "[object Object]"

  pub join_items : Items → String
  join_items nil = ""
  join_items (cons value nil) = item_text value
  join_items (cons value (cons next items)) = item_text value <> "," <> join_items (cons next items)

-- an environment variable, header or query value: the empty text is falsy
abbrev pub given : Option String → Option String
given none = none
given (some s) = if str_eq s "" then none else some s
