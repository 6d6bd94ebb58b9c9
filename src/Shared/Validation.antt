-- ===== src/Shared/Validation.antt =====
-- services/shared/utils/validation.js
use bearlink.Prelude.{
  ℕ, ◌+◌, String, Bool, true, false, Option, none, some, List, [], ◌∷◌, any, ◌||◌, ◌&&◌, str_eq,
  leb, if◌then◌else◌,
}
use bearlink.Prelude.Text.{codes, trim}
use bearlink.Shared.Json.{Json, null, str}

abbrev http_or_https : Option String → Bool
http_or_https none = false
http_or_https (some protocol) = str_eq protocol "http:" || str_eq protocol "https:"

-- isValidUrl, on a text; `protocol_of` is the protocol of `new URL(text)`, which may throw
unfoldable pub is_valid_url : (String → Option String) → String → Bool
is_valid_url protocol_of text = if str_eq text "" then false else http_or_https (protocol_of text)

unfoldable pub is_safe_redirect_url : (String → Option String) → String → Bool
unfolding is_valid_url
is_safe_redirect_url protocol_of text = is_valid_url protocol_of text

-- `length` of a text: its UTF-16 code units
abbrev pub units : List ℕ → ℕ
units [] = 0
units (c ∷ cs) = if leb 0x10000 c then units cs + 2 else units cs + 1

abbrev pub is_missing : Option Json → Bool
is_missing none = true
is_missing (some null) = true
is_missing (some (str s)) = str_eq s ""
is_missing (some _) = false

-- validateRequiredFields, on the named fields of a body: those that are missing
abbrev pub missing_of : List (String × Option Json) → List String
missing_of [] = []
missing_of ((name, value) ∷ fields) =
    if is_missing value then name ∷ missing_of fields else missing_of fields

-- isValidEmail; `is_email` is validator.isEmail
abbrev pub is_valid_email : (String → Bool) → Option Json → Bool
is_valid_email is_email (some (str s)) = if str_eq s "" then false else is_email s
is_valid_email is_email _ = false

abbrev pub has_code : ℕ → ℕ → List ℕ → Bool
has_code low high = any (λ c. leb low c && leb c high)

abbrev pub is_strong : List ℕ → Bool
is_strong cs =
    if leb 8 (units cs)
    then has_code b'A' b'Z' cs && has_code b'a' b'z' cs && has_code b'0' b'9' cs
    else false

-- isValidPassword
abbrev pub is_valid_password : Option Json → Bool
is_valid_password (some (str s)) = if str_eq s "" then false else is_strong (codes s)
is_valid_password _ = false

abbrev pub is_name_length : ℕ → Bool
is_name_length n = leb 1 n && leb n 100

-- isValidName
abbrev pub is_valid_name : Option Json → Bool
is_valid_name (some (str s)) =
    if str_eq s "" then false else is_name_length (units (codes (trim s)))
is_valid_name _ = false
