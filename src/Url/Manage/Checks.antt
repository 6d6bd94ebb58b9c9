-- ===== src/Url/Manage/Checks.antt =====
-- The checks of services/url/controllers/urls.controller.js, in the order of the handlers. A check
-- throws, answers, or goes on with a value.
use bearlink.Prelude.{
  ℕ, ◌||◌, ◌&&◌, String, Bool, true, Option, none, some, List, [], ◌∷◌, all, any, length, leb, ◌==◌,
  not, if◌then◌else◌, ◌⊎◌, inl, inr,
}
use Prim.Native.String.{◌++◌ as ◌<>◌}
use bearlink.Prelude.Exec.{Result, ok, err, other}
use bearlink.Prelude.Text.{codes, lower, same_codes}
use bearlink.Shared.Json.{
  Json, null, num, str, arr, obj, Items, nil, cons, Fields, end, field, nat, to_text, given,
}
use bearlink.Shared.Validation.{is_valid_url}
use bearlink.Url.Platform.{Platform}
use bearlink.Url.Domain.{check_domain}
use bearlink.Url.Manage.{Reply, fail, Config, Services}

abbrev pub Check : Type 0 → Type 0
Check A = Result (Reply ⊎ A)

module _ {A B : Type 0} where
  infixl 5 ◌>>=◌
  abbrev pub ◌>>=◌ : Check A → (A → Check B) → Check B
  ◌>>=◌ (ok (inr a)) f = f a
  ◌>>=◌ (ok (inl reply)) f = ok (inl reply)
  ◌>>=◌ (err e) f = err e

module _ {A : Type 0} where
  abbrev pub go_on : A → Check A
  go_on a = ok (inr a)

  abbrev pub answer : ℕ → String → Check A
  answer code text = ok (inl (fail code text))

abbrev is_alias_code : ℕ → Bool
is_alias_code c =
    leb b'a' c && leb c b'z'
    || leb b'A' c && leb c b'Z'
    || leb b'0' c && leb c b'9'
    || c == b'_'
    || c == b'-'

-- ALIAS_REGEX.test
unfoldable pub matches_alias : String → Bool
matches_alias text =
    leb 3 (length (codes text)) && leb (length (codes text)) 50 && all is_alias_code (codes text)

-- RESERVED_SLUGS.includes(alias.toLowerCase())
unfoldable pub is_reserved : String → Bool
is_reserved name =
    any (λ (slug : String). same_codes (lower name) (codes slug)) ("urls" ∷ "health" ∷ "ready" ∷ [])

abbrev pub alias_message : String
alias_message =
    "Custom alias must be 3-50 characters and contain only letters, numbers, hyphens, and underscores."

-- validateAlias, and the return on its error. The pattern tests String(alias); toLowerCase throws on
-- a value that is no text.
abbrev pub check_alias : Json → Check String
check_alias (str name) =
    if not (matches_alias name)
    then answer 400 alias_message
    else if is_reserved name
    then answer 400 "This custom alias is reserved."
    else go_on name
check_alias value = if matches_alias (to_text value) then err other else answer 400 alias_message

-- an alias that is undefined is not checked
abbrev pub check_new_alias : Option Json → Check (Option String)
check_new_alias none = go_on none
check_new_alias (some value) = do name ← check_alias value; go_on (some name)

-- `null` removes the alias of a row
abbrev pub check_changed_alias : Option Json → Check (Option (Option String))
check_changed_alias none = go_on none
check_changed_alias (some null) = go_on (some none)
check_changed_alias (some value) = do name ← check_alias value; go_on (some (some name))

-- VALID_REDIRECT_TYPES.includes
abbrev pub check_redirect_type : Json → Check ℕ
check_redirect_type (num (nat n)) =
    if n == 301 || n == 302 then go_on n else answer 400 "redirectType must be 301 or 302."
check_redirect_type _ = answer 400 "redirectType must be 301 or 302."

abbrev pub cons_text : String → Option (List String) → Option (List String)
cons_text s none = none
cons_text s (some rest) = some (s ∷ rest)

-- the elements, if all are texts
abbrev pub texts_of : Items → Option (List String)
texts_of nil = some []
texts_of (cons (str s) rest) = cons_text s (texts_of rest)
texts_of (cons _ rest) = none

abbrev list_of_texts : Json → Option (List String)
list_of_texts (arr items) = texts_of items
list_of_texts _ = none

abbrev tags_or_answer : Option (List String) → Check (List String)
tags_or_answer none = answer 400 "tags must be an array of strings."
tags_or_answer (some tags) = go_on tags

abbrev pub check_tags : Json → Check (List String)
check_tags value = tags_or_answer (list_of_texts value)

-- the first property that is neither a text nor a number
abbrev pub bad_param : Fields → Option String
bad_param end = none
bad_param (field key (str s) rest) = bad_param rest
bad_param (field key (num n) rest) = bad_param rest
bad_param (field key _ rest) = some key

abbrev params_or_answer : Json → Option String → Check Json
params_or_answer value none = go_on value
params_or_answer value (some key) =
    answer 400 ("utmParams." <> key <> " must be a string or number.")

-- validateUtmParams, and the return on its error
abbrev pub check_utm : Json → Check Json
check_utm null = go_on null
check_utm (obj fields) = params_or_answer (obj fields) (bad_param fields)
check_utm _ = answer 400 "utmParams must be a plain object."

module _ {A : Type 0} where
  -- `if (x !== undefined)`
  abbrev pub if_given : (Json → Check A) → Option Json → Check (Option A)
  if_given check none = go_on none
  if_given check (some value) = do a ← check value; go_on (some a)

module _ (P : Platform) (S : Services P) (config : Config) (now : ℕ) where
  abbrev date_or_answer : Option ℕ → Check (Option ℕ)
  date_or_answer none = answer 400 "expiresAt must be a valid ISO 8601 date."
  date_or_answer (some t) =
      if leb t now then answer 400 "expiresAt must be in the future." else go_on (some t)

  -- parseExpiresAt, and the return on its error
  abbrev pub check_expires_at : Json → Check (Option ℕ)
  check_expires_at null = go_on none
  check_expires_at value = date_or_answer (S.time_of value)

  -- isValidUrl, for a value that is given
  abbrev pub check_url : Json → Check String
  check_url (str text) =
      if is_valid_url P.url_protocol text
      then go_on text
      else answer 400 "Invalid URL. Must be a valid HTTP or HTTPS URL."
  check_url _ = answer 400 "Invalid URL. Must be a valid HTTP or HTTPS URL."

  abbrev pub allowed_or_answer : String → Option String → Check String
  allowed_or_answer text none = go_on text
  allowed_or_answer text (some reason) = answer 422 reason

  -- checkDomain
  abbrev pub check_allowed : String → Check String
  check_allowed text =
      allowed_or_answer text
        (check_domain config.domain_allowlist config.domain_blocklist (S.hostname_of text))

  abbrev pub is_safe : Result ℕ → Bool
  is_safe (ok count) = count == 0
  is_safe (err e) = true

  -- checkUrlSafety: without a key, and when the API cannot be asked, every URL is safe
  unfoldable pub check_url_safety : Option String → String → Bool
  check_url_safety key text = elim (given key) [
    | none ↦ true
    | some k ↦ is_safe (S.threat_matches k text)
  ]

  abbrev pub check_safe : String → Check String
  check_safe text =
      if check_url_safety config.safe_browsing_key text
      then go_on text
      else answer 422 "URL flagged as unsafe by Safe Browsing check."

  abbrev pub hashed : Result String → Check String
  hashed (ok hash) = go_on hash
  hashed (err e) = err e

  abbrev pub hash : Json → Check String
  hash value = hashed (S.hash_password value)

  -- `null` removes the password of a row
  abbrev pub hash_changed : Json → Check (Option String)
  hash_changed null = go_on none
  hash_changed value = do h ← hash value; go_on (some h)
