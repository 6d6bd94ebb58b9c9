-- ===== src/Url/Domain.antt =====
-- services/url/services/domainFilter.service.js. Host names and list entries are ASCII.
pub mod Permitted
use bearlink.Prelude.{
  ℕ, String, Bool, true, false, Option, none, some, List, [], ◌∷◌, map, any, ◌||◌, str_eq,
  if◌then◌else◌, select,
}
use Prim.Native.String.{◌++◌ as ◌<>◌}
use bearlink.Prelude.Text.{lower, same_codes, ends_with, split, trim}
use bearlink.Shared.Json.{given}

abbrev pub is_filled : List ℕ → Bool
is_filled [] = false
is_filled (c ∷ s) = true

-- the code points of each entry, in lower case
unfoldable pub parse_domain_list : Option String → List (List ℕ)
parse_domain_list env = elim (given env) [
  | none ↦ []
  | some text ↦ select is_filled (map (λ (d : String). lower (trim d)) (split b',' text))
]

-- entry, or a subdomain of it
abbrev pub matches_domain : List ℕ → List ℕ → Bool
matches_domain hostname entry = same_codes hostname entry || ends_with hostname (b'.' ∷ entry)

abbrev pub listed : List ℕ → List (List ℕ) → Bool
listed hostname entries = any (matches_domain hostname) entries

-- what a list is not given, empty, or only commas does: nothing
abbrev pub check_lists : String → List (List ℕ) → List (List ℕ) → Option String
check_lists hostname (e ∷ allowed) blocked =
    if listed (lower hostname) (e ∷ allowed)
    then none
    else some ("Domain '" <> hostname <> "' is not in the allowlist.")
check_lists hostname [] blocked =
    if listed (lower hostname) blocked
    then some ("Domain '" <> hostname <> "' is blocked.")
    else none

abbrev check_hostname : Option String → List (List ℕ) → List (List ℕ) → Option String
check_hostname none allowed blocked = some "Invalid URL."
check_hostname (some hostname) allowed blocked =
    if str_eq hostname "" then some "Invalid URL." else check_lists hostname allowed blocked

-- `none` is { allowed: true }, otherwise it is the reason. The host name is that of `new URL`,
-- which may throw, in lower case.
unfoldable pub check_domain : Option String → Option String → Option String → Option String
check_domain allowlist blocklist hostname =
    check_hostname hostname (parse_domain_list allowlist) (parse_domain_list blocklist)
