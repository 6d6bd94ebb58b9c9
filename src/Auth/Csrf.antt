-- ===== src/Auth/Csrf.antt =====
-- services/auth/services/csrf.service.js and services/auth/middlewares/csrf.js. `hmac_hex` stands
-- for createHmac('sha256', secret).update(text).digest('hex').
use bearlink.Prelude.{
  ℕ, String, Bool, true, false, Option, none, some, List, [], ◌∷◌, any, str_eq, length, ◌==◌, ◌≡◌,
  ◌↔◌, refl, arith, if◌then◌else◌,
}
use bearlink.Prelude.Text.{same_codes}
use mathlib.Core.Option.{some-injective}
use bearlink.Prelude.{ap, ◌∙◌}
use bearlink.Shared.Json.{given}
use bearlink.Shared.Hex.{hex_bytes, same_codes_sound, same_codes_refl}

module _ (hmac_hex : String → String → String) where
  abbrev pub generate_csrf_token : String → String → String
  generate_csrf_token jwt secret = hmac_hex secret jwt

  -- the comparison of the two buffers
  abbrev pub same_bytes : List ℕ → List ℕ → Bool
  same_bytes a b = if length a == length b then same_codes a b else false

  unfoldable pub verify_csrf_token : String → String → String → Bool
  verify_csrf_token csrf jwt secret =
      same_bytes (hex_bytes csrf) (hex_bytes (generate_csrf_token jwt secret))

-- What the middleware reads of a request: the method, the cookie `token` and the CSRF header.
pub record Request : Type 0 where
  pub method : String
  pub token : Option String
  pub csrf_token : Option String

abbrev pub mutating_methods : List String
mutating_methods = "POST" ∷ "PUT" ∷ "PATCH" ∷ "DELETE" ∷ []

abbrev pub is_mutating : String → Bool
is_mutating method = any (λ (m : String). str_eq m method) mutating_methods

module _ (hmac_hex : String → String → String) (secret : String) where
  abbrev pub check_header : String → Option String → Option String
  check_header jwt none = some "CSRF token missing."
  check_header jwt (some csrf) =
      if verify_csrf_token hmac_hex csrf jwt secret then none else some "Invalid CSRF token."

  abbrev pub check_cookie : Option String → Option String → Option String
  check_cookie none csrf = none
  check_cookie (some jwt) csrf = check_header jwt csrf

  -- `none` is a call of next(), `some` the error of a 403
  unfoldable pub csrf_middleware : Request → Option String
  csrf_middleware req =
      if is_mutating req.method then check_cookie (given req.token) (given req.csrf_token) else none

  same_bytes_iff : (a b : List ℕ) → (same_bytes hmac_hex a b ≡ true) ↔ (a ≡ b)
  same_bytes_iff a b =
      (λ h. ground (arith, same_codes_sound a b), λ e. rw e (ground (arith, same_codes_refl b)))

  -- The middleware lets a request that changes state and has the cookie of a session through only
  -- with a CSRF token whose bytes are those of the HMAC of that cookie, and it lets such a token
  -- through.
  pub csrf_middleware_iff :
      (req : Request) (jwt : String)
      → is_mutating req.method ≡ true
      → given req.token ≡ some jwt
      → (csrf_middleware req ≡ none) ↔ (
          (csrf : String) × (given req.csrf_token ≡ some csrf)
          × (hex_bytes csrf ≡ hex_bytes (hmac_hex secret jwt)))
  unfolding csrf_middleware verify_csrf_token
  csrf_middleware_iff req jwt mutates cookie = rw (mutates, cookie) (go (given req.csrf_token))
    where
      go :
          (header : Option String)
          → (check_header jwt header ≡ none) ↔ (
              (csrf : String) × (header ≡ some csrf)
              × (hex_bytes csrf ≡ hex_bytes (hmac_hex secret jwt)))
      go none = (λ h. absurd (ground arith), λ (csrf, e, same). absurd (ground arith))
      go (some text) =
          let bytes = same_bytes_iff (hex_bytes text) (hex_bytes (hmac_hex secret jwt)) in
          (
            λ h. (text, refl, bytes.0 (ground arith)),
            λ (csrf, e, same).
                let equal = bytes.1 (ap hex_bytes (some-injective text csrf e) ∙ same) in
                ground arith,
          )
