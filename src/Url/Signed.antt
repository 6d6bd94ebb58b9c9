-- ===== src/Url/Signed.antt =====
-- services/url/services/signedUrl.service.js. Query values are texts; Express can also make arrays
-- of repeated parameters, which are not modelled.
pub mod Laws
mod QueryTests
use Prim.Native.String.{◌++◌ as ◌<>◌}
use bearlink.Prelude.{
  ℕ, zero, suc, ◌+◌, ◌/◌, String, Option, none, some, List, [], ◌∷◌, ltb, ◌==◌, not, length,
  if◌then◌else◌,
}
use bearlink.Prelude.Exec.{Result}
use bearlink.Prelude.Text.{same_codes}
use bearlink.Prelude.Text.Decimal.{show}
use bearlink.Shared.Json.{Number, nat, negative, fraction, given}
use bearlink.Shared.Hex.{hex_bytes}
use bearlink.Url.Platform.{Platform}

abbrev pub default_ttl : ℕ
default_ttl = 3600

pub data Verdict : Type 0 where
  valid : Verdict
  invalid : String → Verdict

-- Number.isInteger(n) && n > 0
abbrev pub positive : Number → Option ℕ
positive (nat zero) = none
positive (nat (suc n)) = some (suc n)
positive (negative n) = none
positive (fraction text) = none

module _ (P : Platform) where
  -- `exp` of signUrl
  abbrev pub expiry : ℕ → ℕ → ℕ
  expiry now ttl = now / 1000 + ttl

  -- `sig` of signUrl
  abbrev pub signature : String → String → ℕ → String
  signature short_url secret exp = P.hmac_hex secret (short_url <> ":" <> show exp)

  -- `none` stands for an undefined ttlSeconds
  abbrev pub ttl_or_default : Option ℕ → ℕ
  ttl_or_default none = default_ttl
  ttl_or_default (some ttl) = ttl

  unfoldable pub sign_url : ℕ → String → String → Option ℕ → Result String
  sign_url now short_url secret ttl =
      let exp = expiry now (ttl_or_default ttl) in
      P.url_with_params short_url (("exp", show exp) ∷ ("sig", signature short_url secret exp) ∷ [])

  -- `expected` of verifyUrl
  abbrev pub expected_signature : String → String → String → String
  expected_signature short_url secret exp = P.hmac_hex secret (short_url <> ":" <> exp)

  -- the comparison of the two buffers
  abbrev pub compare_signature : List ℕ → List ℕ → Verdict
  compare_signature sig expected =
      if not (length sig == length expected)
      then invalid "Invalid signature."
      else if not (same_codes sig expected)
      then invalid "Invalid signature."
      else valid

  abbrev pub check_expiry : ℕ → String → String → String → String → Option ℕ → Verdict
  check_expiry now short_url sig exp secret none = invalid "Invalid expiry."
  check_expiry now short_url sig exp secret (some n) =
      if ltb n (now / 1000)
      then invalid "Signed URL has expired."
      else compare_signature (hex_bytes sig) (hex_bytes (expected_signature short_url secret exp))

  abbrev pub check_given : ℕ → String → Option String → Option String → String → Verdict
  check_given now short_url none exp secret = invalid "Missing signature or expiry."
  check_given now short_url (some sig) none secret = invalid "Missing signature or expiry."
  check_given now short_url (some sig) (some exp) secret =
      check_expiry now short_url sig exp secret (positive (P.to_number exp))

  unfoldable pub verify_url : ℕ → String → Option String → Option String → String → Verdict
  verify_url now short_url sig exp secret = check_given now short_url (given sig) (given exp) secret
