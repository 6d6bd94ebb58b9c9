-- ===== src/Shared/Hex.antt =====
-- Buffer.from(text, 'hex'), and the comparison of buffers, which signatures and CSRF tokens share.
use bearlink.Prelude.{
  ℕ, ◌+◌, ◌-◌, ◌*◌, String, true, Option, none, some, List, [], ◌∷◌, leb, ◌&&◌, ◌≡◌, refl, arith,
  if◌then◌else◌,
}
use bearlink.Prelude.Text.{codes, same_codes}

unfoldable pub hex_digit : ℕ → Option ℕ
hex_digit c =
    if leb b'0' c && leb c b'9'
    then some (c - b'0')
    else if leb b'a' c && leb c b'f'
    then some (c - b'a' + 10)
    else if leb b'A' c && leb c b'F'
    then some (c - b'A' + 10)
    else none

-- one byte in front of the bytes that follow, if both digits are hexadecimal
abbrev byte : Option ℕ → Option ℕ → List ℕ → List ℕ
byte (some high) (some low) rest = (high * 16 + low) ∷ rest
byte (some high) none rest = []
byte none low rest = []

from_hex : List ℕ → List ℕ
from_hex [] = []
from_hex (c ∷ []) = []
from_hex (c ∷ d ∷ s) = byte (hex_digit c) (hex_digit d) (from_hex s)

-- Buffer.from(text, 'hex') stops at the first pair that is not hexadecimal.
unfoldable pub hex_bytes : String → List ℕ
unfolding from_hex hex_digit
hex_bytes text = from_hex (codes text)

pub same_codes_sound : (s t : List ℕ) → same_codes s t ≡ true → s ≡ t
same_codes_sound [] [] h = refl
same_codes_sound [] (d ∷ t) h = cc
same_codes_sound (c ∷ s) [] h = cc
same_codes_sound (c ∷ s) (d ∷ t) h = ground (arith, same_codes_sound s t)

pub same_codes_refl : (s : List ℕ) → same_codes s s ≡ true
same_codes_refl [] = refl
same_codes_refl (c ∷ s) = ground (arith, same_codes_refl s)
