-- ===== src/Shared/Numbers.antt =====
-- Numbers that a program reads from texts.
use Prim.Native.Char.{code}
use bearlink.Prelude.{
  ℕ, zero, suc, ◌+◌, ◌-◌, ◌*◌, String, Option, none, some, leb, ◌&&◌, ◌||◌, ◌==◌, if◌then◌else◌,
}
use bearlink.Prelude.Text.{trim}
use bearlink.Shared.Hex.{hex_digit}
use bearlink.Shared.Json.{Number, nat, negative}

abbrev push_digit : Option ℕ → ℕ → ℕ
push_digit none d = d
push_digit (some n) d = n * 10 + d

-- the number in front of the first code point that is no digit
read_digits : Option ℕ → String → Option ℕ
read_digits read String.[] = read
read_digits read (String.◌∷◌ c s) =
    let longer = read_digits (some (push_digit read (code c - 48))) s in
    if leb b'0' (code c) && leb (code c) b'9' then longer else read

abbrev negated : Option ℕ → Option Number
negated none = none
negated (some zero) = some (nat zero)
negated (some (suc n)) = some (negative n)

abbrev positive_of : Option ℕ → Option Number
positive_of none = none
positive_of (some n) = some (nat n)

read_signed : String → Option Number
read_signed String.[] = none
read_signed (String.◌∷◌ c s) =
    if code c == b'-'
    then negated (read_digits none s)
    else positive_of (read_digits none (if code c == b'+' then s else String.◌∷◌ c s))

-- Number.parseInt(text, 10), where `none` is NaN
unfoldable pub parse_int : String → Option Number
unfolding read_signed read_digits
parse_int text = read_signed (trim text)

abbrev push_hex : Option ℕ → ℕ → ℕ
push_hex none d = d
push_hex (some n) d = n * 16 + d

read_hex : Option ℕ → String → Option ℕ
read_hex read String.[] = read
read_hex read (String.◌∷◌ c s) = elim (hex_digit (code c)) [
  | none ↦ read
  | some d ↦ read_hex (some (push_hex read d)) s
]

magnitude : String → Option ℕ
unfolding read_digits read_hex
magnitude (String.◌∷◌ c (String.◌∷◌ d s)) =
    if code c == b'0' && (code d == b'x' || code d == b'X')
    then read_hex none s
    else read_digits none (String.◌∷◌ c (String.◌∷◌ d s))
magnitude s = read_digits none s

read_any : String → Option Number
unfolding magnitude
read_any String.[] = none
read_any (String.◌∷◌ c s) =
    if code c == b'-'
    then negated (magnitude s)
    else positive_of (magnitude (if code c == b'+' then s else String.◌∷◌ c s))

-- parseInt(text), which reads hexadecimal digits after 0x
unfoldable pub parse_any_int : String → Option Number
unfolding read_any magnitude read_hex read_digits
parse_any_int text = read_any (trim text)
