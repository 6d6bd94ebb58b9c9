-- ===== src/Prelude/Text.antt =====
-- The string methods that the program uses, over the code points of a text. Case mapping is the
-- ASCII one: the texts that the program maps (aliases, host names, patterns) are ASCII.
pub mod Decimal
use Prim.Native.Nat.{ℕ, ◌+◌}
use Prim.Native.Char.{code}
use Prim.Native.String.{String, ◌++◌ as ◌<>◌}
use mathlib.Core.Bool.{Bool, true, false, ◌&&◌, ◌||◌}
use mathlib.Core.List.{List, [], ◌∷◌, map}
use text.Mathlib.Text.{◌==◌ as str_eq}
use bearlink.Prelude.Tests.{leb, ◌==◌, if◌then◌else◌}

abbrev pub codes : String → List ℕ
codes String.[] = []
codes (String.◌∷◌ c s) = code c ∷ codes s

abbrev pub lower_code : ℕ → ℕ
lower_code c = if leb b'A' c && leb c b'Z' then c + 32 else c

-- s.toLowerCase(), as code points
abbrev pub lower : String → List ℕ
lower s = map lower_code (codes s)

abbrev pub same_codes : List ℕ → List ℕ → Bool
same_codes [] [] = true
same_codes [] (d ∷ t) = false
same_codes (c ∷ s) [] = false
same_codes (c ∷ s) (d ∷ t) = c == d && same_codes s t

-- s.startsWith(t)
abbrev pub begins_with : List ℕ → List ℕ → Bool
begins_with s [] = true
begins_with [] (d ∷ t) = false
begins_with (c ∷ s) (d ∷ t) = c == d && begins_with s t

-- s.endsWith(t)
abbrev pub ends_with : List ℕ → List ℕ → Bool
ends_with [] t = same_codes [] t
ends_with (c ∷ s) t = same_codes (c ∷ s) t || ends_with s t

-- whether t stands somewhere in s
abbrev pub occurs_in : List ℕ → List ℕ → Bool
occurs_in t [] = begins_with [] t
occurs_in t (c ∷ s) = begins_with (c ∷ s) t || occurs_in t s

-- the code points that `trim` removes
abbrev pub is_space : ℕ → Bool
is_space c =
    leb 9 c && leb c 13
    || c == 32
    || c == 160
    || c == 0x1680
    || leb 0x2000 c && leb c 0x200a
    || c == 0x2028
    || c == 0x2029
    || c == 0x202f
    || c == 0x205f
    || c == 0x3000
    || c == 0xfeff

trim_start : String → String
trim_start String.[] = ""
trim_start (String.◌∷◌ c s) = if is_space (code c) then trim_start s else String.◌∷◌ c s

trim_end : String → String
trim_end String.[] = ""
trim_end (String.◌∷◌ c s) =
    let rest = trim_end s in if is_space (code c) && str_eq rest "" then "" else String.◌∷◌ c rest

-- s.trim()
unfoldable pub trim : String → String
unfolding trim_start trim_end
trim s = trim_end (trim_start s)

split_from : ℕ → String → String → List String
split_from sep piece String.[] = piece ∷ []
split_from sep piece (String.◌∷◌ c s) =
    let closed = piece ∷ split_from sep "" s in
    let longer = split_from sep (piece <> String.◌∷◌ c "") s in
    if code c == sep then closed else longer

-- s.split(c), for one character
unfoldable pub split : ℕ → String → List String
unfolding split_from
split sep s = split_from sep "" s
