-- ===== src/Url/Signed/QueryTests.antt =====
-- A signed URL made and read back, with an encoding of the query that can be read in both directions.
use Prim.Native.Char.{code}
use bearlink.Prelude.{
  String, false, Option, none, some, List, [], ◌∷◌, ◌≡◌, refl, ap, ◌∙◌, arith, str_eq, eq_iff, ◌==◌,
  if◌then◌else◌, if_true, if_false,
}
use mathlib.Core.Path.{subst}
use text.Mathlib.TextPositions.{eq_refl}
use bearlink.Prelude.Exec.{ok}
use bearlink.Prelude.Text.Decimal.{show, value-show}
use bearlink.Shared.Json.{nat}
use bearlink.Url.Platform.{Platform}
use bearlink.Url.Memory.{memory}
use bearlink.Url.Signed.{sign_url, valid, verify_url}
use bearlink.Url.Signed.Laws.{verify-sign}

-- each character behind a `c`, and an `e` at the end
abbrev piece : String → String → String
piece String.[] rest = String.◌∷◌ "e" rest
piece (String.◌∷◌ c s) rest = String.◌∷◌ "c" (String.◌∷◌ c (piece s rest))

abbrev first_piece : String → String
first_piece String.[] = ""
first_piece (String.◌∷◌ t String.[]) = ""
first_piece (String.◌∷◌ t (String.◌∷◌ c s)) =
    let rest = first_piece s in if code t == b'e' then "" else String.◌∷◌ c rest

abbrev after_piece : String → String
after_piece String.[] = ""
after_piece (String.◌∷◌ t String.[]) = ""
after_piece (String.◌∷◌ t (String.◌∷◌ c s)) =
    let rest = after_piece s in if code t == b'e' then String.◌∷◌ c s else rest

first_piece-piece : (s rest : String) → first_piece (piece s rest) ≡ s
first_piece-piece String.[] String.[] = refl
first_piece-piece String.[] (String.◌∷◌ c rest) = refl
first_piece-piece (String.◌∷◌ c s) rest = ap (String.◌∷◌ c) (first_piece-piece s rest)

after_piece-piece : (s rest : String) → after_piece (piece s rest) ≡ rest
after_piece-piece String.[] String.[] = refl
after_piece-piece String.[] (String.◌∷◌ c rest) = refl
after_piece-piece (String.◌∷◌ c s) rest = after_piece-piece s rest

abbrev query : List (String × String) → String
query [] = ""
query (e ∷ es) = piece e.0 (piece e.1 (query es))

abbrev platform : Platform
platform = record memory { url_with_params = λ text params. ok (query params) }

abbrev pick : String → String → String → String → String → Option String
pick key k v k' v' = if str_eq key k then some v else if str_eq key k' then some v' else none

-- the value of one of two parameters
abbrev read : String → String → Option String
read key url =
    pick key (first_piece url) (first_piece (after_piece url))
      (first_piece (after_piece (after_piece url)))
      (first_piece (after_piece (after_piece (after_piece url))))

same_pick :
    (key : String) {a b c d k v k' v' : String}
    → a ≡ k
    → b ≡ v
    → c ≡ k'
    → d ≡ v'
    → pick key a b c d ≡ pick key k v k' v'
same_pick key e f g h = rw (e, f, g, h) refl

read-query :
    (key k v k' v' : String) → read key (query ((k, v) ∷ (k', v') ∷ [])) ≡ pick key k v k' v'
read-query key k v k' v' =
    let third = piece v' "" in
    let second = piece k' third in
    let first = piece v second in
    let after_k = after_piece-piece k first in
    let after_v : after_piece (after_piece (piece k first)) ≡ second =
      ap after_piece after_k ∙ after_piece-piece v second in
    let after_k' : after_piece (after_piece (after_piece (piece k first))) ≡ third =
      ap after_piece after_v ∙ after_piece-piece k' third in
    same_pick key (first_piece-piece k first) (ap first_piece after_k ∙ first_piece-piece v second)
      (ap first_piece after_v ∙ first_piece-piece k' third)
      (ap first_piece after_k' ∙ first_piece-piece v' "")

sets :
    (text url key key' v v' : String)
    → str_eq key key' ≡ false
    → platform.url_with_params text ((key, v) ∷ (key', v') ∷ []) ≡ ok url
    → (read key url ≡ some v) × (read key' url ≡ some v')
sets text url key key' v v' differ made =
    let same : query ((key, v) ∷ (key', v') ∷ []) ≡ url = ground arith in
    let other_way : str_eq key' key ≡ false =
      ground (arith, eq_iff key' key, eq_iff key key', eq_refl key) in
    subst (λ (u : String). (read key u ≡ some v) × (read key' u ≡ some v')) same
      (
        read-query key key v key' v' ∙ if_true _ _ (eq_refl key),
        read-query key' key v key' v' ∙ (if_false _ _ other_way ∙ if_true _ _ (eq_refl key')),
      )

abbrev link : String
link = query (("exp", "65") ∷ ("sig", "ab12") ∷ [])

verify-sign_example :
    verify_url platform 6000 "https://b.ly/abc" (read "sig" link) (read "exp" link) "k" ≡ valid
unfolding sign_url show
verify-sign_example =
    verify-sign platform read 5000 6000 "https://b.ly/abc" "k" link (some 60) sets
      (λ n small. ap nat (value-show n)) (λ key text. refl) (omega arith) (omega arith) refl
