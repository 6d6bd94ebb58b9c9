-- ===== src/Url/Page/Escaping.antt =====
-- What escapeHtml makes of a text: an entity for each of four characters, and no markup.
use Prim.Native.Char.{Char, code}
use Prim.Native.String.{◌++◌ as ◌<>◌}
use text.Mathlib.TextLemmas.{nil-append, cons-append, append_assoc, append-nil}
use bearlink.Prelude.{
  ℕ, String, Bool, true, false, ◌≡◌, refl, sym, ap, ◌∙◌, ◌==◌, ◌||◌, ◌⊎◌, inl, inr, Bool-cases,
  arith, if◌then◌else◌, if_true, if_false,
}
use bearlink.Url.Page.{replace, escape_html}

replace-append :
    (c : ℕ) (by s t : String) → replace c by (s <> t) ≡ replace c by s <> replace c by t
unfolding replace
replace-append c by String.[] t = rw (nil-append t, nil-append (replace c by t))
replace-append c by (String.◌∷◌ d s) t =
    let later = replace-append c by s t in
    ap (replace c by) (cons-append d s t) ∙ elim (Bool-cases (code d == c)) [
      | inl here ↦
          if_true _ _ here
          ∙ ap (λ (x : String). by <> x) later
          ∙ sym (append_assoc by (replace c by s) (replace c by t))
          ∙ ap (λ (x : String). x <> replace c by t) (sym (if_true _ _ here))
      | inr elsewhere ↦
          if_false _ _ elsewhere
          ∙ ap (String.◌∷◌ d) later
          ∙ sym (cons-append d (replace c by s) (replace c by t))
          ∙ ap (λ (x : String). x <> replace c by t) (sym (if_false _ _ elsewhere))
    ]

-- the text that stands for one character
abbrev pub entity : Char → String
entity c =
    if code c == b'&'
    then "&amp;"
    else if code c == b'<'
    then "&lt;"
    else if code c == b'>'
    then "&gt;"
    else if code c == b'"'
    then "&quot;"
    else String.◌∷◌ c ""

-- each character on its own, in one pass
unfoldable pub entities : String → String
entities String.[] = ""
entities (String.◌∷◌ c s) = entity c <> entities s

-- the four replacements of one character
abbrev chained : String → String
chained s =
    replace b'"' "&quot;" (replace b'>' "&gt;" (replace b'<' "&lt;" (replace b'&' "&amp;" s)))

chained-append : (s t : String) → chained (s <> t) ≡ chained s <> chained t
chained-append s t =
    ap (λ (x : String). replace b'"' "&quot;" (replace b'>' "&gt;" (replace b'<' "&lt;" x)))
      (replace-append b'&' "&amp;" s t)
    ∙ ap (λ (x : String). replace b'"' "&quot;" (replace b'>' "&gt;" x))
        (replace-append b'<' "&lt;" (replace b'&' "&amp;" s) (replace b'&' "&amp;" t))
    ∙ ap (λ (x : String). replace b'"' "&quot;" x)
        (replace-append b'>' "&gt;" (replace b'<' "&lt;" (replace b'&' "&amp;" s))
          (replace b'<' "&lt;" (replace b'&' "&amp;" t)))
    ∙ replace-append b'"' "&quot;"
        (replace b'>' "&gt;" (replace b'<' "&lt;" (replace b'&' "&amp;" s)))
        (replace b'>' "&gt;" (replace b'<' "&lt;" (replace b'&' "&amp;" t)))

one_hit :
    (c : ℕ) (by : String) (d : Char) → (code d == c) ≡ true → replace c by (String.◌∷◌ d "") ≡ by
unfolding replace
one_hit c by d h = if_true _ _ h ∙ append-nil by

one_miss :
    (c : ℕ) (by : String) (d : Char)
    → (code d == c) ≡ false
    → replace c by (String.◌∷◌ d "") ≡ String.◌∷◌ d ""
unfolding replace
one_miss c by d h = if_false _ _ h

-- no later pass changes an entity
entities_stay :
    (replace b'"' "&quot;" (replace b'>' "&gt;" (replace b'<' "&lt;" "&amp;")) ≡ "&amp;")
    × (replace b'"' "&quot;" (replace b'>' "&gt;" "&lt;") ≡ "&lt;")
    × (replace b'"' "&quot;" "&gt;" ≡ "&gt;")
unfolding replace
entities_stay = (refl, refl, refl)

chained-one : (c : Char) → chained (String.◌∷◌ c "") ≡ entity c
chained-one c = elim (Bool-cases (code c == b'&')) [
  | inl amp ↦ rw (one_hit b'&' "&amp;" c amp, entities_stay.0, amp)
  | inr not_amp ↦ elim (Bool-cases (code c == b'<')) [
    | inl lt ↦
        rw (one_miss b'&' "&amp;" c not_amp, one_hit b'<' "&lt;" c lt, entities_stay.1, not_amp, lt)
    | inr not_lt ↦ elim (Bool-cases (code c == b'>')) [
      | inl gt ↦ rw (
        one_miss b'&' "&amp;" c not_amp,
        one_miss b'<' "&lt;" c not_lt,
        one_hit b'>' "&gt;" c gt,
        entities_stay.2,
        not_amp,
        not_lt,
        gt,
      )
      | inr not_gt ↦ last not_amp not_lt not_gt (Bool-cases (code c == b'"'))
    ]
  ]
]
  where
    last :
        (code c == b'&') ≡ false
        → (code c == b'<') ≡ false
        → (code c == b'>') ≡ false
        → ((code c == b'"') ≡ true) ⊎ ((code c == b'"') ≡ false)
        → chained (String.◌∷◌ c "") ≡ entity c
    last a b g (inl quote) = rw (
      one_miss b'&' "&amp;" c a,
      one_miss b'<' "&lt;" c b,
      one_miss b'>' "&gt;" c g,
      one_hit b'"' "&quot;" c quote,
      a,
      b,
      g,
      quote,
    )
    last a b g (inr plain) = rw (
      one_miss b'&' "&amp;" c a,
      one_miss b'<' "&lt;" c b,
      one_miss b'>' "&gt;" c g,
      one_miss b'"' "&quot;" c plain,
      a,
      b,
      g,
      plain,
    )

chained-entities : (s : String) → chained s ≡ entities s
unfolding entities replace
chained-entities String.[] = refl
chained-entities (String.◌∷◌ c s) =
    ap chained (ap (String.◌∷◌ c) (sym (nil-append s)) ∙ sym (cons-append c "" s))
    ∙ chained-append (String.◌∷◌ c "") s
    ∙ ap (λ (x : String). x <> chained s) (chained-one c)
    ∙ ap (λ (x : String). entity c <> x) (chained-entities s)

-- The four passes of `escapeHtml`, one character at a time over the whole text, do what one pass
-- does that puts an entity for each of the characters &, <, > and " and leaves the others.
pub escape_html-entities : (s : String) → escape_html s ≡ entities s
unfolding escape_html
escape_html-entities s = chained-entities s

-- whether a text holds a character that ends a text or an attribute of a page
abbrev pub has_markup : String → Bool
has_markup String.[] = false
has_markup (String.◌∷◌ c s) = code c == b'<' || code c == b'>' || code c == b'"' || has_markup s

has_markup-append :
    (s t : String) → has_markup s ≡ false → has_markup t ≡ false → has_markup (s <> t) ≡ false
has_markup-append String.[] t h k = ap has_markup (nil-append t) ∙ k
has_markup-append (String.◌∷◌ c s) t h k =
    let later : has_markup (s <> t) ≡ false = has_markup-append s t (ground arith) k in
    ap has_markup (cons-append c s t) ∙ ground arith

-- a test between two texts
has_markup_if :
    (b : Bool) (s t : String)
    → has_markup s ≡ false
    → (b ≡ false → has_markup t ≡ false)
    → has_markup (if b then s else t) ≡ false
has_markup_if true s t h k = h
has_markup_if false s t h k = k refl

has_markup_one :
    (c : Char)
    → (code c == b'<') ≡ false
    → (code c == b'>') ≡ false
    → (code c == b'"') ≡ false
    → has_markup (String.◌∷◌ c "") ≡ false
has_markup_one c lt gt quote = ground arith

has_markup-entity : (c : Char) → has_markup (entity c) ≡ false
has_markup-entity c = has_markup_if (code c == b'&') _ _ refl (λ amp.
    has_markup_if (code c == b'<') _ _ refl (λ lt.
      has_markup_if (code c == b'>') _ _ refl
        (λ gt. has_markup_if (code c == b'"') _ _ refl (λ quote. has_markup_one c lt gt quote))))

has_markup-entities : (s : String) → has_markup (entities s) ≡ false
unfolding entities
has_markup-entities String.[] = refl
has_markup-entities (String.◌∷◌ c s) =
    has_markup-append (entity c) (entities s) (has_markup-entity c) (has_markup-entities s)

-- No text that `escapeHtml` makes holds one of the characters <, > and ", so what it puts in the
-- preview page opens and closes no element and ends no attribute.
pub escape_html_has_no_markup : (s : String) → has_markup (escape_html s) ≡ false
escape_html_has_no_markup s = ap has_markup (escape_html-entities s) ∙ has_markup-entities s
