-- ===== src/Url/Domain/Permitted.antt =====
-- Which host names services/url/services/domainFilter.service.js permits.
use bearlink.Prelude.{
  ℕ, String, true, Option, none, some, List, [], ◌∷◌, ◌++◌, map, select, str_eq, ◌≡◌, ◌≢◌, ◌↔◌, ◌⊎◌,
  inl, inr, refl, sym, ap, ◌∙◌, arith, Bool-cases, if_true, if◌then◌else◌,
}
use mathlib.Core.Path.{subst}
use mathlib.Core.Option.{some-injective}
use mathlib.Core.List.{Memᴰ}
use mathlib.Core.List.Memᴰ
use bearlink.Prelude.Text.{lower, trim, split, same_codes, ends_with}
use bearlink.Shared.Json.{given}
use bearlink.Shared.Hex.{same_codes_sound, same_codes_refl}
use bearlink.Url.Domain.{
  is_filled, parse_domain_list, matches_domain, listed, check_lists, check_domain,
}

-- an entry of a list: one of the texts between the commas, trimmed and in lower case, if not empty
abbrev pub IsEntry : Option String → List ℕ → Type 0
IsEntry env entry =
    (text : String) × (given env ≡ some text)
    × ((piece : String) × Memᴰ piece (split b',' text) × (lower (trim piece) ≡ entry))
    × (entry ≢ [])

-- a host name is a domain, or its labels end in a dot and the domain
abbrev pub IsWithin : List ℕ → List ℕ → Type 0
IsWithin hostname domain =
    (hostname ≡ domain) ⊎ ((labels : List ℕ) × (hostname ≡ labels ++ b'.' ∷ domain))

-- one of the allowlist if that has an entry, and otherwise none of the blocklist
abbrev pub IsPermitted : Option String → Option String → List ℕ → Type 0
IsPermitted allowlist blocklist hostname =
    ((entry : List ℕ) × IsEntry allowlist entry × IsWithin hostname entry)
    ⊎ (((entry : List ℕ) → ¬ IsEntry allowlist entry)
        × ((entry : List ℕ) → IsEntry blocklist entry → ¬ IsWithin hostname entry))

ends_with-prefix : (s t : List ℕ) → ends_with s t ≡ true → (p : List ℕ) × (s ≡ p ++ t)
ends_with-prefix [] t h = ([], same_codes_sound [] t h)
ends_with-prefix (c ∷ s) t h = elim (Bool-cases (same_codes (c ∷ s) t)) [
  | inl whole ↦ ([], same_codes_sound (c ∷ s) t whole)
  | inr part ↦
      let (p, e) = ends_with-prefix s t (rw part at h) in (c ∷ p, ap (λ (x : List ℕ). c ∷ x) e)
]

ends_with-append : (p t : List ℕ) → ends_with (p ++ t) t ≡ true
ends_with-append [] [] = refl
ends_with-append [] (c ∷ t) = ground (arith, same_codes_refl (c ∷ t))
ends_with-append (c ∷ p) t = ground (arith, ends_with-append p t)

matches_domain-IsWithin :
    (hostname entry : List ℕ) → (matches_domain hostname entry ≡ true) ↔ IsWithin hostname entry
matches_domain-IsWithin hostname entry = (
  λ h. elim (Bool-cases (same_codes hostname entry)) [
    | inl same ↦ inl (same_codes_sound hostname entry same)
    | inr differ ↦ inr (ends_with-prefix hostname (b'.' ∷ entry) (rw differ at h))
  ],
  λ h. elim h [
    | inl e ↦ rw e (ground (arith, same_codes_refl entry))
    | inr (labels, e) ↦ rw e (ground (arith, ends_with-append labels (b'.' ∷ entry)))
  ],
)

listed-entry :
    (hostname : List ℕ) (entries : List (List ℕ))
    → listed hostname entries ≡ true
    → (entry : List ℕ) × Memᴰ entry entries × IsWithin hostname entry
listed-entry hostname [] h = absurd (ground arith)
listed-entry hostname (e ∷ entries) h = elim (Bool-cases (matches_domain hostname e)) [
  | inl here ↦ (e, Memᴰ.head refl, (matches_domain-IsWithin hostname e).0 here)
  | inr later ↦
      let (x, m, within) = listed-entry hostname entries (ground arith) in (x, Memᴰ.tail m, within)
]

entry-listed :
    (hostname : List ℕ) (entries : List (List ℕ)) (entry : List ℕ)
    → Memᴰ entry entries
    → IsWithin hostname entry
    → listed hostname entries ≡ true
entry-listed hostname [] entry m within = elim m [ ]
entry-listed hostname (e ∷ entries) entry (Memᴰ.head same) within =
    let here =
      (matches_domain-IsWithin hostname e).1
        (subst (λ (x : List ℕ). IsWithin hostname x) same within) in
    ground arith
entry-listed hostname (e ∷ entries) entry (Memᴰ.tail m) within =
    let later = entry-listed hostname entries entry m within in ground arith

abbrev entries_of : List String → List (List ℕ)
entries_of pieces = select is_filled (map (λ (d : String). lower (trim d)) pieces)

entries_of-piece :
    (pieces : List String) (entry : List ℕ)
    → Memᴰ entry (entries_of pieces)
    → ((piece : String) × Memᴰ piece pieces × (lower (trim piece) ≡ entry)) × (entry ≢ [])
entries_of-piece [] entry m = elim m [ ]
entries_of-piece (d ∷ pieces) entry m =
    go (λ n. entries_of-piece pieces entry n) (lower (trim d)) refl m
  where
    later :
        ((piece : String) × Memᴰ piece pieces × (lower (trim piece) ≡ entry)) × (entry ≢ [])
        → ((piece : String) × Memᴰ piece (d ∷ pieces) × (lower (trim piece) ≡ entry)) × (entry ≢ [])
    later ((piece, n, e), filled) = ((piece, Memᴰ.tail n, e), filled)

    go :
        (Memᴰ entry (entries_of pieces)
          → ((piece : String) × Memᴰ piece pieces × (lower (trim piece) ≡ entry)) × (entry ≢ []))
        → (x : List ℕ) → lower (trim d) ≡ x
        → Memᴰ entry (if is_filled x then x ∷ entries_of pieces else entries_of pieces)
        → ((piece : String) × Memᴰ piece (d ∷ pieces) × (lower (trim piece) ≡ entry)) × (entry ≢ [])
    go rest [] e n = later (rest n)
    go rest (c ∷ x) e (Memᴰ.head same) =
        ((d, Memᴰ.head refl, e ∙ sym same), λ empty. absurd (ground (arith, same, empty)))
    go rest (c ∷ x) e (Memᴰ.tail n) = later (rest n)

piece-entries_of :
    (pieces : List String) (piece : String)
    → Memᴰ piece pieces
    → lower (trim piece) ≢ []
    → Memᴰ (lower (trim piece)) (entries_of pieces)
piece-entries_of [] piece m filled = elim m [ ]
piece-entries_of (d ∷ pieces) piece (Memᴰ.head same) filled =
    go (lower (trim d)) (ap (λ (x : String). lower (trim x)) (sym same))
  where
    go :
        (x : List ℕ)
        → x ≡ lower (trim piece)
        → Memᴰ
            (lower (trim piece))
            (if is_filled x then x ∷ entries_of pieces else entries_of pieces)
    go [] e = absurd (filled (sym e))
    go (c ∷ x) e = Memᴰ.head (sym e)
piece-entries_of (d ∷ pieces) piece (Memᴰ.tail m) filled =
    go (lower (trim d)) (piece-entries_of pieces piece m filled)
  where
    go :
        (x : List ℕ)
        → Memᴰ (lower (trim piece)) (entries_of pieces)
        → Memᴰ
            (lower (trim piece))
            (if is_filled x then x ∷ entries_of pieces else entries_of pieces)
    go [] n = n
    go (c ∷ x) n = Memᴰ.tail n

parse_domain_list-IsEntry :
    (env : Option String) (entry : List ℕ) → Memᴰ entry (parse_domain_list env) ↔ IsEntry env entry
unfolding parse_domain_list
parse_domain_list-IsEntry env entry = go (given env)
  where
    parsed : Option String → List (List ℕ)
    parsed text = elim text [ none ↦ [] | some t ↦ entries_of (split b',' t) ]

    nothing : (t : String) → ◌≢◌ {A = Option String} none (some t)
    nothing t = cc

    go :
        (text : Option String)
        → Memᴰ entry (parsed text) ↔ (
            (t : String) × (text ≡ some t)
            × ((piece : String) × Memᴰ piece (split b',' t) × (lower (trim piece) ≡ entry))
            × (entry ≢ []))
    go none = (λ m. elim m [ ], λ h. absurd (nothing h.0 h.1))
    go (some t) = (
      λ m.
          let (piece, filled) = entries_of-piece (split b',' t) entry m in (t, refl, piece, filled),
      λ (t', e, (piece, m, same), filled).
          subst (λ (x : List ℕ). Memᴰ x (entries_of (split b',' t))) same
            (piece-entries_of (split b',' t) piece
              (subst (λ (x : String). Memᴰ piece (split b',' x)) (sym (some-injective t t' e)) m)
              (λ empty. filled (sym same ∙ empty))),
    )

lists_iff :
    (allowlist blocklist : Option String) (hostname : String)
    → (check_lists hostname (parse_domain_list allowlist) (parse_domain_list blocklist) ≡ none)
      ↔ IsPermitted allowlist blocklist (lower hostname)
lists_iff allowlist blocklist hostname =
    go (parse_domain_list allowlist) (parse_domain_list-IsEntry allowlist)
  where
    blocked : List (List ℕ)
    blocked = parse_domain_list blocklist

    go :
        (allowed : List (List ℕ))
        → ((entry : List ℕ) → Memᴰ entry allowed ↔ IsEntry allowlist entry)
        → (check_lists hostname allowed blocked ≡ none)
          ↔ IsPermitted allowlist blocklist (lower hostname)
    go [] entries = elim (Bool-cases (listed (lower hostname) blocked)) [
      | inl bad ↦ (
        λ h. absurd (ground arith),
        λ h. elim h [
          | inl (entry, is, within) ↦ absurd (Memᴰ.not-nil ((entries entry).1 is))
          | inr (nothing, none_within) ↦
              let (entry, m, within) = listed-entry (lower hostname) blocked bad in
              absurd (none_within entry ((parse_domain_list-IsEntry blocklist entry).0 m) within)
        ],
      )
      | inr good ↦ (
        λ h. inr (
          λ entry is. Memᴰ.not-nil ((entries entry).1 is),
          λ entry is within.
              let bad =
                entry-listed (lower hostname) blocked entry
                  ((parse_domain_list-IsEntry blocklist entry).1 is) within in
              absurd (ground (arith, good, bad)),
        ),
        λ h. ground (arith, good),
      )
    ]
    go (e ∷ allowed) entries = elim (Bool-cases (listed (lower hostname) (e ∷ allowed))) [
      | inl good ↦ (
        λ h.
            let (entry, m, within) = listed-entry (lower hostname) (e ∷ allowed) good in
            inl (entry, (entries entry).0 m, within),
        λ h. if_true _ _ good,
      )
      | inr bad ↦ (
        λ h. absurd (ground (arith, bad)),
        λ h. elim h [
          | inl (entry, is, within) ↦
              let good =
                entry-listed (lower hostname) (e ∷ allowed) entry ((entries entry).1 is) within in
              absurd (ground (arith, bad, good))
          | inr (nothing, none_within) ↦ absurd (nothing e ((entries e).0 (Memᴰ.head refl)))
        ],
      )
    ]

-- A URL passes the domain check exactly when it has a host name that is not empty and either that
-- host name, in lower case, is an entry of the allowlist or ends in a dot and an entry of it, or the
-- allowlist has no entry and the host name neither is an entry of the blocklist nor ends in a dot and
-- one. The entries of a list are the texts between its commas, trimmed and in lower case, that are
-- not empty.
pub check_domain_iff :
    (allowlist blocklist hostname : Option String)
    → (check_domain allowlist blocklist hostname ≡ none)
      ↔ ((h : String) × (given hostname ≡ some h) × IsPermitted allowlist blocklist (lower h))
unfolding check_domain
check_domain_iff allowlist blocklist none =
    (λ h. absurd (ground arith), λ (h, e, p). absurd (ground arith))
check_domain_iff allowlist blocklist (some hostname) =
    let lists = lists_iff allowlist blocklist hostname in
    elim (Bool-cases (str_eq hostname "")) [
      | inl empty ↦ (λ h. absurd (ground arith), λ (h, e, p). absurd (ground arith))
      | inr filled ↦ (
        λ h. (hostname, rw filled refl, lists.0 (rw filled at h)),
        λ (h, e, p). rw filled (
            lists.1 (
              subst (λ (x : String). IsPermitted allowlist blocklist (lower x))
                (sym (some-injective hostname h (rw filled at e))) p)),
      )
    ]
