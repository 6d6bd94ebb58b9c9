-- ===== src/Shared/Paging.antt =====
-- The pages of a list, as listUrls and queryAuditLog read them from a query.
use bearlink.Prelude.{
  ℕ, zero, suc, ◌+◌, ◌-◌, ◌*◌, ◌/◌, ◌≤◌, String, Option, none, some, List, [], ◌∷◌, length, leb,
  arith, if◌then◌else◌,
}
use bearlink.Shared.Json.{Number, nat, negative, fraction}
use bearlink.Shared.Numbers.{parse_any_int}

-- Math.max(1, n || fallback), where `none` is NaN
abbrev pub positive_or : Option Number → ℕ → ℕ
positive_or none fallback = fallback
positive_or (some (nat zero)) fallback = fallback
positive_or (some (nat (suc n))) fallback = suc n
positive_or (some (negative n)) fallback = 1
positive_or (some (fraction text)) fallback = fallback

abbrev read_number : Option String → Option Number
read_number none = none
read_number (some text) = parse_any_int text

abbrev pub page_of : Option String → ℕ
page_of text = positive_or (read_number text) 1

abbrev pub at_most : ℕ → ℕ → ℕ
at_most most n = if leb most n then most else n

-- Math.min(most, Math.max(1, parseInt(text) || fallback))
abbrev pub limit_of : ℕ → ℕ → Option String → ℕ
limit_of most fallback text = at_most most (positive_or (read_number text) fallback)

abbrev pub skip_of : ℕ → ℕ → ℕ
skip_of page limit = (page - 1) * limit

-- Math.ceil(total / limit)
abbrev pub pages_of : ℕ → ℕ → ℕ
pages_of total limit = (total + limit - 1) / limit

module _ {ℓ} {A : Type ℓ} where
  abbrev pub take : ℕ → List A → List A
  take zero l = []
  take (suc n) [] = []
  take (suc n) (a ∷ l) = a ∷ take n l

  abbrev pub drop : ℕ → List A → List A
  drop zero l = l
  drop (suc n) [] = []
  drop (suc n) (a ∷ l) = drop n l

  -- the rows of a page
  abbrev pub slice : ℕ → ℕ → List A → List A
  slice skip limit l = take limit (drop skip l)

  pub length-take : (n : ℕ) (l : List A) → length (take n l) ≤ n
  length-take zero l = omega arith
  length-take (suc n) [] = omega arith
  length-take (suc n) (a ∷ l) = omega (arith, length-take n l)

pub page_of-positive : (text : Option String) → 1 ≤ page_of text
page_of-positive text = go (read_number text)
  where
    go : (n : Option Number) → 1 ≤ positive_or n 1
    go none = omega arith
    go (some (nat zero)) = omega arith
    go (some (nat (suc n))) = omega arith
    go (some (negative n)) = omega arith
    go (some (fraction s)) = omega arith

pub limit_of-bounds :
    (most fallback : ℕ) (text : Option String)
    → 1 ≤ most
    → 1 ≤ fallback
    → (1 ≤ limit_of most fallback text) × (limit_of most fallback text ≤ most)
limit_of-bounds most fallback text h k = go (read_number text)
  where
    capped : (n : ℕ) → 1 ≤ n → (1 ≤ at_most most n) × (at_most most n ≤ most)
    capped n positive = (ground arith, ground arith)

    go :
        (n : Option Number)
        → (1 ≤ at_most most (positive_or n fallback))
          × (at_most most (positive_or n fallback) ≤ most)
    go none = capped fallback k
    go (some (nat zero)) = capped fallback k
    go (some (nat (suc n))) = capped (suc n) (omega arith)
    go (some (negative n)) = capped 1 (omega arith)
    go (some (fraction s)) = capped fallback k
