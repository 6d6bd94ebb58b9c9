-- ===== src/Url/Manage/Listing.antt =====
-- services/url/controllers/urls.controller.js, listUrls.
pub mod Page
use bearlink.Prelude.{
  ℕ, String, Bool, true, false, Option, none, some, List, [], ◌∷◌, ◌++◌, length, any, all, select,
  str_eq, leb, ltb, ◌==◌, ◌&&◌, ◌||◌, ◌≡◌, if◌then◌else◌,
}
use bearlink.Prelude.Text.{lower, occurs_in}
use bearlink.Prelude.Exec.{Result, ok, err}
use bearlink.Shared.Json.{given}
use bearlink.Shared.Paging.{page_of, limit_of, skip_of, pages_of, slice}
use bearlink.Url.Record.{Url}

pub record Query : Type 0 where
  pub page : Option String
  pub limit : Option String
  pub tag : Option String
  pub search : Option String
  pub expired : Option String

-- the elements of where.AND; `search` is in the destination or in the alias, in any case
pub data Condition : Type 0 where
  has_tag contains_text : String → Condition
  expires_before not_expired_at : ℕ → Condition

abbrev pub tag_condition : Option String → List Condition
tag_condition none = []
tag_condition (some tag) = has_tag tag ∷ []

abbrev pub search_condition : Option String → List Condition
search_condition none = []
search_condition (some text) = contains_text text ∷ []

abbrev pub expired_condition : ℕ → Option String → List Condition
expired_condition now none = []
expired_condition now (some text) =
    if str_eq text "true"
    then expires_before now ∷ []
    else if str_eq text "false"
    then not_expired_at now ∷ []
    else []

abbrev pub conditions_of : ℕ → Query → List Condition
conditions_of now query =
    tag_condition (given query.tag)
    ++ search_condition (given query.search)
    ++ expired_condition now query.expired

-- `contains` in mode insensitive, for texts in ASCII
abbrev pub contains : String → String → Bool
contains part text = occurs_in (lower part) (lower text)

abbrev pub alias_contains : String → Option String → Bool
alias_contains part none = false
alias_contains part (some name) = contains part name

-- `lt` and `gte` on a column that may be null
abbrev pub is_before : ℕ → Option ℕ → Bool
is_before now none = false
is_before now (some t) = ltb t now

abbrev pub is_not_before : ℕ → Option ℕ → Bool
is_not_before now none = true
is_not_before now (some t) = leb now t

-- what Prisma documents of the conditions
abbrev pub meets : Url → Condition → Bool
meets u (has_tag tag) = any (λ (x : String). str_eq x tag) u.tags
meets u (contains_text text) = contains text u.original_url || alias_contains text u.custom_alias
meets u (expires_before now) = is_before now u.expires_at
meets u (not_expired_at now) = is_not_before now u.expires_at

-- where: { userId, AND: conditions }
abbrev pub selected : ℕ → List Condition → Url → Bool
selected user conditions u = u.user_id == user && all (meets u) conditions

-- uRL.findMany of a user's rows that meet the conditions, the newest first, and uRL.count
pub record Listings : Type 1 where
  pub Db : Type 0
  pub find_many : ℕ → List Condition → (skip take : ℕ) → Db → Result (List Url)
  pub count : ℕ → List Condition → Db → Result ℕ

-- What Prisma documents of these calls, over the rows of the table with the newest first.
pub record IsOrdered (U : Listings) : Type 0 where
  pub rows : U.Db → List Url
  pub find_many_ok :
      (user : ℕ) (conditions : List Condition) (skip take : ℕ) (db : U.Db) (urls : List Url)
      → U.find_many user conditions skip take db ≡ ok urls
      → urls ≡ slice skip take (select (selected user conditions) (rows db))
  pub count_ok :
      (user : ℕ) (conditions : List Condition) (db : U.Db) (n : ℕ)
      → U.count user conditions db ≡ ok n
      → n ≡ length (select (selected user conditions) (rows db))

-- { data, pagination: { page, limit, total, pages } }
pub record Listing : Type 0 where
  pub data_rows : List Url
  pub page : ℕ
  pub limit : ℕ
  pub total : ℕ
  pub pages : ℕ

abbrev pub default_page_limit : ℕ
default_page_limit = 20

abbrev pub max_page_limit : ℕ
max_page_limit = 100

abbrev pub listing : ℕ → ℕ → Result (List Url) → Result ℕ → Result Listing
listing page limit (ok urls) (ok total) = ok (record {
  data_rows = urls;
  page = page;
  limit = limit;
  total = total;
  pages = pages_of total limit;
})
listing page limit (ok urls) (err e) = err e
listing page limit (err e) total = err e

module _ (U : Listings) where
  -- an error is a rejected promise
  unfoldable pub list_urls : (now user : ℕ) → Query → U.Db → Result Listing
  list_urls now user query db =
      let page = page_of query.page in
      let limit = limit_of max_page_limit default_page_limit query.limit in
      let where_ = conditions_of now query in
      listing page limit (U.find_many user where_ (skip_of page limit) limit db)
        (U.count user where_ db)
