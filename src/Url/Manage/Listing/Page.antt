-- ===== src/Url/Manage/Listing/Page.antt =====
-- What the pages of listUrls hold.
use bearlink.Prelude.{ℕ, ◌≤◌, ◌<◌, String, true, Option, some, List, select, ◌≡◌, ◌⊎◌}
use mathlib.Core.List.{Memᴰ}
use bearlink.Shared.Json.{given}
use bearlink.Url.Record.{Url}
use bearlink.Url.Manage.Listing.{
  Query, conditions_of, contains, selected, Listings, IsOrdered, Listing,
}

-- a row that a query of a user asks for
pub record IsWanted (now user : ℕ) (query : Query) (u : Url) : Type 0 where
  pub owner : u.user_id ≡ user
  pub tagged : (tag : String) → given query.tag ≡ some tag → Memᴰ tag u.tags
  pub found :
      (text : String)
      → given query.search ≡ some text
      → (contains text u.original_url ≡ true)
        ⊎ ((name : String) × (u.custom_alias ≡ some name) × (contains text name ≡ true))
  pub expired : query.expired ≡ some "true" → (t : ℕ) × (u.expires_at ≡ some t) × (t < now)
  pub current : query.expired ≡ some "false" → (t : ℕ) → u.expires_at ≡ some t → now ≤ t

-- a text in the destination or in the alias
abbrev IsFound : Url → String → Type 0
IsFound u text =
    (contains text u.original_url ≡ true)
    ⊎ ((name : String) × (u.custom_alias ≡ some name) × (contains text name ≡ true))

-- what `expired` asks of a row
abbrev IsTimely : ℕ → Option String → Url → Type 0
IsTimely now expired u =
    (expired ≡ some "true" → (t : ℕ) × (u.expires_at ≡ some t) × (t < now))
    × (expired ≡ some "false" → (t : ℕ) → u.expires_at ≡ some t → now ≤ t)

module _ (U : Listings) (O : IsOrdered U) where
  abbrev pub matching : ℕ → ℕ → Query → U.Db → List Url
  matching now user query db = select (selected user (conditions_of now query)) (O.rows db)
