-- ===== src/Url/Manage/ListingTests.antt =====
-- Runs of listUrls.
use bearlink.Prelude.{select, ℕ, false, none, some, List, [], ◌∷◌, length, ◌≡◌, refl}
use bearlink.Prelude.Exec.{Result, ok}
use bearlink.Shared.Paging.{slice}
use bearlink.Url.Record.{Url}
use bearlink.Url.Manage.Listing.{
  Query, expires_before, conditions_of, Listings, IsOrdered, Listing, selected, contains_text,
  has_tag,
}

abbrev link : ℕ → Url
link n = record {
  id = n;
  original_url = "https://example.org/a";
  short_id = "abc";
  custom_alias = none;
  redirect_type = 302;
  expires_at = some 40;
  password_hash = none;
  tags = "spring" ∷ [];
  utm_params = none;
  require_signature = false;
  clicks = 0;
  created_at = 1;
  user_id = 4;
  preview_title = none;
  preview_description = none;
  preview_image_url = none;
  preview_fetched_at = none;
}

-- the newest first; the first is another user's, and the third has no tag
abbrev all_rows : List Url
all_rows =
    record (link 5) { user_id = 5 } ∷ link 4 ∷ record (link 3) { tags = [] } ∷ link 2 ∷ link 1 ∷ []

-- a table that is kept with the newest row first
abbrev table : Listings
table = record {
  Db = List Url;
  find_many = λ user conditions skip take urls.
      ok (slice skip take (select (selected user conditions) urls));
  count = λ user conditions urls. ok (length (select (selected user conditions) urls));
}

same_urls : (a b : List Url) → ◌≡◌ {A = Result (List Url)} (ok a) (ok b) → b ≡ a
same_urls a b h = cc

same_count : (a b : ℕ) → ◌≡◌ {A = Result ℕ} (ok a) (ok b) → b ≡ a
same_count a b h = cc

abbrev ordered : IsOrdered table
ordered = record {
  rows = λ urls. urls;
  find_many_ok = λ user conditions skip take urls found h.
      same_urls (slice skip take (select (selected user conditions) urls)) found h;
  count_ok =
      λ user conditions urls n h. same_count (length (select (selected user conditions) urls)) n h;
}

abbrev second_page : Query
second_page = record {
  page = some "2";
  limit = some "2";
  tag = some "spring";
  search = some "EXAMPLE";
  expired = some "true";
}

abbrev listed : Listing
listed = record { data_rows = link 1 ∷ []; page = 2; limit = 2; total = 3; pages = 2 }

conditions_test :
    conditions_of 50 second_page
    ≡ has_tag "spring" ∷ contains_text "EXAMPLE" ∷ expires_before 50 ∷ []
conditions_test = refl
