-- ===== src/Url/Manage/Tests.antt =====
-- Runs of the urls controller over the platform in memory.
use bearlink.Prelude.{◌∷◌}
use bearlink.Prelude.Text.Decimal.{show}
use bearlink.Prelude.{List, true, false, none, some, [], ◌≡◌, ◌⊎◌, inr, refl}
use bearlink.Prelude.Exec.{ok}
use bearlink.Shared.Json.{str, bool, Number}
use bearlink.Shared.Numbers.{parse_int}
use bearlink.Shared.Validation.{is_valid_url}
use bearlink.Url.Record.{Url}
use bearlink.Url.Platform.{Setup, World, publish_event}
use bearlink.Prelude.Text.{split, trim}
use bearlink.Url.Domain.{check_domain, parse_domain_list}
use bearlink.Url.Memory.{memory, memory_model}
use bearlink.Url.Manage.{Body, fail, shortened, no_content, Config, Changes}
use bearlink.Url.Manage.Checks.{matches_alias, is_reserved, check_url_safety}
use bearlink.Url.Manage.Memory.{services, services-IsLawful}
use bearlink.Url.Manage.Create.{Draft, draft_of, create_url, save, publish_preview_job}
use bearlink.Url.Manage.Created.{create_url_adds_one, Added}
use bearlink.Url.Manage.Checked.{draft_of-IsAdmissible, IsAdmissible}
use bearlink.Url.Signed.{sign_url}
use bearlink.Url.Manage.Bulk.{
  create_urls_bulk, create_item, item_draft_of, save_item, ItemResult, made, refused, results,
}
use bearlink.Url.Manage.Bulk.Growth.{Grows, told, bulk_Grows}
use bearlink.Url.Manage.Sign.{sign_url_endpoint, sign_url_endpoint_of_owner, signed, Signs}
use bearlink.Url.Manage.Change.{changes_of, update_url, delete_url}
use bearlink.Url.Manage.Ownership.{update_url_of_owner, delete_url_of_owner, Replaced, Dropped}

abbrev config : Config
config = record {
  domain_allowlist = none;
  domain_blocklist = some "evil.com";
  safe_browsing_key = none;
  has_preview_jobs = true;
}

abbrev setup : Setup
setup = record {
  base_url = "https://b.ly";
  url_signing_secret = some "k";
  has_redis = true;
  now = 5000;
  context = none;
}

abbrev body : Body
body = record {
  original_url = some (str "https://example.org/a");
  redirect_type = none;
  custom_alias = some (str "mine");
  expires_at = none;
  password = none;
  tags = none;
  utm_params = none;
  require_signature = none;
  signed_ttl = none;
}

abbrev reserved : Body
reserved = record body { custom_alias = some (str "Health") }

abbrev start : World memory
start = record { db = record { urls = []; events = [] }; redis = []; channel = []; drawn = 0 }

abbrev draft : Draft
draft = record {
  original_url = "https://example.org/a";
  redirect_type = 302;
  custom_alias = some "mine";
  expires_at = none;
  tags = [];
  utm_params = none;
  password_hash = none;
}

draft_test : draft_of memory services config setup body ≡ ok (inr draft)
unfolding draft_of is_valid_url check_domain check_url_safety matches_alias is_reserved
    parse_domain_list split trim
draft_test = refl

abbrev created : World memory
created = (create_url memory services config setup 4 body start).1

create_tests :
    ((create_url memory services config setup 4 body start).0
      ≡ ok (shortened "https://b.ly/mine" none))
    × ((create_url memory services config setup 4 reserved start).0
        ≡ ok (fail 400 "This custom alias is reserved."))
    × ((delete_url memory services config setup 5 "1" created).0 ≡ ok (fail 404 "URL not found."))
    × ((delete_url memory services config setup 4 "1" created).0 ≡ ok no_content)
unfolding create_url draft_of is_valid_url check_domain check_url_safety matches_alias is_reserved
    save publish_event publish_preview_job delete_url parse_int parse_domain_list split trim
create_tests = (refl, refl, refl, refl)

draft_of-IsAdmissible_example : IsAdmissible memory services config setup draft
draft_of-IsAdmissible_example =
    draft_of-IsAdmissible memory services config setup body draft draft_test

create_url_adds_one_example :
    (created.db ≡ start.db)
    ⊎ ((d : Draft) × (u : Url) × (draft_of memory services config setup body ≡ ok (inr d))
        × Added memory memory_model services services-IsLawful config setup 4
            (bool false)
            d
            u
            start.db
            created.db)
create_url_adds_one_example =
    create_url_adds_one memory memory_model services services-IsLawful config setup 4 body start

update_url_of_owner_example :
    ((update_url memory services config setup 4 "1" body created).1.db ≡ created.db)
    ⊎ ((n : Number) × (c : Changes) × (u : Url) × (changes_of memory services config setup "1" body
          ≡ ok (inr (n, c)))
        × Replaced memory memory_model services services-IsLawful config setup 4 n c u created.db
            (update_url memory services config setup 4 "1" body created).1.db)
update_url_of_owner_example =
    update_url_of_owner memory memory_model services services-IsLawful config setup 4 "1" body
      created

delete_url_of_owner_example :
    ((delete_url memory services config setup 4 "1" created).1.db ≡ created.db)
    ⊎ ((n : Number) × (u : Url) × (parse_int "1" ≡ some n)
        × Dropped memory memory_model services services-IsLawful config setup 4 n u created.db
            (delete_url memory services config setup 4 "1" created).1.db)
delete_url_of_owner_example =
    delete_url_of_owner memory memory_model services services-IsLawful config setup 4 "1" created

-- two items with aliases of their own, and one with the alias of a route
abbrev items : List Body
items = body ∷ record body { custom_alias = some (str "other") } ∷ reserved ∷ []

abbrev bulk_results : List ItemResult
bulk_results =
    made "https://b.ly/mine"
    ∷ made "https://b.ly/other"
    ∷ refused "This custom alias is reserved."
    ∷ []

bulk_test : create_urls_bulk memory services config setup 4 (some items) start ≡ (
  ok (results bulk_results),
  (create_urls_bulk memory services config setup 4 (some items) start).1,
)
unfolding create_urls_bulk create_item item_draft_of is_valid_url matches_alias is_reserved
    save_item publish_event publish_preview_job show
bulk_test = refl

bulk_Grows_example :
    Grows 4
      (told (create_urls_bulk memory services config setup 4 (some items) start).0)
      50
      start.db
      (create_urls_bulk memory services config setup 4 (some items) start).1.db
bulk_Grows_example =
    bulk_Grows memory memory_model services services-IsLawful config setup 4 (some items) start

abbrev row : Url
row = record {
  id = 1;
  original_url = "https://example.org/a";
  short_id = "id0";
  custom_alias = none;
  redirect_type = 302;
  expires_at = none;
  password_hash = none;
  tags = [];
  utm_params = none;
  require_signature = true;
  clicks = 0;
  created_at = 1;
  user_id = 4;
  preview_title = none;
  preview_description = none;
  preview_image_url = none;
  preview_fetched_at = none;
}

abbrev stocked : World memory
stocked = record start { db = record { urls = row ∷ []; events = [] } }

signed_test : sign_url_endpoint memory services config setup 4 "1" none stocked ≡ (
  ok (signed "https://b.ly/id0?exp=3605&sig=ab12"),
  (sign_url_endpoint memory services config setup 4 "1" none stocked).1,
)
unfolding sign_url_endpoint parse_int trim sign_url show
signed_test = refl

sign_url_endpoint_of_owner_example :
    Signs memory memory_model services services-IsLawful config setup 4 "1" none
      "https://b.ly/id0?exp=3605&sig=ab12" stocked.db
      (sign_url_endpoint memory services config setup 4 "1" none stocked).1.db
sign_url_endpoint_of_owner_example =
    sign_url_endpoint_of_owner memory memory_model services services-IsLawful config setup 4 "1"
      none "https://b.ly/id0?exp=3605&sig=ab12" stocked
      (sign_url_endpoint memory services config setup 4 "1" none stocked).1 signed_test
