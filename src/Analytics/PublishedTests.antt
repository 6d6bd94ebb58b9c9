-- ===== src/Analytics/PublishedTests.antt =====
-- The messages of a run of the URL service in memory.
use bearlink.Prelude.{
  Bool, true, ◌⊎◌, inl, inr, ap, ◌∙◌, false, Option, none, some, List, [], ◌∷◌, ◌++◌, select,
  str_eq, ◌≡◌, refl, arith, if◌then◌else◌,
}
use bearlink.Shared.Json.{str}
use bearlink.Shared.Events.{Context, Message}
use bearlink.Auth.Record.{Role, SafeUser}
use bearlink.Url.Record.{Url}
use bearlink.Url.Platform.{Setup}
use bearlink.Url.Memory.{memory}
use bearlink.Url.Manage.{Config}
use bearlink.Url.Manage.Memory.{services}
use bearlink.Url.Redirect.Visitor.{ClickMetadata}
use bearlink.Analytics.Sending.{Adds, EventsQueue}
use bearlink.Analytics.Published.{published_events_fit}
use bearlink.Url.Platform.{World}
use bearlink.Url.Manage.{Body}
use bearlink.Url.Manage.Create.{create_url}
use bearlink.Url.Manage.Bulk.{create_urls_bulk}
use bearlink.Url.Manage.Change.{update_url, delete_url}
use bearlink.Url.Redirect.{redirect, unlock}
use bearlink.Url.Redirect.Visitor.{Request}
use mathlib.Core.List.{Memᴰ}

abbrev config : Config
config = record {
  domain_allowlist = none;
  domain_blocklist = none;
  safe_browsing_key = none;
  has_preview_jobs = false;
}

abbrev traced : Option Context
traced = some (record { correlation_id = some "c1"; service_name = some "url-service" })

abbrev setup : Setup
setup = record {
  base_url = "https://b.ly";
  url_signing_secret = none;
  has_redis = false;
  now = 50;
  context = traced;
}

abbrev link : Url
link = record {
  id = 1;
  original_url = "https://example.org/a";
  short_id = "abc";
  custom_alias = none;
  redirect_type = 302;
  expires_at = some 90;
  password_hash = none;
  tags = "news" ∷ [];
  utm_params = none;
  require_signature = false;
  clicks = 0;
  created_at = 1;
  user_id = 4;
  preview_title = none;
  preview_description = none;
  preview_image_url = none;
  preview_fetched_at = none;
}

abbrev visit : ClickMetadata
visit = record { user_agent = none; referer = none; country = none; ip = "1.2.3.4" }

abbrev ann : SafeUser
ann = record { id = 2; email = "a@b.c"; name = none; role = Role.user; created_at = 0 }

abbrev is_event : Message → Bool
is_event m = str_eq m.queue "events"

sent_events :
    (m x : Message) (sent : List Message)
    → Memᴰ x (select is_event (sent ++ m ∷ []))
    → Memᴰ x (select is_event sent) ⊎ (x ≡ m)
sent_events m x [] there = go (is_event m) there
  where
    go : (b : Bool) → Memᴰ x (if b then m ∷ [] else []) → Memᴰ x [] ⊎ (x ≡ m)
    go false n = inl n
    go true (Memᴰ.head same) = inr same
    go true (Memᴰ.tail n) = inl n
sent_events m x (y ∷ sent) there = go (is_event y) (sent_events m x sent) there
  where
    go :
        (b : Bool)
        → (Memᴰ x (select is_event (sent ++ m ∷ [])) → Memᴰ x (select is_event sent) ⊎ (x ≡ m))
        → Memᴰ x
            (if b then y ∷ select is_event (sent ++ m ∷ []) else select is_event (sent ++ m ∷ []))
        → Memᴰ x (if b then y ∷ select is_event sent else select is_event sent) ⊎ (x ≡ m)
    go false rest n = rest n
    go true rest (Memᴰ.head same) = inl (Memᴰ.head same)
    go true rest (Memᴰ.tail n) = elim (rest n) [
      | inl before ↦ inl (Memᴰ.tail before)
      | inr same ↦ inr same
    ]

sent_job :
    (m x : Message) (sent : List Message)
    → is_event m ≡ false
    → Memᴰ x (select is_event (sent ++ m ∷ []))
    → Memᴰ x (select is_event sent)
sent_job m x sent off there = elim (sent_events m x sent there) [
  | inl before ↦ before
  | inr same ↦ absurd (ground (arith, off, events_only (sent ++ m ∷ []) there, same))
]
  where
    events_only : (all : List Message) → Memᴰ x (select is_event all) → is_event x ≡ true
    events_only [] n = elim n [ ]
    events_only (y ∷ all) n = go (is_event y) refl (events_only all) n
      where
        go :
            (b : Bool)
            → is_event y ≡ b
            → (Memᴰ x (select is_event all) → is_event x ≡ true)
            → Memᴰ x (if b then y ∷ select is_event all else select is_event all)
            → is_event x ≡ true
        go false is rest k = rest k
        go true is rest (Memᴰ.head same) = ap is_event same ∙ is
        go true is rest (Memᴰ.tail k) = rest k

abbrev queue : EventsQueue memory services
queue = record {
  messages = λ sent. select is_event sent;
  send_adds = λ m x sent there. sent_events m x sent there;
  job_adds = λ id text x sent there. sent_job _ x sent refl there;
}

abbrev body : Body
body = record {
  original_url = some (str "https://example.org/a");
  redirect_type = none;
  custom_alias = none;
  expires_at = none;
  password = none;
  tags = none;
  utm_params = none;
  require_signature = none;
  signed_ttl = none;
}

abbrev visitor : Request
visitor = record {
  short_id = "id0";
  preview_is_1 = false;
  sig = none;
  exp = none;
  user_agent = some "Mozilla/5.0";
  referer = none;
  referrer = none;
  forwarded_for = none;
  ip = some "10.0.0.9";
  password = none;
}

abbrev start : World memory
start = record { db = record { urls = []; events = [] }; redis = []; channel = []; drawn = 0 }

-- the state with one link
abbrev stocked : World memory
stocked = (create_url memory services config setup 4 body start).1

published_events_fit_example :
    Adds memory services queue setup stocked
      (create_url memory services config setup 4 body stocked).1
    × Adds memory services queue setup stocked
        (create_urls_bulk memory services config setup 4 (some (body ∷ [])) stocked).1
    × Adds memory services queue setup stocked
        (update_url memory services config setup 4 "1" body stocked).1
    × Adds memory services queue setup stocked
        (delete_url memory services config setup 4 "1" stocked).1
    × Adds memory services queue setup stocked (redirect memory setup visitor stocked).1
    × Adds memory services queue setup stocked (unlock memory setup visitor stocked).1
published_events_fit_example =
    published_events_fit memory services queue config setup 4 "1" body (some (body ∷ [])) visitor
      stocked
