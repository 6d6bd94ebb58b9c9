-- ===== src/Url/Tests.antt =====
-- Runs of the redirect handlers over a platform in memory.
use bearlink.Prelude.{
  ℕ, ◌/◌, ◌≤◌, suc, String, true, false, none, some, List, [], ◌∷◌, ◌≡◌, ◌⊎◌, ◌↔◌, refl, str_eq,
}
use bearlink.Prelude.Exec.{ok}
use bearlink.Prelude.Text.Decimal.{show, value}
use bearlink.Shared.Json.{str, nat}
use bearlink.Shared.Validation.{is_safe_redirect_url}
use bearlink.Url.Record.{Url}
use bearlink.Url.Platform.{Setup, World, publish_event}
use bearlink.Prelude.Members.{All-Memᴰ}
use bearlink.Url.Tables.{clicks_in}
use bearlink.Url.Tables.Balance.{IsBalanced}
use bearlink.Url.Memory.{memory, memory_model}
use bearlink.Url.Page.{escape_html}
use bearlink.Url.Page.Escaping.{
  entities, has_markup, escape_html-entities, escape_html_has_no_markup,
}
use bearlink.Prelude.Text.{lower, split, trim}
use bearlink.Url.Domain.{check_domain, parse_domain_list}
use bearlink.Url.Domain.Permitted.{IsPermitted, check_domain_iff}
use bearlink.Url.Cache.{find_url, is_unique_click}
use bearlink.Url.Page.{build_redirect_url}
use bearlink.Shared.Hex.{hex_bytes}
use bearlink.Url.Signed.{valid, verify_url}
use bearlink.Url.Signed.Laws.{verify_url_iff}
use bearlink.Url.Redirect.{
  Reply, moved, fail, record_click, refuse, count_visit, deliver, redirect, open_link, unlock, qr,
}
use bearlink.Url.Redirect.Visitor.{Request, client_ip, is_bot, extract_click_metadata}
use bearlink.Url.Redirect.Guards.{redirect-Guarded, handlers_answer, Guarded}
use bearlink.Url.Redirect.Clicks.{redirect_counts_once, ClickOn}
use bearlink.Url.Redirect.Unlocking.{unlock_needs_password, UnlockOn}
use bearlink.Url.Redirect.Balanced.{handlers_keep_balance}

abbrev link : Url
link = record {
  id = 1;
  original_url = "https://example.org/a";
  short_id = "abc";
  custom_alias = some "mine";
  redirect_type = 302;
  expires_at = some 9000;
  password_hash = none;
  tags = [];
  utm_params = none;
  require_signature = false;
  clicks = 0;
  created_at = 1;
  user_id = 4;
  preview_title = none;
  preview_description = none;
  preview_image_url = none;
  preview_fetched_at = none;
}

abbrev locked : Url
locked = record link { short_id = "xyz"; custom_alias = none; password_hash = some "hash:pw" }

abbrev setup : Setup
setup = record {
  base_url = "https://b.ly";
  url_signing_secret = some "k";
  has_redis = true;
  now = 5000;
  context = none;
}

abbrev start : World memory
start = record {
  db = record { urls = link ∷ locked ∷ []; events = [] };
  redis = [];
  channel = [];
  drawn = 0;
}

abbrev visit : Request
visit = record {
  short_id = "mine";
  preview_is_1 = false;
  sig = none;
  exp = none;
  user_agent = some "Mozilla/5.0";
  referer = none;
  referrer = none;
  forwarded_for = some "10.0.0.1, 10.0.0.2";
  ip = some "10.0.0.9";
  password = none;
}

abbrev robot : Request
robot = record visit { user_agent = some "Googlebot/2.1" }

abbrev guess : Request
guess = record visit { short_id = "xyz"; password = some (str "pw") }

abbrev wrong : Request
wrong = record guess { password = some (str "no") }

abbrev clicks_of : World memory → List ℕ
clicks_of w = clicks w.db.urls
  where
    clicks : List Url → List ℕ
    clicks [] = []
    clicks (u ∷ us) = u.clicks ∷ clicks us

visits_tests :
    ((redirect memory setup visit start).0 ≡ ok (moved 302 "https://example.org/a"))
    × (clicks_of (redirect memory setup visit start).1 ≡ 1 ∷ 0 ∷ [])
    × (clicks_of (redirect memory setup visit (redirect memory setup visit start).1).1 ≡ 1 ∷ 0 ∷ [])
    × (clicks_of (redirect memory setup robot start).1 ≡ 0 ∷ 0 ∷ [])
unfolding redirect find_url refuse deliver count_visit extract_click_metadata client_ip is_bot
    is_unique_click record_click publish_event build_redirect_url show is_safe_redirect_url
visits_tests = (refl, refl, refl, refl)

unlock_tests :
    ((unlock memory setup guess start).0 ≡ ok (moved 302 "https://example.org/a"))
    × (clicks_of (unlock memory setup guess start).1 ≡ 0 ∷ 1 ∷ [])
    × ((unlock memory setup wrong start).0 ≡ ok (fail 401 "Incorrect password."))
    × (clicks_of (unlock memory setup wrong start).1 ≡ 0 ∷ 0 ∷ [])
unfolding unlock find_url open_link extract_click_metadata client_ip record_click publish_event
    build_redirect_url is_safe_redirect_url
unlock_tests = (refl, refl, refl, refl)

verify_url_iff_example :
    (verify_url memory 5000 "https://b.ly/abc" (some "AB12") (some "7") "k" ≡ valid) ↔ (
      (str_eq "AB12" "" ≡ false)
      × (str_eq "7" "" ≡ false)
      × ((n : ℕ) × (nat (value 0 "7") ≡ nat (suc n)) × (5000 / 1000 ≤ suc n))
      × (hex_bytes "AB12" ≡ hex_bytes "ab12"))
verify_url_iff_example = verify_url_iff memory 5000 "https://b.ly/abc" "AB12" "7" "k"

after_visit :
    redirect memory setup visit start
    ≡ (ok (moved 302 "https://example.org/a"), (redirect memory setup visit start).1)
unfolding redirect find_url refuse deliver count_visit extract_click_metadata client_ip is_bot
    is_unique_click record_click publish_event build_redirect_url show is_safe_redirect_url
after_visit = refl

redirect-Guarded_example :
    (url : Url) × (w'' : World memory) × (find_url memory setup "mine" start ≡ (ok (some url), w''))
    × Guarded memory setup visit url
    × ((code : ℕ) (destination : String)
        → moved 302 "https://example.org/a" ≡ moved code destination
        → (code ≡ url.redirect_type)
          × (build_redirect_url memory url.original_url url.utm_params ≡ ok destination))
redirect-Guarded_example =
    redirect-Guarded memory setup visit start (redirect memory setup visit start).1
      (moved 302 "https://example.org/a") after_visit refl

handlers_answer_example :
    ((reply : Reply) × ((redirect memory setup visit start).0 ≡ ok reply))
    × ((reply : Reply) × ((unlock memory setup visit start).0 ≡ ok reply))
    × ((reply : Reply) × ((qr memory setup visit start).0 ≡ ok reply))
handlers_answer_example = handlers_answer memory setup visit start

redirect_counts_once_example :
    ((redirect memory setup visit start).1.db ≡ start.db)
    ⊎ ClickOn memory memory_model setup visit start (redirect memory setup visit start).1.db
redirect_counts_once_example = redirect_counts_once memory memory_model setup visit start

unlock_needs_password_example :
    ((unlock memory setup guess start).1.db ≡ start.db)
    ⊎ UnlockOn memory memory_model setup guess start (unlock memory setup guess start).1.db
unlock_needs_password_example = unlock_needs_password memory memory_model setup guess start

start-IsBalanced : IsBalanced start.db
start-IsBalanced = record {
  counted = λ u m.
      All-Memᴰ (λ (v : Url). v.clicks ≡ clicks_in v.short_id start.db.events) start.db.urls
        (refl, (refl, tt)) m;
}

handlers_keep_balance_example :
    IsBalanced (redirect memory setup visit start).1.db
    × IsBalanced (unlock memory setup visit start).1.db
handlers_keep_balance_example =
    handlers_keep_balance memory memory_model setup visit start start-IsBalanced

domain_tests :
    (check_domain (some "A.org, b.net") none (some "www.a.org") ≡ none)
    × (check_domain none (some "evil.com") (some "notevil.com") ≡ none)
    × (check_domain none (some "evil.com") (some "not.evil.com")
        ≡ some "Domain 'not.evil.com' is blocked.")
unfolding check_domain parse_domain_list split trim
domain_tests = (refl, refl, refl)

check_domain_iff_example :
    (check_domain (some "a.org") none (some "www.a.org") ≡ none)
    ↔ ((h : String) × (some "www.a.org" ≡ some h) × IsPermitted (some "a.org") none (lower h))
check_domain_iff_example = check_domain_iff (some "a.org") none (some "www.a.org")

escape_html-entities_example : escape_html "<b>" ≡ entities "<b>"
escape_html-entities_example = escape_html-entities "<b>"

escape_html_has_no_markup_example : has_markup (escape_html "<b>") ≡ false
escape_html_has_no_markup_example = escape_html_has_no_markup "<b>"
