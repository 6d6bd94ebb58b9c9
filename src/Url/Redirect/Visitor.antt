-- ===== src/Url/Redirect/Visitor.antt =====
-- What the redirect handlers read of a request, and the click metadata that they take from it.
use bearlink.Prelude.{
  String, Bool, true, Option, none, some, List, [], ◌∷◌, any, str_eq, if◌then◌else◌,
}
use bearlink.Prelude.Text.{codes, lower, occurs_in, split, trim}
use bearlink.Shared.Json.{Json, given}
use bearlink.Url.Platform.{Platform}

pub record Request : Type 0 where
  -- req.params
  pub short_id : String
  -- req.query.preview === '1', and the parameters `sig` and `exp`
  pub preview_is_1 : Bool
  pub sig : Option String
  pub exp : Option String
  -- req.headers and req.ip
  pub user_agent : Option String
  pub referer : Option String
  pub referrer : Option String
  pub forwarded_for : Option String
  pub ip : Option String
  -- req.body.password
  pub password : Option Json

pub record ClickMetadata : Type 0 where
  pub user_agent : Option String
  pub referer : Option String
  pub country : Option String
  pub ip : String

-- the alternatives of BOT_PATTERN
abbrev bot_words : List String
bot_words =
    "bot" ∷ "crawl" ∷ "spider" ∷ "slurp" ∷ "google" ∷ "bingbot" ∷ "duckduck" ∷ "baidu" ∷ "yandex"
    ∷ "slackbot" ∷ "twitterbot" ∷ "facebookexternalhit" ∷ "linkedinbot" ∷ "whatsapp" ∷ "telegram"
    ∷ "curl" ∷ "wget" ∷ "python-requests" ∷ "go-http-client" ∷ []

-- BOT_PATTERN.test(ua)
matches_bot : String → Bool
matches_bot ua = any (λ (word : String). occurs_in (codes word) (lower ua)) bot_words

-- !ua || BOT_PATTERN.test(ua)
unfoldable pub is_bot : Option String → Bool
unfolding matches_bot
is_bot ua = elim (given ua) [ none ↦ true | some text ↦ matches_bot text ]

abbrev or_else : Option String → Option String → Option String
or_else none other = other
or_else (some s) other = some s

-- split(',')[0].trim() of the header, which is empty if there is none
abbrev first_text : List String → String
first_text [] = ""
first_text (s ∷ rest) = trim s

abbrev text_or_empty : Option String → String
text_or_empty none = ""
text_or_empty (some s) = s

unfoldable pub client_ip : Option String → Option String → String
unfolding trim split
client_ip forwarded_for ip =
    let forwarded = first_text (split b',' (text_or_empty forwarded_for)) in
    if str_eq forwarded "" then text_or_empty ip else forwarded

unfoldable pub extract_click_metadata : (P : Platform) → Request → ClickMetadata
extract_click_metadata P req =
    let address = client_ip req.forwarded_for req.ip in
    record {
      user_agent = given req.user_agent;
      referer = or_else (given req.referer) (given req.referrer);
      country = given (P.country_of address);
      ip = address;
    }
