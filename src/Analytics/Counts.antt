-- ===== src/Analytics/Counts.antt =====
-- services/analytics/controllers/analytics.controller.js. `count` and `top` stand for its queries.
use Prim.Native.Char.{code}
use bearlink.Prelude.{
  ℕ, ◌+◌, ◌-◌, ◌*◌, String, Option, none, some, List, leb, ◌==◌, ◌&&◌, str_eq, if◌then◌else◌,
}
use bearlink.Prelude.Exec.{Result, ok, err}
use bearlink.Shared.Json.{given}
use bearlink.Shared.Paging.{limit_of}

-- where: the type, the shortId in the payload, and createdAt: { gte }
pub record Where : Type 0 where
  pub type : String
  pub short_id : Option String
  pub since : Option ℕ

pub record Counted : Type 0 where
  pub short_id : Option String
  pub clicks : ℕ

pub data Reply : Type 0 where
  -- res.status(500).json({ error })
  fail : String → Reply
  clicks : (total today : ℕ) → Reply
  summary : (total_users total_urls total_clicks : ℕ) → Reply
  top_urls : List Counted → Reply

pub record EventQueries : Type 1 where
  pub Db : Type 0
  pub count : Where → Db → Result ℕ
  -- the clicks of each shortId since a time, the highest first, so many of them
  pub top : (from limit : ℕ) → Db → Result (List Counted)

abbrev all_of : String → Where
all_of type = record { type = type; short_id = none; since = none }

abbrev clicks_of : String → Option ℕ → Where
clicks_of short_id since = record { type = "url_clicked"; short_id = some short_id; since = since }

abbrev next_digit : Option ℕ → ℕ → ℕ
next_digit none digit = digit
next_digit (some n) digit = n * 10 + digit

-- the days of a text of digits and a `d`, for /^(\d+)d$/
read_days : Option ℕ → String → Option ℕ
read_days read String.[] = none
read_days read (String.◌∷◌ c s) =
    let longer = read_days (some (next_digit read (code c - 48))) s in
    if leb b'0' (code c) && leb (code c) b'9'
    then longer
    else if code c == b'd' && str_eq s ""
    then read
    else none

abbrev days_ago : ℕ → Option ℕ → ℕ
days_ago now none = 0
days_ago now (some days) = now - days * 86400000

abbrev days_in : Option String → Option ℕ
days_in none = none
days_in (some period) = read_days none period

-- fromDate, where a time before 1970 is 1970
unfoldable pub from_date : ℕ → Option String → ℕ
unfolding read_days
from_date now period = days_ago now (days_in (given period))

module _ (E : EventQueries) where
  abbrev click_counts : Result ℕ → Result ℕ → Reply
  click_counts (ok total) (ok today) = clicks total today
  click_counts _ today = fail "Failed to fetch click counts"

  -- `today` is the start of the day
  unfoldable pub get_url_clicks : ℕ → String → E.Db → Reply
  get_url_clicks today short_id db =
      click_counts (E.count (clicks_of short_id none) db)
        (E.count (clicks_of short_id (some today)) db)

  abbrev totals : Result ℕ → Result ℕ → Result ℕ → Reply
  totals (ok users) (ok urls) (ok visits) = summary users urls visits
  totals _ urls visits = fail "Failed to fetch summary"

  unfoldable pub get_summary : E.Db → Reply
  get_summary db =
      totals (E.count (all_of "user_registered") db) (E.count (all_of "url_created") db)
        (E.count (all_of "url_clicked") db)

  abbrev top_reply : Result (List Counted) → Reply
  top_reply (ok found) = top_urls found
  top_reply (err e) = fail "Failed to fetch top URLs"

  unfoldable pub get_top_urls : ℕ → (limit period : Option String) → E.Db → Reply
  get_top_urls now limit period db =
      top_reply (E.top (from_date now period) (limit_of 100 10 limit) db)
