-- ===== src/Url/Cache.antt =====
-- The cache and the click deduplication of services/url/controllers/redirect.controller.js.
pub mod Laws
use Prim.Native.String.{◌++◌ as ◌<>◌}
use bearlink.Prelude.{ℕ, ◌/◌, String, Bool, true, Option, none, some, List, [], ◌∷◌, if◌then◌else◌}
use bearlink.Prelude.Exec.{Result, ok, err, Exec}
use bearlink.Prelude.Text.Decimal.{show}
use bearlink.Shared.Json.{given}
use bearlink.Url.Record.{Url}
use bearlink.Url.Platform.{Platform, Setup, World, with_redis}

-- URL_CACHE_TTL, in seconds
abbrev pub url_cache_ttl : ℕ
url_cache_ttl = 60

abbrev pub cache_key : String → String
cache_key slug = "url:" <> slug

-- `dedup:${shortId}:${ip}:${hour}`
abbrev pub dedup_key : ℕ → String → String → String
dedup_key now short_id ip = "dedup:" <> short_id <> ":" <> ip <> ":" <> show (now / 3600000)

-- the keys of a row: its short id, and its alias if it has one
abbrev pub cache_keys : Url → List String
cache_keys url = elim (given url.custom_alias) [
  | none ↦ cache_key url.short_id ∷ []
  | some name ↦ cache_key url.short_id ∷ cache_key name ∷ []
]

module _ (P : Platform) (setup : Setup) where
  -- The row that the cache holds for a slug. A failing get, an empty or a malformed text count as
  -- a miss.
  abbrev pub hit : Result (Option String) → Option Url
  hit (ok none) = none
  hit (ok (some text)) = P.parse_url text
  hit (err e) = none

  abbrev pub cached : String → World P → Option Url
  cached slug w = if setup.has_redis then hit (P.redis_get (cache_key slug) w.redis) else none

  -- what a lookup in the database leaves in the cache; a failing setex is logged and dropped
  abbrev pub store : String → Option Url → Exec (World P) (Option Url)
  store slug none w = (ok none, w)
  store slug (some url) w =
      if setup.has_redis
      then (
        ok (some url),
        (with_redis P (P.redis_setex (cache_key slug) url_cache_ttl (P.stringify_url url) w.redis)
            w).1,
      )
      else (ok (some url), w)

  abbrev pub read_through : String → Result (Option Url) → Exec (World P) (Option Url)
  read_through slug (err e) w = (err e, w)
  read_through slug (ok found) w = store slug found w

  abbrev pub look_up : String → Option Url → Exec (World P) (Option Url)
  look_up slug (some url) w = (ok (some url), w)
  look_up slug none w = read_through slug (P.find_first slug w.db) w

  unfoldable pub find_url : String → Exec (World P) (Option Url)
  find_url slug w = look_up slug (cached slug w) w

  -- A failing del is logged and dropped.
  unfoldable pub invalidate_url_cache : Url → World P → World P
  invalidate_url_cache url w =
      if setup.has_redis then (with_redis P (P.redis_del (cache_keys url) w.redis) w).1 else w

  -- without Redis, and when Redis fails, every click counts
  abbrev pub or_true : Result Bool × World P → Result Bool × World P
  or_true (ok b, w) = (ok b, w)
  or_true (err e, w) = (ok true, w)

  unfoldable pub is_unique_click : String → String → Exec (World P) Bool
  is_unique_click short_id ip w =
      if setup.has_redis
      then or_true
          (with_redis P (P.redis_set_nx (dedup_key setup.now short_id ip) "1" 3600 w.redis) w)
      else (ok true, w)
