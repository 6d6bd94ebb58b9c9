-- ===== src/Url/Manage.antt =====
-- services/url/controllers/urls.controller.js: what its handlers read, answer and call.
pub mod Checks
pub mod Create
pub mod Transactions
pub mod Announcing
pub mod Created
pub mod Checked
pub mod Change
pub mod Ownership
pub mod Bulk
pub mod Sign
pub mod Listing
mod ListingTests
pub mod Memory
pub mod Tests
use bearlink.Prelude.{
  some, ℕ, String, Bool, Option, List, [], ◌∷◌, ◌++◌, map, ◌≡◌, ◌≢◌, ◌==◌, not, select,
  if◌then◌else◌,
}
use bearlink.Prelude.Exec.{Result, ok, err, Exec, Failure}
use bearlink.Shared.Json.{Json, bool, Number, nat}
use bearlink.Url.Record.{Url, NewEvent}
use bearlink.Url.Platform.{Platform, World, with_db}
use bearlink.Url.Tables.{DbModel}
use mathlib.Core.List.{Memᴰ}

-- The properties of the body; one that is undefined is `none`.
pub record Body : Type 0 where
  pub original_url : Option Json
  pub redirect_type : Option Json
  pub custom_alias : Option Json
  pub expires_at : Option Json
  pub password : Option Json
  pub tags : Option Json
  pub utm_params : Option Json
  pub require_signature : Option Json
  pub signed_ttl : Option Json

pub data Reply : Type 0 where
  -- res.status(code).json({ error })
  fail : ℕ → String → Reply
  -- 400 { error: 'Missing required fields', details: { missing } }
  missing_fields : List String → Reply
  -- { shortUrl } and { shortUrl, signedUrl }
  shortened : String → Option String → Reply
  -- the row
  updated : Url → Reply
  -- 204
  no_content : Reply

-- The data of a uRL.create.
pub record NewUrl : Type 0 where
  pub original_url : String
  pub short_id : String
  pub custom_alias : Option String
  pub user_id : ℕ
  pub redirect_type : ℕ
  pub expires_at : Option ℕ
  pub password_hash : Option String
  pub tags : List String
  pub utm_params : Option Json
  pub require_signature : Json

-- The data of a uRL.update: `none` leaves a column as it is, `some none` makes it null.
pub record Changes : Type 0 where
  pub original_url : String
  pub redirect_type : Option ℕ
  pub custom_alias : Option (Option String)
  pub expires_at : Option (Option ℕ)
  pub password_hash : Option (Option String)
  pub tags : Option (List String)
  pub utm_params : Option Json
  pub require_signature : Option Json

-- The environment of the controller.
pub record Config : Type 0 where
  pub domain_allowlist : Option String
  pub domain_blocklist : Option String
  pub safe_browsing_key : Option String
  pub has_preview_jobs : Bool

-- What these handlers call beside the platform.
pub record Services (P : Platform) : Type 0 where
  pub create_url : NewUrl → P.Db → Result Url × P.Db
  -- uRL.update({ where: { userId, id }, data }), and uRL.delete({ where: { userId, id } })
  pub update_url : ℕ → Number → Changes → P.Db → Result Url × P.Db
  pub delete_url : ℕ → Number → P.Db → Result Url × P.Db
  -- uRL.findFirst({ where: { id, userId } })
  pub find_own : ℕ → Number → P.Db → Result (Option Url)
  pub insert_event : NewEvent → P.Db → Result (Unit {0}) × P.Db
  -- the commit of an interactive transaction: the state before it, and the state in it
  pub commit : P.Db → P.Db → Result (Unit {0}) × P.Db
  -- new URL(text).hostname
  pub hostname_of : String → Option String
  -- the length of `matches` in the answer of the Safe Browsing API: the key and the URL
  pub threat_matches : String → String → Result ℕ
  -- new Date(value).getTime(), `none` for an invalid date, 0 for one before 1970
  pub time_of : Json → Option ℕ
  -- JSON of a date
  pub date_text : ℕ → String
  -- bcrypt.hash(password, 10)
  pub hash_password : Json → Result String
  -- nanoid(10), by the number of the call
  pub generate_id : ℕ → String
  -- sendToQueue(PREVIEW_JOBS, { urlId, originalUrl })
  pub send_job : ℕ → String → P.Channel → Result (Unit {0}) × P.Channel

module _ (P : Platform) (S : Services P) where
  abbrev pub settle_commit : {A : Type 0} → A → Result (Unit {0}) × P.Db → Result A × P.Db
  settle_commit a (ok tt, db) = (ok a, db)
  settle_commit a (err e, db) = (err e, db)

  abbrev pub settle : {A : Type 0} → P.Db → Result A × P.Db → Result A × P.Db
  settle before (ok a, inside) = settle_commit a (S.commit before inside)
  settle before (err e, inside) = (err e, before)

  -- prisma.$transaction(async (tx) => …): a throw rolls back
  abbrev pub in_transaction : {A : Type 0} → Exec P.Db A → Exec (World P) A
  in_transaction body w = with_db P (settle w.db (body w.db)) w

-- what a created row takes from the data
pub record Holds (n : NewUrl) (u : Url) : Type 0 where
  pub original_url : u.original_url ≡ n.original_url
  pub short_id : u.short_id ≡ n.short_id
  pub custom_alias : u.custom_alias ≡ n.custom_alias
  pub user_id : u.user_id ≡ n.user_id
  pub redirect_type : u.redirect_type ≡ n.redirect_type
  pub expires_at : u.expires_at ≡ n.expires_at
  pub password_hash : u.password_hash ≡ n.password_hash
  pub tags : u.tags ≡ n.tags
  pub utm_params : u.utm_params ≡ n.utm_params
  -- Prisma refuses a value that is no Boolean
  pub require_signature : n.require_signature ≡ bool u.require_signature
  pub clicks : u.clicks ≡ 0

abbrev pub put : Url → List Url → List Url
put u us = map (λ (v : Url). if v.id == u.id then u else v) us

abbrev pub drop : Url → List Url → List Url
drop u us = select (λ (v : Url). not (v.id == u.id)) us

-- What Prisma and PostgreSQL document of these calls.
pub record IsLawful (P : Platform) (D : DbModel P) (S : Services P) : Type 0 where
  pub create_ok :
      (n : NewUrl) (db db' : P.Db) (u : Url)
      → S.create_url n db ≡ (ok u, db')
      → Holds n u
        × (D.tables db' ≡ record (D.tables db) { urls = (D.tables db).urls ++ u ∷ [] })
        × ((v : Url) → Memᴰ v (D.tables db).urls → v.short_id ≢ n.short_id)
  pub update_ok :
      (user : ℕ) (id : Number) (c : Changes) (db db' : P.Db) (u : Url)
      → S.update_url user id c db ≡ (ok u, db')
      → (old : Url) × Memᴰ old (D.tables db).urls
        × (old.user_id ≡ user)
        × (id ≡ nat old.id)
        × (u.id ≡ old.id)
        × (u.short_id ≡ old.short_id)
        × (u.clicks ≡ old.clicks)
        × (u.user_id ≡ old.user_id)
        × (u.original_url ≡ c.original_url)
        × (D.tables db' ≡ record (D.tables db) { urls = put u (D.tables db).urls })
  pub delete_ok :
      (user : ℕ) (id : Number) (db db' : P.Db) (u : Url)
      → S.delete_url user id db ≡ (ok u, db')
      → Memᴰ u (D.tables db).urls
        × (u.user_id ≡ user)
        × (id ≡ nat u.id)
        × (D.tables db' ≡ record (D.tables db) { urls = drop u (D.tables db).urls })
  pub find_own_ok :
      (user : ℕ) (id : Number) (db : P.Db) (u : Url)
      → S.find_own user id db ≡ ok (some u)
      → Memᴰ u (D.tables db).urls × (u.user_id ≡ user) × (id ≡ nat u.id)
  pub event_ok :
      (e : NewEvent) (db db' : P.Db)
      → S.insert_event e db ≡ (ok tt, db')
      → D.tables db' ≡ record (D.tables db) { events = (D.tables db).events ++ e ∷ [] }
  pub event_err :
      (e : NewEvent) (db db' : P.Db) (f : Failure)
      → S.insert_event e db ≡ (err f, db')
      → D.tables db' ≡ D.tables db
  pub commit_ok :
      (before inside db : P.Db)
      → S.commit before inside ≡ (ok tt, db)
      → D.tables db ≡ D.tables inside
  pub commit_err :
      (before inside db : P.Db) (e : Failure)
      → S.commit before inside ≡ (err e, db)
      → D.tables db ≡ D.tables before
