-- ===== src/Url/Tables.antt =====
-- The two tables of the URL service, as the operations of a transaction change them.
pub mod Balance
use bearlink.Prelude.{
  ℕ, ◌+◌, String, Bool, false, Option, none, some, List, [], ◌∷◌, ◌++◌, map, any, str_eq, ◌≡◌, ◌&&◌,
  if◌then◌else◌,
}
use bearlink.Prelude.Exec.{ok, err, Failure}
use bearlink.Shared.Json.{Json, obj, str, property}
use bearlink.Url.Record.{Url, NewEvent}
use bearlink.Url.Platform.{Platform, Operation, increment_clicks, create_event}

pub record Tables : Type 0 where
  pub urls : List Url
  pub events : List NewEvent

abbrev pub bump : String → Url → Url
bump short_id u = if str_eq u.short_id short_id then record u { clicks = u.clicks + 1 } else u

-- An update of a row that is not there is an error.
abbrev pub apply : Operation → Tables → Option Tables
apply (increment_clicks short_id) t =
    if any (λ (u : Url). str_eq u.short_id short_id) t.urls
    then some (record t { urls = map (bump short_id) t.urls })
    else none
apply (create_event e) t = some (record t { events = t.events ++ e ∷ [] })

abbrev pub and_then : Option Tables → (Tables → Option Tables) → Option Tables
and_then none f = none
and_then (some t) f = f t

abbrev pub apply_all : List Operation → Tables → Option Tables
apply_all [] t = some t
apply_all (op ∷ ops) t = and_then (apply op t) (apply_all ops)

-- What Prisma and PostgreSQL document of an array transaction: all of it or nothing.
pub record DbModel (P : Platform) : Type 0 where
  pub tables : P.Db → Tables
  pub transaction_ok :
      (ops : List Operation) (db db' : P.Db)
      → P.transaction ops db ≡ (ok tt, db')
      → apply_all ops (tables db) ≡ some (tables db')
  pub transaction_err :
      (ops : List Operation) (db db' : P.Db) (e : Failure)
      → P.transaction ops db ≡ (err e, db')
      → tables db' ≡ tables db

abbrev is_text : String → Option Json → Bool
is_text s (some (str t)) = str_eq t s
is_text s _ = false

abbrev property_of : String → Json → Option Json
property_of name (obj fields) = property name fields
property_of name _ = none

-- whether an event tells of a click on a short id
abbrev pub is_click : String → NewEvent → Bool
is_click short_id e =
    str_eq e.event_type "url_clicked" && is_text short_id (property_of "shortId" e.payload)

abbrev pub clicks_in : String → List NewEvent → ℕ
clicks_in short_id [] = 0
clicks_in short_id (e ∷ es) =
    if is_click short_id e then clicks_in short_id es + 1 else clicks_in short_id es
