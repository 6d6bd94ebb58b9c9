-- ===== src/Analytics.antt =====
-- services/analytics: the event handler, the clean-up, and the counts. The table of the events is a
-- parameter.
pub mod Storing
pub mod Sending
pub mod Creations
pub mod Visits
pub mod Published
mod PublishedTests
pub mod Counts
mod Tests
use bearlink.Prelude.{
  ℕ, ◌+◌, ◌-◌, ◌*◌, String, Bool, true, false, not, Option, none, some, List, [], ◌∷◌, ◌++◌, select,
  length, str_eq, ltb, ◌≡◌, if◌then◌else◌,
}
use bearlink.Prelude.Exec.{Result, ok, err, Exec, Failure, other, pure, throw, catch}
use bearlink.Shared.Json.{Json, str, arr, obj, Fields, property, to_text}

-- A row of the Event table.
pub record Event : Type 0 where
  pub type : String
  pub payload : Json
  pub created_at : ℕ

pub record EventTable : Type 1 where
  pub Db : Type 0
  -- event.create({ data: { type, payload } })
  pub create : Option Json → Option Json → Db → Result (Unit {0}) × Db
  -- event.deleteMany({ where: { createdAt: { lt } } }), with its count
  pub delete_before : ℕ → Db → Result ℕ × Db

-- What Prisma and PostgreSQL document of these calls: a type that is no text is refused.
pub record IsLawful (E : EventTable) : Type 0 where
  pub rows : E.Db → List Event
  pub create_ok :
      (type payload : Option Json) (db db' : E.Db)
      → E.create type payload db ≡ (ok tt, db')
      → (name : String) × (value : Json) × (at : ℕ) × (type ≡ some (str name))
        × (payload ≡ some value)
        × (rows db' ≡ rows db ++ record { type = name; payload = value; created_at = at } ∷ [])
  pub create_err :
      (type payload : Option Json) (db db' : E.Db) (e : Failure)
      → E.create type payload db ≡ (err e, db')
      → rows db' ≡ rows db
  pub delete_ok :
      (cutoff n : ℕ) (db db' : E.Db)
      → E.delete_before cutoff db ≡ (ok n, db')
      → (rows db' ≡ select (λ (e : Event). not (ltb e.created_at cutoff)) (rows db))
        × (n + length (rows db') ≡ length (rows db))

-- the required fields of a type, the first one and the others
abbrev pub Schema : Type 0
Schema = String × List String

abbrev pub schemas : List (String × Schema)
schemas =
    ("user_registered", ("id", "email" ∷ []))
    ∷ ("url_created", ("shortId", "userId" ∷ []))
    ∷ ("url_updated", ("shortId", "userId" ∷ []))
    ∷ ("url_deleted", ("shortId", "userId" ∷ []))
    ∷ ("url_clicked", ("shortId", []))
    ∷ ("password_reset_requested", ("userId", []))
    ∷ ("password_reset_completed", ("userId", []))
    ∷ []

abbrev find_schema : String → List (String × Schema) → Option Schema
find_schema type [] = none
find_schema type ((name, fields) ∷ rest) =
    if str_eq name type then some fields else find_schema type rest

-- SCHEMAS[type]. A name that every object inherits is no type either: its value has no `filter`, so
-- that the handler throws and its catch discards the event.
unfoldable pub schema_of : String → Option Schema
schema_of type = find_schema type schemas

-- `type in SCHEMAS` takes the text of the type
abbrev pub type_key : Option Json → String
type_key none = "undefined"
type_key (some value) = to_text value

abbrev pub is_some : Option Json → Bool
is_some none = false
is_some (some value) = true

abbrev pub has_field : Fields → String → Bool
has_field fields name = is_some (property name fields)

-- requiredFields.filter((field) => !(field in payload)), which throws if the payload is no object
abbrev pub missing_fields : List String → Option Json → Result (List String)
missing_fields names (some (obj fields)) = ok (select (λ name. not (has_field fields name)) names)
missing_fields names (some (arr items)) = ok names
missing_fields names _ = err other

module _ (E : EventTable) where
  abbrev pub store_event : Option Json → Option Json → Exec E.Db (Unit {0})
  store_event type payload = E.create type payload

  abbrev pub store_if_complete :
      Option Json → Option Json → Result (List String) → Exec E.Db (Unit {0})
  store_if_complete type payload (ok []) = store_event type payload
  store_if_complete type payload (ok (name ∷ names)) = pure tt
  store_if_complete type payload (err e) = throw e

  abbrev pub with_schema : Option Json → Option Json → Option Schema → Exec E.Db (Unit {0})
  with_schema type payload none = pure tt
  with_schema type payload (some (name, names)) =
      store_if_complete type payload (missing_fields (name ∷ names) payload)

  -- the handler that createEventHandler gives: an error is only logged
  unfoldable pub handle_event : Option Json → Option Json → Exec E.Db (Unit {0})
  handle_event type payload =
      catch (with_schema type payload (schema_of (type_key type))) (λ e. pure tt)

  -- A cutoff before 1970 is before every row.
  unfoldable pub run_cleanup : (now retention_days : ℕ) → Exec E.Db ℕ
  run_cleanup now retention_days = E.delete_before (now - retention_days * 86400000)
