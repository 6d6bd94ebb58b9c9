-- ===== src/Audit.antt =====
-- services/audit: the internal endpoint that stores forwarded events, its guard, and the table.
pub mod AddNew
pub mod Ingest
pub mod Query
pub mod Memory
use bearlink.Prelude.{ℕ, ◌-◌, ◌+◌, String, Bool, false, Option, none, some, List, [], ◌∷◌, ◌++◌}
use bearlink.Prelude.{◌≡◌, map, any, length, ◌||◌, str_eq, if◌then◌else◌}
use bearlink.Prelude.Exec.{Result, ok, err, Failure}
use bearlink.Shared.Json.{Json}

-- An element of the request's body.
pub record AuditEvent : Type 0 where
  pub event_id : String
  pub event_type : String
  pub payload : Json
  pub actor_id : Option String
  pub source_service : String
  pub created_at : ℕ

-- A row of the AuditEntry table, less the columns that the database fills in.
pub record Entry : Type 0 where
  pub event_id : String
  pub event_type : String
  pub actor_id : Option String
  pub source_service : String
  pub payload : Json

abbrev pub has_event : String → List Entry → Bool
has_event event_id = any (λ e. str_eq e.event_id event_id)

abbrev pub add_one : Entry → List Entry → List Entry
add_one e stored = if has_event e.event_id stored then stored else stored ++ e ∷ []

-- The rows after createMany with skipDuplicates, where eventId is unique.
unfoldable pub add_new : List Entry → List Entry → List Entry
add_new [] stored = stored
add_new (e ∷ new) stored = add_new new (add_one e stored)

pub record AuditTable : Type 1 where
  pub State : Type 0
  pub entries : State → List Entry
  -- createMany({ data, skipDuplicates: true }), with the number of rows that it inserted
  pub create_many : List Entry → State → Result ℕ × State

-- What Prisma and PostgreSQL document of that call.
pub record IsLawful (A : AuditTable) : Type 0 where
  pub create_ok :
      (new : List Entry) (s s' : A.State) (count : ℕ)
      → A.create_many new s ≡ (ok count, s')
      → (A.entries s' ≡ add_new new (A.entries s))
        × (length (A.entries s') ≡ length (A.entries s) + count)
  pub create_err :
      (new : List Entry) (s s' : A.State) (e : Failure)
      → A.create_many new s ≡ (err e, s')
      → A.entries s' ≡ A.entries s

-- The responses of the endpoint.
pub data Reply : Type 0 where
  fail : ℕ → String → Reply
  stored : (received inserted skipped : ℕ) → Reply

abbrev pub status : Reply → ℕ
status (fail code message) = code
status (stored received inserted skipped) = 200

-- requireAuditSecret: `true` is a call of next(). Comparing the UTF-8 buffers in constant time
-- compares the texts; an empty header or secret is falsy.
unfoldable pub require_audit_secret : Option String → Option String → Bool
require_audit_secret none secret = false
require_audit_secret (some header) none = false
require_audit_secret (some header) (some secret) =
    if str_eq header "" || str_eq secret "" then false else str_eq header secret

unfoldable pub to_entry : AuditEvent → Entry
to_entry e = record {
  event_id = e.event_id;
  event_type = e.event_type;
  actor_id = e.actor_id;
  source_service = e.source_service;
  payload = e.payload;
}

module _ (A : AuditTable) where
  abbrev pub answer : ℕ → Result ℕ × A.State → Reply × A.State
  answer received (err e, s) = (fail 500 "Internal server error", s)
  answer received (ok inserted, s) = (stored received inserted (received - inserted), s)

  -- ingestAuditEvents; `none` is a body that is no array
  unfoldable pub ingest_audit_events : Option (List AuditEvent) → A.State → Reply × A.State
  ingest_audit_events none s = (fail 400 "Request body must be a non-empty array", s)
  ingest_audit_events (some []) s = (fail 400 "Request body must be a non-empty array", s)
  ingest_audit_events (some (e ∷ events)) s =
      answer (length (e ∷ events)) (A.create_many (map to_entry (e ∷ events)) s)

  -- router.post('/internal/audit-events', requireAuditSecret, ingestAuditEvents)
  unfoldable pub audit_events_route :
      Option String → Option String → Option (List AuditEvent) → A.State → Reply × A.State
  unfolding require_audit_secret ingest_audit_events
  audit_events_route secret header body s =
      if require_audit_secret header secret
      then ingest_audit_events body s
      else (fail 401 "Unauthorized", s)
