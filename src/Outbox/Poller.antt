-- ===== src/Outbox/Poller.antt =====
-- services/shared/utils/outboxPoller.js: one round of `poll`, in the stages that its awaits divide.
use bearlink.Prelude.{ℕ, String, Bool, Option, none, some, List, [], ◌∷◌, map}
use bearlink.Prelude.{leb, str_eq, ◌&&◌, if◌then◌else◌}
use bearlink.Prelude.Exec.{Result, ok, err, other}
use bearlink.Prelude.Text.Decimal.{show}
use Prim.Native.String.{◌++◌ as ◌<>◌}
use bearlink.Outbox.{Row, OutboxTable}
use bearlink.Audit.{AuditEvent, AuditTable, Reply, audit_events_route, status}

abbrev pub batch_size : ℕ
batch_size = 100

-- The poller's parameters, and AUDIT_INTERNAL_SECRET where it runs and where the audit service runs.
pub record Setup : Type 0 where
  pub source_service : String
  pub audit_service_url : Option String
  pub poller_secret : Option String
  pub audit_secret : Option String
  -- whether the JSON of the events is within the 100 kB that express.json() of the audit service reads
  pub fits_body : List AuditEvent → Bool

-- What the network does to one request.
pub data Network : Type 0 where
  answered : Network
  request_lost : Network
  response_lost : Network

-- eventId: `${sourceService}:${r.id}`
unfoldable pub event_id : String → ℕ → String
event_id source id = source <> ":" <> show id

-- an element of the request's body
unfoldable pub to_event : String → Row → AuditEvent
to_event source r = record {
  event_id = event_id source r.id;
  event_type = r.event_type;
  payload = r.payload;
  actor_id = r.actor_id;
  source_service = source;
  created_at = r.created_at;
}

-- process.env.AUDIT_INTERNAL_SECRET || ''
abbrev pub header_of : Option String → Option String
header_of none = some ""
header_of (some secret) = some secret

-- res.ok
abbrev pub is_ok : ℕ → Bool
is_ok code = leb 200 code && leb code 299

module _ (setup : Setup) (T : OutboxTable) (A : AuditTable) where
  abbrev answered_with : Reply × A.State → ℕ × A.State
  answered_with (reply, s) = (status reply, s)

  -- services/audit/app.js: express.json() answers 413 for a body above its limit, before the route
  abbrev pub audit_app : List AuditEvent → A.State → ℕ × A.State
  audit_app events s =
      if setup.fits_body events
      then answered_with
          (audit_events_route A setup.audit_secret (header_of setup.poller_secret) (some events) s)
      else (413, s)

  abbrev heard : ℕ × A.State → Result ℕ × A.State
  heard (code, s) = (ok code, s)

  abbrev unheard : ℕ × A.State → Result ℕ × A.State
  unheard (code, s) = (err other, s)

  -- the fetch: the status of the response, and what the request did at the audit service
  unfoldable pub post_batch : Network → List Row → A.State → Result ℕ × A.State
  post_batch request_lost batch s = (err other, s)
  post_batch answered batch s = heard (audit_app (map (to_event setup.source_service) batch) s)
  post_batch response_lost batch s =
      unheard (audit_app (map (to_event setup.source_service) batch) s)

  -- after the fetch: `true` if the rows are marked, which waits on the table
  unfoldable pub acknowledge : ℕ → List Row → T.State → Result (Unit {0}) × T.State
  acknowledge now batch s = T.mark_processed (map (λ (r : Row). r.id) batch) now s

  -- the catch clause logs the error and drops it
  abbrev pub logged : Result (Unit {0}) × T.State → T.State
  logged (outcome, t) = t

  abbrev pub after_fetch : ℕ → List Row → T.State → Result ℕ × A.State → T.State × A.State
  after_fetch now batch t (err e, a) = (t, a)
  after_fetch now batch t (ok code, a) =
      (if is_ok code then logged (acknowledge now batch t) else t, a)

  -- A rejected findMany rejects `poll`; its caller logs that.
  abbrev pub with_rows :
      ℕ → Network → Result (List Row) → T.State → A.State → Result (Unit {0}) × (T.State × A.State)
  with_rows now network (err e) t a = (err e, (t, a))
  with_rows now network (ok []) t a = (ok tt, (t, a))
  with_rows now network (ok (r ∷ rs)) t a =
      (ok tt, after_fetch now (r ∷ rs) t (post_batch network (r ∷ rs) a))

  -- Nothing is polled with no AUDIT_SERVICE_URL, or an empty one.
  abbrev pub with_url :
      ℕ → Network → Option String → T.State → A.State → Result (Unit {0}) × (T.State × A.State)
  with_url now network none t a = (ok tt, (t, a))
  with_url now network (some url) t a =
      if str_eq url ""
      then (ok tt, (t, a))
      else with_rows now network (T.find_unprocessed batch_size t) t a

  unfoldable pub poll : ℕ → Network → T.State → A.State → Result (Unit {0}) × (T.State × A.State)
  poll now network t a = with_url now network setup.audit_service_url t a
