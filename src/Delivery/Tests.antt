-- ===== src/Delivery/Tests.antt =====
-- Runs of the poller against the audit service, over tables in memory.
use bearlink.Prelude.{ℕ, true, false, none, some, List, [], ◌∷◌, ◌≡◌, refl}
use bearlink.Prelude.{◌+◌}
use bearlink.Prelude.Exec.{ok}
use bearlink.Shared.Json.{null}
use bearlink.Outbox.{Row}
use bearlink.Outbox.Memory as OutboxMemory
use bearlink.Outbox.Poller.{
  Setup, answered, response_lost, poll, to_event, event_id, post_batch, acknowledge,
}
use bearlink.Audit.{Entry, to_entry, audit_events_route, add_new, stored, ingest_audit_events}
use bearlink.Audit.AddNew.{DistinctIds}
use bearlink.Audit.Ingest.{ingest_counts, ingest_idempotent}
use bearlink.Audit.Memory as AuditMemory
use bearlink.Delivery.{System, insert, read, post_accepted, mark, Reach, here, next}
use bearlink.Delivery.Post.{entry_of}
use bearlink.Delivery.NoLoss.{IsStart, processed_is_audited, audited_once}
use bearlink.Delivery.Rounds.{Arrives, poll-Reach}
use bearlink.Prelude.Text.Decimal.{show}
use mathlib.Core.List.{Memᴰ}

abbrev click : Row
click = record {
  id = 7;
  event_type = "url_clicked";
  payload = null;
  actor_id = none;
  processed = false;
  processed_at = none;
  created_at = 3;
}

abbrev setup : Setup
setup = record {
  source_service = "url-service";
  audit_service_url = some "http://audit:8500";
  poller_secret = some "s3cret";
  audit_secret = some "s3cret";
  fits_body = λ events. true;
}

-- a body above the limit of the audit service
abbrev too_large : Setup
too_large = record setup { fits_body = λ events. false }

-- the wrong secret on the poller's side
abbrev misconfigured : Setup
misconfigured = record setup { poller_secret = none }

abbrev done : Row
done = record click { processed = true; processed_at = some 9 }

abbrev forwarded : Entry
forwarded = record {
  event_id = "url-service:7";
  event_type = "url_clicked";
  actor_id = none;
  source_service = "url-service";
  payload = null;
}

poll_tests :
    (poll setup OutboxMemory.memory_table AuditMemory.memory_table 9 answered (click ∷ []) []
      ≡ (ok tt, (done ∷ [], forwarded ∷ [])))
    × (poll setup OutboxMemory.memory_table AuditMemory.memory_table 9 response_lost (click ∷ []) []
        ≡ (ok tt, (click ∷ [], forwarded ∷ [])))
    × (poll misconfigured OutboxMemory.memory_table AuditMemory.memory_table 9 answered
          (click ∷ [])
          []
        ≡ (ok tt, (click ∷ [], [])))
    × (poll too_large OutboxMemory.memory_table AuditMemory.memory_table 9 answered (click ∷ []) []
        ≡ (ok tt, (click ∷ [], [])))
unfolding poll post_batch acknowledge audit_events_route add_new to_entry to_event event_id show
poll_tests = (refl, refl, refl, refl)

abbrev start : System setup OutboxMemory.memory_table AuditMemory.memory_table
start = record { outbox = []; audit = []; posting = []; accepted = [] }

start-IsStart : IsStart setup OutboxMemory.memory_table AuditMemory.memory_table start
start-IsStart = record {
  no_rows = refl;
  no_entries = refl;
  none_posting = refl;
  none_accepted = refl;
}

abbrev finish : System setup OutboxMemory.memory_table AuditMemory.memory_table
finish = record {
  outbox = done ∷ [];
  audit = entry_of "url-service" click ∷ [];
  posting = (click ∷ []) ∷ [];
  accepted = (click ∷ []) ∷ [];
}

posted_once :
    post_batch setup OutboxMemory.memory_table AuditMemory.memory_table answered (click ∷ []) []
    ≡ (ok 200, entry_of "url-service" click ∷ [])
unfolding post_batch audit_events_route add_new
posted_once = refl

marked_once :
    acknowledge setup OutboxMemory.memory_table AuditMemory.memory_table 9 (click ∷ []) (click ∷ [])
    ≡ (ok tt, done ∷ [])
unfolding acknowledge
marked_once = refl

one_round : Reach setup OutboxMemory.memory_table AuditMemory.memory_table start finish
one_round =
    next
      (next
        (next (next here (insert click (click ∷ []) refl (λ q m. elim m [ ]) refl))
          (read (click ∷ []) refl))
        (post_accepted answered (click ∷ []) 200 (entry_of "url-service" click ∷ [])
          (Memᴰ.head refl) posted_once refl))
      (mark 9 (click ∷ []) (ok tt) (done ∷ []) (Memᴰ.head refl) marked_once)

processed_is_audited_example : Memᴰ (entry_of "url-service" done) finish.audit
processed_is_audited_example =
    processed_is_audited setup OutboxMemory.memory_table AuditMemory.memory_table
      OutboxMemory.memory_table-IsLawful AuditMemory.memory_table-IsLawful start finish done
      start-IsStart one_round (Memᴰ.head refl) refl

audited_once_example :
    DistinctIds finish.audit
    × ((e : Entry)
        → Memᴰ e finish.audit
        → (q : Row) × Memᴰ q finish.outbox × (e ≡ entry_of "url-service" q))
audited_once_example =
    audited_once setup OutboxMemory.memory_table AuditMemory.memory_table
      OutboxMemory.memory_table-IsLawful AuditMemory.memory_table-IsLawful start finish
      start-IsStart one_round

poll-Reach_example :
    Arrives setup OutboxMemory.memory_table AuditMemory.memory_table start
      (poll setup OutboxMemory.memory_table AuditMemory.memory_table 9 answered [] []).1
poll-Reach_example =
    poll-Reach setup OutboxMemory.memory_table AuditMemory.memory_table 9 answered start

first_ingest :
    ingest_audit_events AuditMemory.memory_table (some (to_event "url-service" click ∷ [])) []
    ≡ (stored 1 1 0, entry_of "url-service" click ∷ [])
unfolding ingest_audit_events add_new
first_ingest = refl

second_ingest :
    ingest_audit_events AuditMemory.memory_table
      (some (to_event "url-service" click ∷ []))
      (entry_of "url-service" click ∷ [])
    ≡ (stored 1 0 1, entry_of "url-service" click ∷ [])
unfolding ingest_audit_events add_new to_entry to_event event_id show
second_ingest = refl

ingest_counts_example : ◌≡◌ {A = ℕ} 1 1 × (◌≡◌ {A = ℕ} (1 + 0) 1) × (◌≡◌ {A = ℕ} 1 (0 + 1))
ingest_counts_example =
    ingest_counts AuditMemory.memory_table AuditMemory.memory_table-IsLawful
      (to_event "url-service" click ∷ []) 1 1 0 [] (entry_of "url-service" click ∷ []) first_ingest

ingest_idempotent_example :
    ◌≡◌ {A = ℕ} 0 0
    × (◌≡◌ {A = ℕ} 1 1)
    × (◌≡◌ {A = List Entry} (entry_of "url-service" click ∷ []) (entry_of "url-service" click ∷ []))
ingest_idempotent_example =
    ingest_idempotent AuditMemory.memory_table AuditMemory.memory_table-IsLawful
      (to_event "url-service" click ∷ []) 1 1 0 0 1 [] (entry_of "url-service" click ∷ [])
      (entry_of "url-service" click ∷ []) first_ingest second_ingest
