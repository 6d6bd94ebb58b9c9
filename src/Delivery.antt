-- ===== src/Delivery.antt =====
-- The outbox of one service and the audit log as one system: the poller of
-- services/shared/utils/outboxPoller.js against services/audit. Rounds of the poller overlap (it is
-- started by setInterval), requests are lost, answered late, or repeated, and the service writes
-- new rows at any time.
pub mod Post
pub mod Invariant
mod Posting
mod Marking
pub mod NoLoss
pub mod Rounds
mod Tests
use bearlink.Prelude.{ℕ, true, false, List, [], ◌∷◌, ◌++◌, ◌≡◌, ◌≢◌}
use bearlink.Prelude.Exec.{Result, ok}
use bearlink.Outbox.{Row, OutboxTable}
use bearlink.Outbox.Poller.{Setup, Network, batch_size, is_ok, post_batch, acknowledge}
use bearlink.Audit.{AuditTable}
use mathlib.Core.List.{Memᴰ}

module _ (setup : Setup) (T : OutboxTable) (A : AuditTable) where
  -- The two databases, the batches that were read, and those that were answered with a 2xx status.
  pub record System : Type 0 where
    pub outbox : T.State
    pub audit : A.State
    pub posting : List (List Row)
    pub accepted : List (List Row)

  -- A batch that was read may be posted any number of times, and one that was accepted may be
  -- acknowledged any number of times or never.
  pub data Step (s : System) : System → Type 0 where
    -- a handler of the service writes a row, with a new autoincrement id
    insert :
        (r : Row) (t : T.State)
        → r.processed ≡ false
        → ((q : Row) → Memᴰ q (T.rows s.outbox) → q.id ≢ r.id)
        → T.rows t ≡ T.rows s.outbox ++ r ∷ []
        → Step s (record s { outbox = t })
    -- a round reads its batch
    read :
        (batch : List Row)
        → T.find_unprocessed batch_size s.outbox ≡ ok batch
        → Step s (record s { posting = batch ∷ s.posting })
    -- the fetch of a round, with no 2xx answer heard
    post_failed :
        (network : Network) (batch : List Row) (outcome : Result ℕ) (a : A.State)
        → Memᴰ batch s.posting
        → post_batch setup T A network batch s.audit ≡ (outcome, a)
        → Step s (record s { audit = a })
    -- the fetch of a round, answered with a 2xx status
    post_accepted :
        (network : Network) (batch : List Row) (code : ℕ) (a : A.State)
        → Memᴰ batch s.posting
        → post_batch setup T A network batch s.audit ≡ (ok code, a)
        → is_ok code ≡ true
        → Step s (record s { audit = a; accepted = batch ∷ s.accepted })
    -- the round marks its rows, or fails to
    mark :
        (now : ℕ) (batch : List Row) (outcome : Result (Unit {0})) (t : T.State)
        → Memᴰ batch s.accepted
        → acknowledge setup T A now batch s.outbox ≡ (outcome, t)
        → Step s (record s { outbox = t })

  pub data Reach (s : System) : System → Type 0 where
    here : Reach s s
    next : {t u : System} → Reach s t → Step t u → Reach s u
