-- ===== src/Outbox.antt =====
-- The OutboxEvent table and services/shared/utils/outboxPoller.js.
-- The table is the database's: `OutboxTable` is what the poller asks of it, through Prisma.
pub mod Memory
pub mod Poller
pub mod Timer
mod TimerTests
use bearlink.Prelude.{ℕ, String, Bool, true, false, Option, some, List, ◌≡◌, ◌≤◌, map}
use bearlink.Prelude.{length, includes, if◌then◌else◌}
use bearlink.Prelude.Exec.{Result, ok, err, Failure}
use bearlink.Shared.Json.{Json}
use mathlib.Core.List.{Memᴰ}

pub record Row : Type 0 where
  pub id : ℕ
  pub event_type : String
  pub payload : Json
  pub actor_id : Option String
  pub processed : Bool
  pub processed_at : Option ℕ
  pub created_at : ℕ

-- updateMany({ where: { id: { in: ids } }, data: { processed: true, processedAt: now } }), on a row
abbrev pub mark : List ℕ → ℕ → Row → Row
mark ids now r =
    if includes r.id ids then record r { processed = true; processed_at = some now } else r

pub record OutboxTable : Type 1 where
  pub State : Type 0
  -- every row of the table
  pub rows : State → List Row
  -- findMany({ where: { processed: false }, orderBy: { createdAt: 'asc' }, take })
  pub find_unprocessed : ℕ → State → Result (List Row)
  -- updateMany({ where: { id: { in: ids } }, data: { processed: true, processedAt: now } })
  pub mark_processed : List ℕ → ℕ → State → Result (Unit {0}) × State

-- What Prisma and PostgreSQL document of these calls.
pub record IsLawful (T : OutboxTable) : Type 0 where
  pub find_takes :
      (n : ℕ) (s : T.State) (found : List Row)
      → T.find_unprocessed n s ≡ ok found
      → length found ≤ n
  pub find_is_stored :
      (n : ℕ) (s : T.State) (found : List Row) (r : Row)
      → T.find_unprocessed n s ≡ ok found
      → Memᴰ r found
      → Memᴰ r (T.rows s) × (r.processed ≡ false)
  pub mark_ok :
      (ids : List ℕ) (now : ℕ) (s s' : T.State)
      → T.mark_processed ids now s ≡ (ok tt, s')
      → T.rows s' ≡ map (mark ids now) (T.rows s)
  pub mark_err :
      (ids : List ℕ) (now : ℕ) (s s' : T.State) (e : Failure)
      → T.mark_processed ids now s ≡ (err e, s')
      → T.rows s' ≡ T.rows s
