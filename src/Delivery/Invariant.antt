-- ===== src/Delivery/Invariant.antt =====
-- What holds of the two databases and of the batches under way, after any steps.
use bearlink.Prelude.{ℕ, String, true, List, ◌≡◌}
use bearlink.Prelude.Text.Decimal.{show_injective}
use bearlink.Outbox.{Row, OutboxTable}
use bearlink.Outbox.Poller.{Setup, event_id}
use bearlink.Audit.{Entry, AuditTable}
use bearlink.Audit.AddNew.{DistinctIds}
use bearlink.Delivery.{System}
use bearlink.Delivery.Post.{entry_of}
use mathlib.Core.List.{Memᴰ}
use text.Mathlib.TextLemmas.{append_cancel_left}

-- Rows of one service with the same event id have the same id.
pub event_id-injective : (source : String) (m n : ℕ) → event_id source m ≡ event_id source n → m ≡ n
unfolding event_id
event_id-injective source m n h =
    show_injective m n (append_cancel_left ":" _ _ (append_cancel_left source _ _ h))

module _ (setup : Setup) (T : OutboxTable) (A : AuditTable) where
  abbrev entry : Row → Entry
  entry = entry_of setup.source_service

  -- A row of the table that is forwarded as `r` is.
  abbrev pub Stored : T.State → Row → Type 0
  Stored t r = (q : Row) × Memᴰ q (T.rows t) × (q.id ≡ r.id) × (entry q ≡ entry r)

  pub record IsFaithful (s : System setup T A) : Type 0 where
    -- ids are unique, as far as forwarding goes
    pub unique :
        (q r : Row)
        → Memᴰ q (T.rows s.outbox)
        → Memᴰ r (T.rows s.outbox)
        → q.id ≡ r.id
        → entry q ≡ entry r
    -- every audit row comes from a row of the outbox
    pub stems :
        (e : Entry)
        → Memᴰ e (A.entries s.audit)
        → (q : Row) × Memᴰ q (T.rows s.outbox) × (e ≡ entry q)
    -- what a round has read is still in the table
    pub batched : (b : List Row) (r : Row) → Memᴰ b s.posting → Memᴰ r b → Stored s.outbox r
    pub answered : (b : List Row) → Memᴰ b s.accepted → Memᴰ b s.posting
    -- what was accepted is in the audit log
    pub delivered :
        (b : List Row) (r : Row) → Memᴰ b s.accepted → Memᴰ r b → Memᴰ (entry r) (A.entries s.audit)
    -- what is marked as processed is in the audit log
    pub kept :
        (r : Row)
        → Memᴰ r (T.rows s.outbox)
        → r.processed ≡ true
        → Memᴰ (entry r) (A.entries s.audit)
    pub distinct : DistinctIds (A.entries s.audit)
