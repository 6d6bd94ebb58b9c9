-- ===== src/Delivery/NoLoss.antt =====
-- Whatever the steps, nothing that the outbox holds as processed is missing from the audit log,
-- and the audit log holds nothing twice and nothing of its own.
use bearlink.Prelude.{true, List, ◌≡◌, [], inl, inr, refl}
use bearlink.Prelude.Exec.{ok}
use bearlink.Outbox.{Row, OutboxTable}
use bearlink.Outbox
use bearlink.Outbox.Poller.{Setup, batch_size}
use bearlink.Audit.{Entry, AuditTable}
use bearlink.Audit
use bearlink.Audit.AddNew.{DistinctIds}
use bearlink.Delivery.{
  System, Step, insert, read, post_failed, post_accepted, mark, Reach, here, next,
}
use bearlink.Delivery.Post.{entry_of, post_batch-Effect}
use bearlink.Delivery.Invariant.{IsFaithful}
use bearlink.Delivery.Posting.{IsFaithful-posted, IsFaithful-accepted}
use bearlink.Delivery.Marking.{IsFaithful-marked, IsFaithful-inserted, IsFaithful-read}
use mathlib.Core.Path.{subst}
use mathlib.Core.List.Memᴰ
use mathlib.Core.List.{Memᴰ}

nowhere {ℓ} : {B : Type ℓ} {b : B} {l : List B} → l ≡ [] → Memᴰ b l → ⊥
nowhere e m = Memᴰ.not-nil (subst (Memᴰ _) e m)

module _ (setup : Setup) (T : OutboxTable) (A : AuditTable) where
  -- Nothing was written yet, and no round is under way.
  pub record IsStart (s : System setup T A) : Type 0 where
    pub no_rows : T.rows s.outbox ≡ []
    pub no_entries : A.entries s.audit ≡ []
    pub none_posting : s.posting ≡ []
    pub none_accepted : s.accepted ≡ []

module _ (setup : Setup) (T : OutboxTable) (A : AuditTable) (LT : Outbox.IsLawful T)
    (LA : Audit.IsLawful A) where
  Step-IsFaithful :
      {s u : System setup T A}
      → Step setup T A s u
      → IsFaithful setup T A s
      → IsFaithful setup T A u
  Step-IsFaithful (insert r t waits fresh same) h =
      IsFaithful-inserted setup T A h r t waits fresh same
  Step-IsFaithful (read batch found) h = IsFaithful-read setup T A h LT batch_size batch found
  Step-IsFaithful {s} (post_failed network batch outcome a m e) h =
      IsFaithful-posted setup T A h batch m a
        (elim (post_batch-Effect A setup T LA network batch outcome s.audit a e) [
          | inl (same, _) ↦ inl same
          | inr offered ↦ inr offered
        ])
  Step-IsFaithful {s} (post_accepted network batch code a m e good) h =
      IsFaithful-accepted setup T A h batch m a
        (elim (post_batch-Effect A setup T LA network batch (ok code) s.audit a e) [
          | inl (_, unheard) ↦ let bad = unheard code refl in cc
          | inr offered ↦ offered
        ])
  Step-IsFaithful (mark now batch outcome t m e) h =
      IsFaithful-marked setup T A h now batch m LT outcome t e

  Reach-IsFaithful :
      {s u : System setup T A}
      → IsFaithful setup T A s
      → Reach setup T A s u
      → IsFaithful setup T A u
  Reach-IsFaithful h here = h
  Reach-IsFaithful h (next r st) = Step-IsFaithful st (Reach-IsFaithful h r)

  IsStart-IsFaithful : (s : System setup T A) → IsStart setup T A s → IsFaithful setup T A s
  IsStart-IsFaithful s start = record {
    unique = λ q r m _ _. absurd (nowhere start.no_rows m);
    stems = λ e m. absurd (nowhere start.no_entries m);
    batched = λ b r m _. absurd (nowhere start.none_posting m);
    answered = λ b m. absurd (nowhere start.none_accepted m);
    delivered = λ b r m _. absurd (nowhere start.none_accepted m);
    kept = λ r m _. absurd (nowhere start.no_rows m);
    distinct = rw start.no_entries tt;
  }

  -- From the start, after any steps (new rows, rounds of the poller that overlap, requests lost,
  -- repeated or answered with an error, acknowledgements that fail), every row of the outbox that
  -- is marked as processed has its audit row, with its event id, type, actor and payload.
  pub processed_is_audited :
      (s u : System setup T A) (r : Row)
      → IsStart setup T A s
      → Reach setup T A s u
      → Memᴰ r (T.rows u.outbox)
      → r.processed ≡ true
      → Memᴰ (entry_of setup.source_service r) (A.entries u.audit)
  processed_is_audited s u r start path =
      (Reach-IsFaithful (IsStart-IsFaithful s start) path).kept r

  -- From the start, after any steps, no event id stands twice in the audit log, and every audit
  -- row is that of a row of the outbox.
  pub audited_once :
      (s u : System setup T A)
      → IsStart setup T A s
      → Reach setup T A s u
      → DistinctIds (A.entries u.audit)
        × ((e : Entry)
            → Memᴰ e (A.entries u.audit)
            → (q : Row) × Memᴰ q (T.rows u.outbox) × (e ≡ entry_of setup.source_service q))
  audited_once s u start path =
      let h = Reach-IsFaithful (IsStart-IsFaithful s start) path in (h.distinct, h.stems)
