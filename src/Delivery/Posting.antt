-- ===== src/Delivery/Posting.antt =====
-- A request of the poller keeps the invariant, and brings an accepted batch into the audit log.
use bearlink.Prelude.{List, ◌∷◌, ◌≡◌, sym, ap, ◌∙◌, ◌⊎◌, inl, inr, map}
use bearlink.Prelude.Members.{Memᴰ-map, Memᴰ-map_origin}
use bearlink.Outbox.{Row, OutboxTable}
use bearlink.Outbox.Poller.{Setup, to_event}
use bearlink.Audit.{Entry, AuditTable, add_new, to_entry}
use bearlink.Audit.AddNew.{
  DistinctIds, add_new-keeps, add_new-Holds, add_new-origin, add_new-DistinctIds,
}
use bearlink.Delivery.{System}
use bearlink.Delivery.Post.{entry_of}
use bearlink.Delivery.Invariant.{Stored, IsFaithful, event_id-injective}
use mathlib.Core.Path.{subst}
use mathlib.Core.List.{Memᴰ}

module _ (setup : Setup) (T : OutboxTable) (A : AuditTable) {s : System setup T A}
    (h : IsFaithful setup T A s) (batch : List Row) (here : Memᴰ batch s.posting)
    (a : A.State) where
  abbrev entry : Row → Entry
  entry = entry_of setup.source_service

  abbrev Offered : Type 0
  Offered = A.entries a ≡ add_new (map entry batch) (A.entries s.audit)

  grows : Offered → {e : Entry} → Memᴰ e (A.entries s.audit) → Memᴰ e (A.entries a)
  grows offered m = subst (Memᴰ _) (sym offered) (add_new-keeps (map entry batch) _ m)

  abbrev Stems : Entry → Type 0
  Stems e = (q : Row) × Memᴰ q (T.rows s.outbox) × (e ≡ entry q)

  stems : Offered → (e : Entry) → Memᴰ e (A.entries a) → Stems e
  stems offered e m = elim (add_new-origin (map entry batch) _ (subst (Memᴰ e) offered m)) [
    | inl old ↦ h.stems e old
    | inr new ↦
        let (r, in_batch, same) = Memᴰ-map_origin entry batch new in
        let (q, found, _, alike) = h.batched batch r here in_batch in (q, found, same ∙ sym alike)
  ]

  -- an audit row with the event id of a row of the batch is that row's
  same_entry :
      (e : Entry) (r : Row)
      → Stems e
      → Stored setup T A s.outbox r
      → e.event_id ≡ (entry r).event_id
      → e ≡ entry r
  unfolding to_entry to_event
  same_entry e r (q, found, from_q) (p, stored, id, alike) same =
      let same_id =
        event_id-injective setup.source_service q.id r.id
          (sym (ap (λ (x : Entry). x.event_id) from_q) ∙ same) in
      from_q ∙ h.unique q p found stored (same_id ∙ sym id) ∙ alike

  delivered : Offered → (r : Row) → Memᴰ r batch → Memᴰ (entry r) (A.entries a)
  delivered offered r m =
      let (e, held, id) = add_new-Holds (map entry batch) (A.entries s.audit) (Memᴰ-map entry m) in
      let there = subst (Memᴰ e) (sym offered) held in
      let same = same_entry e r (stems offered e there) (h.batched batch r here m) id in
      subst (λ (x : Entry). Memᴰ x (A.entries a)) same there

  distinct : Offered → DistinctIds (A.entries a)
  distinct offered =
      subst DistinctIds (sym offered) (add_new-DistinctIds (map entry batch) _ h.distinct)

  -- the audit log is as it was, or the batch was offered to it
  pub IsFaithful-posted :
      (A.entries a ≡ A.entries s.audit) ⊎ Offered → IsFaithful setup T A (record s { audit = a })
  IsFaithful-posted (inl same) = record {
    unique = h.unique;
    stems = λ e m. h.stems e (subst (Memᴰ e) same m);
    batched = h.batched;
    answered = h.answered;
    delivered = λ b r in_b m. subst (Memᴰ _) (sym same) (h.delivered b r in_b m);
    kept = λ r m done. subst (Memᴰ _) (sym same) (h.kept r m done);
    distinct = subst DistinctIds (sym same) h.distinct;
  }
  IsFaithful-posted (inr offered) = record {
    unique = h.unique;
    stems = stems offered;
    batched = h.batched;
    answered = h.answered;
    delivered = λ b r in_b m. grows offered (h.delivered b r in_b m);
    kept = λ r m done. grows offered (h.kept r m done);
    distinct = distinct offered;
  }

  -- an accepted batch joins the accepted ones
  delivered_too :
      Offered
      → (b : List Row) (r : Row) → Memᴰ b (batch ∷ s.accepted)
      → Memᴰ r b
      → Memᴰ (entry r) (A.entries a)
  delivered_too offered b r (Memᴰ.head same) m = delivered offered r (subst (Memᴰ r) same m)
  delivered_too offered b r (Memᴰ.tail later) m = grows offered (h.delivered b r later m)

  answered_too : (b : List Row) → Memᴰ b (batch ∷ s.accepted) → Memᴰ b s.posting
  answered_too b (Memᴰ.head same) = subst (λ (x : List Row). Memᴰ x s.posting) (sym same) here
  answered_too b (Memᴰ.tail later) = h.answered b later

  pub IsFaithful-accepted :
      Offered → IsFaithful setup T A (record s { audit = a; accepted = batch ∷ s.accepted })
  IsFaithful-accepted offered = record {
    unique = h.unique;
    stems = stems offered;
    batched = h.batched;
    answered = answered_too;
    delivered = delivered_too offered;
    kept = λ r m done. grows offered (h.kept r m done);
    distinct = distinct offered;
  }
