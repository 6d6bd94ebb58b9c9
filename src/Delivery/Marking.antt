-- ===== src/Delivery/Marking.antt =====
-- Steps that change the outbox table, and the reading of a batch, keep the invariant.
use bearlink.Prelude.{
  ℕ, String, ◌==◌, true, false, List, [], ◌∷◌, ◌++◌, ◌≡◌, ◌≢◌, refl, sym, ap, ◌∙◌,
}
use bearlink.Prelude.{◌⊎◌, inl, inr, map, Bool-cases, arith, includes, ==_iff}
use bearlink.Prelude.Exec.{Result, ok, err}
use bearlink.Prelude.Members.{Memᴰ-map, Memᴰ-map_origin}
use bearlink.Outbox.{Row, OutboxTable, IsLawful, mark}
use bearlink.Outbox.Poller.{Setup, to_event, acknowledge}
use bearlink.Audit.{Entry, AuditTable, to_entry}
use bearlink.Delivery.{System}
use bearlink.Delivery.Post.{entry_of}
use bearlink.Delivery.Invariant.{Stored, IsFaithful}
use mathlib.Core.Path.{subst}
use mathlib.Core.List.Memᴰ
use mathlib.Core.List.{Memᴰ}

id-mark : (ids : List ℕ) (now : ℕ) (q : Row) → (mark ids now q).id ≡ q.id
id-mark ids now q = ground arith

-- marking changes nothing that is forwarded
entry_of-mark :
    (source : String) (ids : List ℕ) (now : ℕ) (q : Row)
    → entry_of source (mark ids now q) ≡ entry_of source q
unfolding to_entry to_event
entry_of-mark source ids now q = ground arith

processed-mark :
    (ids : List ℕ) (now : ℕ) (q : Row)
    → (mark ids now q).processed ≡ true
    → (q.processed ≡ true) ⊎ (includes q.id ids ≡ true)
processed-mark ids now q h = ground arith

includes-origin :
    (n : ℕ) (batch : List Row)
    → includes n (map (λ (r : Row). r.id) batch) ≡ true
    → (r : Row) × Memᴰ r batch × (r.id ≡ n)
includes-origin n [] h = cc
includes-origin n (r ∷ batch) h = elim (Bool-cases (r.id == n)) [
  | inl same ↦ (r, Memᴰ.head refl, (==_iff r.id n).0 same)
  | inr away ↦ let (q, m, e) = includes-origin n batch (ground arith) in (q, Memᴰ.tail m, e)
]

module _ (setup : Setup) (T : OutboxTable) (A : AuditTable) {s : System setup T A}
    (h : IsFaithful setup T A s) where
  abbrev entry : Row → Entry
  entry = entry_of setup.source_service

  -- a table whose rows are forwarded as before, row by row
  record Alike (t : T.State) : Type 0 where
    onward : (q : Row) → Memᴰ q (T.rows s.outbox) → Stored setup T A t q
    back : (q : Row) → Memᴰ q (T.rows t) → Stored setup T A s.outbox q
    done : (q : Row) → Memᴰ q (T.rows t) → q.processed ≡ true → Memᴰ (entry q) (A.entries s.audit)

  IsFaithful-Alike : {t : T.State} → Alike t → IsFaithful setup T A (record s { outbox = t })
  IsFaithful-Alike {t} alike = record {
    unique = λ q r mq mr same.
        let (q', q_old, q_id, q_entry) = alike.back q mq in
        let (r', r_old, r_id, r_entry) = alike.back r mr in
        sym q_entry ∙ h.unique q' r' q_old r_old (q_id ∙ same ∙ sym r_id) ∙ r_entry;
    stems = λ e m.
        let (q, old, from_q) = h.stems e m in
        let (q', new, _, same) = alike.onward q old in (q', new, from_q ∙ sym same);
    batched = λ b r in_posting m.
        let (q, old, id, same) = h.batched b r in_posting m in
        let (q', new, id', same') = alike.onward q old in (q', new, id' ∙ id, same' ∙ same);
    answered = h.answered;
    delivered = h.delivered;
    kept = alike.done;
    distinct = h.distinct;
  }

  Alike-same : {t : T.State} → T.rows t ≡ T.rows s.outbox → Alike t
  Alike-same same = record {
    onward = λ q m. (q, subst (Memᴰ q) (sym same) m, refl, refl);
    back = λ q m. (q, subst (Memᴰ q) same m, refl, refl);
    done = λ q m finished. h.kept q (subst (Memᴰ q) same m) finished;
  }

  module _ (now : ℕ) (batch : List Row) (accepted : Memᴰ batch s.accepted) where
    abbrev ids : List ℕ
    ids = map (λ (r : Row). r.id) batch

    -- a row that is marked as processed was so before, or stands in the batch
    marked_done :
        (q : Row)
        → Memᴰ q (T.rows s.outbox)
        → (q.processed ≡ true) ⊎ (includes q.id ids ≡ true)
        → Memᴰ (entry q) (A.entries s.audit)
    marked_done q m (inl before) = h.kept q m before
    marked_done q m (inr listed) =
        let (r, in_batch, id) = includes-origin q.id batch listed in
        let (p, found, p_id, alike) = h.batched batch r (h.answered batch accepted) in_batch in
        let same = h.unique p q found m (p_id ∙ id) in
        subst (λ (x : Entry). Memᴰ x (A.entries s.audit)) (sym alike ∙ same)
          (h.delivered batch r accepted in_batch)

    Alike-marked : {t : T.State} → T.rows t ≡ map (mark ids now) (T.rows s.outbox) → Alike t
    Alike-marked same = record {
      onward = λ q m. (
        mark ids now q,
        subst (Memᴰ _) (sym same) (Memᴰ-map (mark ids now) m),
        id-mark ids now q,
        entry_of-mark setup.source_service ids now q,
      );
      back = λ r m.
          let (q, old, from_q) = Memᴰ-map_origin (mark ids now) _ (subst (Memᴰ r) same m) in
          (
            q,
            old,
            sym (id-mark ids now q) ∙ ap (λ (x : Row). x.id) (sym from_q),
            sym (entry_of-mark setup.source_service ids now q) ∙ ap entry (sym from_q),
          );
      done = λ r m finished.
          let (q, old, from_q) = Memᴰ-map_origin (mark ids now) _ (subst (Memᴰ r) same m) in
          let was =
            processed-mark ids now q (ap (λ (x : Row). x.processed) (sym from_q) ∙ finished) in
          subst (λ (x : Entry). Memᴰ x (A.entries s.audit))
            (sym (entry_of-mark setup.source_service ids now q) ∙ ap entry (sym from_q))
            (marked_done q old was);
    }

    pub IsFaithful-marked :
        (L : IsLawful T) (outcome : Result (Unit {0})) (t : T.State)
        → acknowledge setup T A now batch s.outbox ≡ (outcome, t)
        → IsFaithful setup T A (record s { outbox = t })
    unfolding acknowledge
    IsFaithful-marked L (ok tt) t e = IsFaithful-Alike (Alike-marked (L.mark_ok ids now _ t e))
    IsFaithful-marked L (err f) t e = IsFaithful-Alike (Alike-same (L.mark_err ids now _ t f e))

  module _ (r : Row) (t : T.State) (waits : r.processed ≡ false)
      (fresh : (q : Row) → Memᴰ q (T.rows s.outbox) → q.id ≢ r.id)
      (same : T.rows t ≡ T.rows s.outbox ++ r ∷ []) where
    -- the row that was added, or one from before
    added : (q : Row) → Memᴰ q (T.rows t) → Memᴰ q (T.rows s.outbox) ⊎ (q ≡ r)
    added q m = elim (Memᴰ.append_cases (T.rows s.outbox) (subst (Memᴰ q) same m)) [
      | inl old ↦ inl old
      | inr last ↦ elim (Memᴰ.cases_cons last) [
        | inl new ↦ inr new
        | inr beyond ↦ absurd (Memᴰ.not-nil beyond)
      ]
    ]

    before : {q : Row} → Memᴰ q (T.rows s.outbox) → Memᴰ q (T.rows t)
    before m = subst (Memᴰ _) (sym same) (Memᴰ.append_left (r ∷ []) m)

    unique_ids :
        (p q : Row)
        → Memᴰ p (T.rows s.outbox) ⊎ (p ≡ r)
        → Memᴰ q (T.rows s.outbox) ⊎ (q ≡ r)
        → p.id ≡ q.id
        → entry p ≡ entry q
    unique_ids p q (inl mp) (inl mq) e = h.unique p q mp mq e
    unique_ids p q (inl mp) (inr new) e = absurd (fresh p mp (e ∙ ap (λ (x : Row). x.id) new))
    unique_ids p q (inr new) (inl mq) e = absurd (fresh q mq (sym e ∙ ap (λ (x : Row). x.id) new))
    unique_ids p q (inr p_new) (inr q_new) e = ap entry (p_new ∙ sym q_new)

    kept_rows :
        (q : Row)
        → Memᴰ q (T.rows s.outbox) ⊎ (q ≡ r)
        → q.processed ≡ true
        → Memᴰ (entry q) (A.entries s.audit)
    kept_rows q (inl old) done = h.kept q old done
    kept_rows q (inr new) done = let late = sym (ap (λ (x : Row). x.processed) new) ∙ done in cc

    pub IsFaithful-inserted : IsFaithful setup T A (record s { outbox = t })
    IsFaithful-inserted = record {
      unique = λ p q mp mq. unique_ids p q (added p mp) (added q mq);
      stems = λ e m. let (q, old, from_q) = h.stems e m in (q, before old, from_q);
      batched = λ b q in_posting m.
          let (p, old, id, alike) = h.batched b q in_posting m in (p, before old, id, alike);
      answered = h.answered;
      delivered = h.delivered;
      kept = λ q m. kept_rows q (added q m);
      distinct = h.distinct;
    }

  module _ (L : IsLawful T) (n : ℕ) (batch : List Row)
      (found : T.find_unprocessed n s.outbox ≡ ok batch) where
    batched_too :
        (b : List Row) (r : Row)
        → Memᴰ b (batch ∷ s.posting)
        → Memᴰ r b
        → Stored setup T A s.outbox r
    batched_too b r (Memᴰ.head same) m =
        (r, (L.find_is_stored n s.outbox batch r found (subst (Memᴰ r) same m)).0, refl, refl)
    batched_too b r (Memᴰ.tail later) m = h.batched b r later m

    pub IsFaithful-read : IsFaithful setup T A (record s { posting = batch ∷ s.posting })
    IsFaithful-read = record {
      unique = h.unique;
      stems = h.stems;
      batched = batched_too;
      answered = λ b m. Memᴰ.tail (h.answered b m);
      delivered = h.delivered;
      kept = h.kept;
      distinct = h.distinct;
    }
