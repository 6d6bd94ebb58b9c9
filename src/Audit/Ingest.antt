-- ===== src/Audit/Ingest.antt =====
-- The counts that the endpoint answers with, and what a repeated request does.
use bearlink.Prelude.{ℕ, ◌+◌, ◌-◌, ◌≤◌, some, List, [], ◌∷◌, ◌≡◌, refl}
use bearlink.Prelude.{map, length, length-append, arith}
use bearlink.Prelude.Exec.{Result, ok, err}
use bearlink.Audit.{Reply}
use bearlink.Audit.AddNew.{add_new_idempotent}
use bearlink.Prelude.{ap, sym, ◌∙◌}
use bearlink.Audit.{
  AuditEvent, Entry, AuditTable, IsLawful, stored, add_one, add_new, to_entry, answer,
  ingest_audit_events,
}

length-add_one :
    (e : Entry) (es : List Entry)
    → (length es ≤ length (add_one e es)) × (length (add_one e es) ≤ length es + 1)
length-add_one e es = ground (arith, length-append es (e ∷ []))

pub length-add_new-ge : (new es : List Entry) → length es ≤ length (add_new new es)
unfolding add_new
length-add_new-ge [] es = omega arith
length-add_new-ge (e ∷ new) es =
    omega (arith, length-add_new-ge new (add_one e es), (length-add_one e es).0)

length-add_new-le : (new es : List Entry) → length (add_new new es) ≤ length es + length new
unfolding add_new
length-add_new-le [] es = omega arith
length-add_new-le (e ∷ new) es =
    omega (arith, length-add_new-le new (add_one e es), (length-add_one e es).1)

length-map {ℓ κ} :
    {A : Type ℓ} {B : Type κ} (f : A → B) (xs : List A) → length (map f xs) ≡ length xs
length-map f [] = refl
length-map f (x ∷ xs) = omega (arith, length-map f xs)

module _ (A : AuditTable) (L : IsLawful A) where
  -- What a request that was stored did.
  record Stored (events : List AuditEvent) (received inserted skipped : ℕ) (s s' : A.State)
      : Type 0 where
    counted : received ≡ length events
    rest : skipped ≡ received - inserted
    rows : A.entries s' ≡ add_new (map to_entry events) (A.entries s)
    grown : length (A.entries s') ≡ length (A.entries s) + inserted

  ingest-Stored :
      (events : List AuditEvent) (received inserted skipped : ℕ) (s s' : A.State)
      → ingest_audit_events A (some events) s ≡ (stored received inserted skipped, s')
      → Stored events received inserted skipped s s'
  unfolding ingest_audit_events
  ingest-Stored [] received inserted skipped s s' h =
      let replied = ap (λ (p : Reply × A.State). p.0) h in cc
  ingest-Stored (e ∷ events) received inserted skipped s s' h =
      go (A.create_many (map to_entry (e ∷ events)) s) refl h
    where
      go :
          (result : Result ℕ × A.State)
          → A.create_many (map to_entry (e ∷ events)) s ≡ result
          → answer A (length (e ∷ events)) result ≡ (stored received inserted skipped, s')
          → Stored (e ∷ events) received inserted skipped s s'
      go (ok count, t) made eq =
          let replied = ap (λ (p : Reply × A.State). p.0) eq in
          let same = ap (λ (p : Reply × A.State). p.1) eq in
          let (rows, grown) = L.create_ok (map to_entry (e ∷ events)) s t count made in
          record {
            counted = ground arith;
            rest = ground arith;
            rows = ap A.entries (sym same) ∙ rows;
            grown = ap (λ (x : A.State). length (A.entries x)) (sym same) ∙ grown ∙ ground arith;
          }
      go (err f, t) made eq = let replied = ap (λ (p : Reply × A.State). p.0) eq in cc

  -- The counts of an answer: every event of the body is received, and each is inserted or skipped.
  pub ingest_counts :
      (events : List AuditEvent) (received inserted skipped : ℕ) (s s' : A.State)
      → ingest_audit_events A (some events) s ≡ (stored received inserted skipped, s')
      → (received ≡ length events)
        × (inserted + skipped ≡ received)
        × (length (A.entries s') ≡ length (A.entries s) + inserted)
  ingest_counts events received inserted skipped s s' h =
      let r = ingest-Stored events received inserted skipped s s' h in
      let size = ap (λ (x : List Entry). length x) r.rows in
      let most = length-add_new-le (map to_entry events) (A.entries s) in
      let same = length-map to_entry events in
      (r.counted, omega (arith, r.rest, r.grown, r.counted, size, most, same), r.grown)

  -- A body that was stored and is sent again inserts nothing: all of it is skipped, and the audit
  -- log stays as it is.
  pub ingest_idempotent :
      (events : List AuditEvent) (received inserted skipped inserted' skipped' : ℕ)
      (s s' s'' : A.State)
      → ingest_audit_events A (some events) s ≡ (stored received inserted skipped, s')
      → ingest_audit_events A (some events) s' ≡ (stored received inserted' skipped', s'')
      → (inserted' ≡ 0) × (skipped' ≡ length events) × (A.entries s'' ≡ A.entries s')
  ingest_idempotent events received inserted skipped inserted' skipped' s s' s'' h h' =
      let r = ingest-Stored events received inserted skipped s s' h in
      let r' = ingest-Stored events received inserted' skipped' s' s'' h' in
      let same =
        r'.rows
        ∙ ap (add_new (map to_entry events)) r.rows
        ∙ add_new_idempotent (map to_entry events) (A.entries s)
        ∙ sym r.rows in
      let size = ap (λ (x : List Entry). length x) same in
      (omega (arith, size, r'.grown), omega (arith, size, r'.grown, r'.rest, r'.counted), same)
