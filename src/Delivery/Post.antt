-- ===== src/Delivery/Post.antt =====
-- What one request of the poller does at the audit service, whatever the network does to it.
use bearlink.Prelude.{ℕ, String, Bool, true, false, Option, some, List, [], ◌∷◌, ◌≡◌, refl, ap}
use bearlink.Prelude.{◌⊎◌, inl, inr, map, Bool-cases, arith, if_true, if_false, ◌∙◌, sym}
use bearlink.Prelude.Exec.{Result, ok, err, other}
use bearlink.Outbox.{Row, OutboxTable}
use bearlink.Outbox.Poller.{
  Setup, Network, answered, request_lost, response_lost, to_event, header_of, is_ok, post_batch,
  audit_app,
}
use bearlink.Audit.{
  AuditEvent, Entry, Reply, AuditTable, answer, IsLawful, add_new, to_entry, require_audit_secret,
  audit_events_route, status,
}
use mathlib.Core.Path.{subst₃}
use mathlib.Core.List.{map-map}

-- The audit row of an outbox row.
abbrev pub entry_of : String → Row → Entry
entry_of source r = to_entry (to_event source r)

module _ (A : AuditTable) where
  -- Either nothing was stored and the status is not 2xx, or all of the batch was offered.
  abbrev pub Effect : List Entry → Result ℕ → A.State → A.State → Type 0
  Effect new outcome a a' =
      (A.entries a' ≡ A.entries a) × ((code : ℕ) → outcome ≡ ok code → is_ok code ≡ false)
      ⊎ (A.entries a' ≡ add_new new (A.entries a))

  module _ (L : IsLawful A) where
    answer-Effect :
        (received : ℕ) (events : List AuditEvent) (result : Result ℕ × A.State) (a a' : A.State)
        (reply : Reply)
        → A.create_many (map to_entry events) a ≡ result
        → answer A received result ≡ (reply, a')
        → Effect (map to_entry events) (ok (status reply)) a a'
    answer-Effect received events (err e, s) a a' reply h eq =
        let same = ap (λ (p : Reply × A.State). p.1) eq in
        let replied = ap (λ (p : Reply × A.State). status p.0) eq in
        inl (
          ap A.entries (sym same) ∙ L.create_err (map to_entry events) a s e h,
          λ code c. ground (arith, replied, c),
        )
    answer-Effect received events (ok count, s) a a' reply h eq =
        let same = ap (λ (p : Reply × A.State). p.1) eq in
        inr (ap A.entries (sym same) ∙ (L.create_ok (map to_entry events) a s count h).0)

    route-Effect :
        (secret header : Option String) (event : AuditEvent) (events : List AuditEvent)
        (a a' : A.State) (reply : Reply)
        → audit_events_route A secret header (some (event ∷ events)) a ≡ (reply, a')
        → Effect (map to_entry (event ∷ events)) (ok (status reply)) a a'
    unfolding audit_events_route
    route-Effect secret header event events a a' reply h =
        elim (Bool-cases (require_audit_secret header secret)) [
          | inl admitted ↦
              answer-Effect _ (event ∷ events) _ a a' reply refl (sym (if_true _ _ admitted) ∙ h)
          | inr refused ↦
              let eq = sym (if_false _ _ refused) ∙ h in
              let same = ap (λ (p : Reply × A.State). p.1) eq in
              let replied = ap (λ (p : Reply × A.State). status p.0) eq in
              inl (ap A.entries (sym same), λ code c. ground (arith, replied, c))
        ]

  module _ (setup : Setup) (T : OutboxTable) (L : IsLawful A) where
    abbrev route : List Row → A.State → Reply × A.State
    route batch a =
        audit_events_route A setup.audit_secret (header_of setup.poller_secret)
          (some (map (to_event setup.source_service) batch)) a

    reached :
        (batch : List Row) (a : A.State)
        → Effect
            (map to_entry (map (to_event setup.source_service) batch))
            (ok (status (route batch a).0))
            a
            (route batch a).1
    unfolding audit_events_route add_new
    reached [] a =
        elim (Bool-cases
          (require_audit_secret (header_of setup.poller_secret) setup.audit_secret)) [
            | inl admitted ↦ inr (rw admitted)
            | inr refused ↦ inr (rw refused)
          ]
    reached (r ∷ rs) a =
        route-Effect L setup.audit_secret (header_of setup.poller_secret)
          (to_event setup.source_service r) (map (to_event setup.source_service) rs) a
          (route (r ∷ rs) a).1 (route (r ∷ rs) a).0 refl

    within :
        (fits : Bool) (batch : List Row) (a : A.State)
        → setup.fits_body (map (to_event setup.source_service) batch) ≡ fits
        → Effect
            (map to_entry (map (to_event setup.source_service) batch))
            (ok (audit_app setup T A (map (to_event setup.source_service) batch) a).0)
            a
            (audit_app setup T A (map (to_event setup.source_service) batch) a).1
    within true batch a h = rw h (reached batch a)
    within false batch a h = rw h (inl (refl, λ code c. ground (arith, c)))

    unanswered :
        (new : List Entry) (outcome : Result ℕ) (a a' : A.State)
        → Effect new outcome a a'
        → Effect new (err other) a a'
    unanswered new outcome a a' (inl (same, _)) = inl (same, λ code c. cc)
    unanswered new outcome a a' (inr offered) = inr offered

    -- A request stores nothing and is not answered with a 2xx status, or it offers every row of the
    -- batch to the table.
    pub post_batch-Effect :
        (network : Network) (batch : List Row) (outcome : Result ℕ) (a a' : A.State)
        → post_batch setup T A network batch a ≡ (outcome, a')
        → Effect (map (entry_of setup.source_service) batch) outcome a a'
    unfolding post_batch
    post_batch-Effect request_lost batch outcome a a' h =
        inl (ap A.entries (sym (ap (λ (p : Result ℕ × A.State). p.1) h)), λ code c. cc)
    post_batch-Effect answered batch outcome a a' h =
        subst₃ (λ n o s. Effect n o a s) (map-map to_entry (to_event setup.source_service) batch)
          (ap (λ (p : Result ℕ × A.State). p.0) h) (ap (λ (p : Result ℕ × A.State). p.1) h)
          (within _ batch a refl)
    post_batch-Effect response_lost batch outcome a a' h =
        subst₃ (λ n o s. Effect n o a s) (map-map to_entry (to_event setup.source_service) batch)
          (ap (λ (p : Result ℕ × A.State). p.0) h) (ap (λ (p : Result ℕ × A.State). p.1) h)
          (unanswered _ _ a _ (within _ batch a refl))
