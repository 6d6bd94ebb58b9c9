-- ===== src/Delivery/Rounds.antt =====
-- One round of the poller, `poll`, as steps of the system.
use bearlink.Prelude.{ℕ, Option, none, some, List, [], ◌∷◌, ◌≡◌, refl, sym, str_eq}
use bearlink.Prelude.{inl, inr, Bool-cases, if_true, if_false}
use bearlink.Prelude.Exec.{Result, ok, err}
use bearlink.Outbox.{Row, OutboxTable}
use bearlink.Outbox.Poller.{Setup, Network, batch_size, post_batch, after_fetch}
use bearlink.Audit.{AuditTable}
use bearlink.Delivery.{post_accepted, mark, System, read, post_failed, Reach, here, next}
use Prim.Native.String.{String}
use bearlink.Outbox.Poller.{acknowledge, post_batch, is_ok, with_rows, with_url, poll}
use mathlib.Core.List.{Memᴰ}

module _ (setup : Setup) (T : OutboxTable) (A : AuditTable) where
  -- a state that steps lead to, with given databases
  abbrev pub Arrives : System setup T A → T.State × A.State → Type 0
  Arrives s (t, a) = (u : System setup T A) × Reach setup T A s u × (u.outbox ≡ t) × (u.audit ≡ a)

  fetched :
      (now : ℕ) (network : Network) (r : Row) (rs : List Row) (s : System setup T A)
      (result : Result ℕ × A.State)
      → T.find_unprocessed batch_size s.outbox ≡ ok (r ∷ rs)
      → post_batch setup T A network (r ∷ rs) s.audit ≡ result
      → Arrives s (after_fetch setup T A now (r ∷ rs) s.outbox result)
  fetched now network r rs s (err e, a) found posted = (
    record s { posting = (r ∷ rs) ∷ s.posting; audit = a },
    next (next here (read (r ∷ rs) found))
        (post_failed network (r ∷ rs) (err e) a (Memᴰ.head refl) posted),
    refl,
    refl,
  )
  fetched now network r rs s (ok code, a) found posted = elim (Bool-cases (is_ok code)) [
    | inl good ↦
        let (outcome, t) = acknowledge setup T A now (r ∷ rs) s.outbox in
        (
          record s {
            outbox = (acknowledge setup T A now (r ∷ rs) s.outbox).1;
            audit = a;
            posting = (r ∷ rs) ∷ s.posting;
            accepted = (r ∷ rs) ∷ s.accepted;
          },
          next
              (next (next here (read (r ∷ rs) found))
                (post_accepted network (r ∷ rs) code a (Memᴰ.head refl) posted good))
              (mark now (r ∷ rs) outcome t (Memᴰ.head refl) refl),
          sym (if_true _ _ good),
          refl,
        )
    | inr bad ↦ (
      record s { posting = (r ∷ rs) ∷ s.posting; audit = a },
      next (next here (read (r ∷ rs) found))
          (post_failed network (r ∷ rs) (ok code) a (Memᴰ.head refl) posted),
      sym (if_false _ _ bad),
      refl,
    )
  ]

  stays : (s : System setup T A) → Arrives s (s.outbox, s.audit)
  stays s = (s, here, refl, refl)

  rows-Arrives :
      (now : ℕ) (network : Network) (s : System setup T A) (found : Result (List Row))
      → T.find_unprocessed batch_size s.outbox ≡ found
      → Arrives s (with_rows setup T A now network found s.outbox s.audit).1
  rows-Arrives now network s (err e) h = stays s
  rows-Arrives now network s (ok []) h = stays s
  rows-Arrives now network s (ok (r ∷ rs)) h =
      fetched now network r rs s (post_batch setup T A network (r ∷ rs) s.audit) h refl

  url-Arrives :
      (now : ℕ) (network : Network) (url : Option String) (s : System setup T A)
      → Arrives s (with_url setup T A now network url s.outbox s.audit).1
  url-Arrives now network none s = stays s
  url-Arrives now network (some url) s = elim (Bool-cases (str_eq url "")) [
    | inl empty ↦ rw empty (stays s)
    | inr given ↦
        rw given (rows-Arrives now network s (T.find_unprocessed batch_size s.outbox) refl)
  ]

  -- Each round of the poller, whatever the network, the table and the audit service do, is a path
  -- of steps of the system: it reads a batch, posts it, and marks it if the answer was 2xx.
  pub poll-Reach :
      (now : ℕ) (network : Network) (s : System setup T A)
      → Arrives s (poll setup T A now network s.outbox s.audit).1
  unfolding poll
  poll-Reach now network s = url-Arrives now network setup.audit_service_url s
