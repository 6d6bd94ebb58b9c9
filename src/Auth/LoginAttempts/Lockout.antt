-- ===== src/Auth/LoginAttempts/Lockout.antt =====
-- When a series of failed logins locks an address, and for how long.
use bearlink.Prelude.{
  ℕ, ◌+◌, ◌≤◌, ◌<◌, String, Bool, true, false, Option, none, some, List, [], ◌∷◌, length, leb, ltb,
  ◌&&◌, ◌≡◌, refl, ap, ◌∙◌, arith, Bool-cases, inl, inr, if_true,
}
use text.Mathlib.TextPositions.{eq_refl}
use bearlink.Auth.LoginAttempts.{
  lock_threshold, lockout_ms, Entry, Store, locked_entry, expired_entry, is_locked, entry_or_new,
  count_failure, record_failed_attempt,
}

-- the failures at the given times, the last one first
abbrev pub failures : String → List ℕ → Store → Store
failures email [] store = store
failures email (t ∷ earlier) store = record_failed_attempt t email (failures email earlier store)

-- whether so many failures lock, with the last of them at the given time
abbrev pub locks : ℕ → List ℕ → Bool
locks now [] = false
locks now (t ∷ earlier) = leb lock_threshold (length (t ∷ earlier)) && ltb now (t + lockout_ms)

-- the entry after the failures, from none
abbrev entry_after : List ℕ → Option Entry
entry_after [] = none
entry_after (t ∷ earlier) = some (count_failure t (entry_or_new (entry_after earlier)))

failures-entry :
    (email : String) (times : List ℕ) (store : Store)
    → store email ≡ none
    → failures email times store email ≡ entry_after times
unfolding record_failed_attempt
failures-entry email [] store h = h
failures-entry email (t ∷ earlier) store h =
    if_true _ _ (eq_refl email)
    ∙ ap (λ (e : Option Entry). some (count_failure t (entry_or_new e)))
        (failures-entry email earlier store h)

entry_after-count : (times : List ℕ) → (entry_or_new (entry_after times)).count ≡ length times
entry_after-count [] = refl
entry_after-count (t ∷ earlier) = ground (arith, entry_after-count earlier)

entry_after-open :
    (times : List ℕ)
    → length times < lock_threshold
    → (entry_or_new (entry_after times)).locked_until ≡ none
entry_after-open [] h = refl
entry_after-open (t ∷ earlier) h =
    ground (arith, entry_after-count earlier, entry_after-open earlier (omega (arith, h)))

entry_after-locks :
    (now : ℕ) (times : List ℕ) → locked_entry now (entry_after times) ≡ locks now times
entry_after-locks now [] = refl
entry_after-locks now (t ∷ earlier) =
    let counted = entry_after-count earlier in
    elim (Bool-cases (leb lock_threshold ((entry_or_new (entry_after earlier)).count + 1))) [
      | inl many ↦
          let many' : leb lock_threshold (length (t ∷ earlier)) ≡ true = ground (arith, counted) in
          rw (many, many')
      | inr few ↦
          let few' : leb lock_threshold (length (t ∷ earlier)) ≡ false = ground (arith, counted) in
          let none_yet = entry_after-open earlier (ground (arith, counted)) in
          rw (few, few', none_yet)
    ]

expired-entry_after :
    (now : ℕ) (times : List ℕ)
    → lock_threshold ≤ length times
    → locks now times ≡ false
    → expired_entry now (entry_after times) ≡ true
expired-entry_after now [] many over = absurd (omega arith)
expired-entry_after now (t ∷ earlier) many over =
    let counted = entry_after-count earlier in
    let reached : leb lock_threshold ((entry_or_new (entry_after earlier)).count + 1) ≡ true =
      ground (arith, counted) in
    let past : leb (t + lockout_ms) now ≡ true = ground arith in rw (reached, past)

-- fewer failures leave the address open, and a check leaves them alone
pub is_locked-few :
    (email : String) (times : List ℕ) (store : Store) (now : ℕ)
    → store email ≡ none
    → length times < lock_threshold
    → is_locked now email (failures email times store) ≡ (false, failures email times store)
unfolding is_locked
is_locked-few email times store now h few =
    let same = failures-entry email times store h in
    let still : expired_entry now (failures email times store email) ≡ false =
      ap (expired_entry now) same ∙ open_entry times few in
    let unlocked : locked_entry now (failures email times store email) ≡ false =
      ap (locked_entry now) same ∙ entry_after-locks now times ∙ few_locks times few in
    rw (still, unlocked) refl
  where
    open_entry :
        (times : List ℕ)
        → length times < lock_threshold
        → expired_entry now (entry_after times) ≡ false
    open_entry [] few = refl
    open_entry (t ∷ earlier) few =
        let counted = entry_after-count earlier in
        let none_yet = entry_after-open earlier (omega (arith, few)) in ground arith

    few_locks : (times : List ℕ) → length times < lock_threshold → locks now times ≡ false
    few_locks [] few = refl
    few_locks (t ∷ earlier) few = ground arith

-- After failed logins of an address that had none, one after the other at the given times, the
-- address is locked exactly if there were at least five and the last one is less than 15 minutes
-- ago. A check that finds such a lock over forgets the failures.
pub is_locked-failures :
    (email : String) (times : List ℕ) (store : Store) (now : ℕ)
    → store email ≡ none
    → ((is_locked now email (failures email times store)).0 ≡ locks now times)
      × (lock_threshold ≤ length times
          → locks now times ≡ false
          → (is_locked now email (failures email times store)).1 email ≡ none)
unfolding is_locked
is_locked-failures email times store now h =
    let same = failures-entry email times store h in
    (
      ap (locked_entry now) same ∙ entry_after-locks now times,
      λ many over.
          let past : expired_entry now (failures email times store email) ≡ true =
            ap (expired_entry now) same ∙ expired-entry_after now times many over in
          ap (λ (s : Store). s email) (if_true _ _ past) ∙ if_true _ _ (eq_refl email),
    )
