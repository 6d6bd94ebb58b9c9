-- ===== src/Auth/Attempts.antt =====
-- The stores of failed logins that the handlers are given: services/auth/services/loginAttempts.js as
-- an `AttemptStore`, and what it does to logins.
use bearlink.Prelude.{
  ℕ, ◌+◌, ◌<◌, ◌≤◌, String, Bool, true, false, Option, none, some, List, [], ◌∷◌, map, length, ◌≡◌,
  refl, ◌⊎◌, inl, inr, sym, ap, ◌∙◌, arith,
}
use mathlib.Core.Path.{subst}
use bearlink.Prelude.Exec.{Result, ok, err, Exec, Failure, recover, continue, pure}
use bearlink.Shared.Json.{Json, str}
use bearlink.Auth.Record.{User, Reply, fail}
use bearlink.Auth.LoginAttempts.{
  Store, lock_threshold, lockout_ms, is_locked, record_failed_attempt, clear_attempts,
}
use bearlink.Auth.LoginAttempts.Lockout.{failures, locks, is_locked-failures, is_locked-few}
use bearlink.Auth.Platform.{AttemptStore, Accounts, Setup, World}
use bearlink.Auth.Tables.{Tables, IsLawful}
use bearlink.Auth.Session.{
  login_failed_event, reject_login, Login, login_after_check, compared, check_password, try_login,
  login,
}

-- a result of the store, which never throws
abbrev pub done : {B S : Type 0} → B × S → Result B × S
done (b, s) = (ok b, s)

-- The Map of the store. Only texts are ever put in it: `login` records an address that a findUnique
-- took, and those are texts.
abbrev pub check_value : ℕ → Option Json → Store → Bool × Store
check_value now (some (str email)) store = is_locked now email store
check_value now _ store = (false, store)

abbrev pub record_value : ℕ → Option Json → Store → Store
record_value now (some (str email)) store = record_failed_attempt now email store
record_value now _ store = store

abbrev pub clear_value : Option Json → Store → Store
clear_value (some (str email)) store = clear_attempts email store
clear_value _ store = store

abbrev pub memory_store : AttemptStore
memory_store = record {
  State = Store;
  is_locked = λ now email store. done (check_value now email store);
  record_failed_attempt = λ now email store. (ok tt, record_value now email store);
  clear_attempts = λ now email store. (ok tt, clear_value email store);
}

module _ (A : Accounts) (L : IsLawful A) (email : String) where
  -- a password that is not the one of the account with the address, while the accounts are these
  abbrev pub IsWrong : Option Json → List User → Type 0
  IsWrong password users =
      (db : A.Db)
      → (L.tables db).users ≡ users
      → (A.find_by_email (some (str email)) db ≡ ok none)
        ⊎ ((u : User) × (A.find_by_email (some (str email)) db ≡ ok (some u))
            × (A.compare_password password u.password ≡ ok false))

  abbrev pub with_password : Option Json → Login
  with_password password = record { email = some (str email); password = password }

  -- a login with the address: where and when, and the password
  abbrev pub Attempt : Type 0
  Attempt = Setup × Option Json

  -- logins one after the other, the last one first
  abbrev pub logins : List Attempt → World A memory_store → World A memory_store
  logins [] w = w
  logins ((setup, password) ∷ earlier) w =
      (login A memory_store setup (with_password password) (logins earlier w)).1

  -- each of the attempts has a wrong password
  abbrev pub AreWrong : List User → List Attempt → Type 0
  AreWrong users [] = Unit
  AreWrong users ((setup, password) ∷ earlier) = IsWrong password users × AreWrong users earlier

  abbrev times_of : List Attempt → List ℕ
  times_of = map (λ (s : Attempt). s.0.now)

  length-times : (setups : List Attempt) → length (times_of setups) ≡ length setups
  length-times [] = refl
  length-times (s ∷ setups) = omega (arith, length-times setups)

  abbrev failed : Failure → Exec (World A memory_store) Reply
  failed e = pure (fail 400 "User login failed.")

  -- what a rejected login leaves: the failure is recorded, and the accounts are the same
  abbrev Counted : Setup → World A memory_store → Result Reply × World A memory_store → Type 0
  Counted setup w r =
      ((recover r failed).1.attempts ≡ record_failed_attempt setup.now email w.attempts)
      × ((L.tables (recover r failed).1.db).users ≡ (L.tables w.db).users)

  reject_login-Counted :
      (setup : Setup) (w : World A memory_store)
      → Counted setup w (reject_login A memory_store setup (some (str email)) w)
  reject_login-Counted setup w =
      go (A.insert_event (login_failed_event (some (str email))) w.db) refl
    where
      go :
          (r : Result (Unit {0}) × A.Db)
          → A.insert_event (login_failed_event (some (str email))) w.db ≡ r
          → Counted setup w (
              continue {S = World A memory_store}
                (
                  r.0,
                  record w {
                    attempts = record_failed_attempt setup.now email w.attempts;
                    db = r.1;
                  },
                )
                (λ u. pure (fail 400 "Invalid email or password.")))
      go (ok tt, db) is = (
        refl,
        ap (λ (t : Tables). t.users)
            (L.event_ok (login_failed_event (some (str email))) w.db db is),
      )
      go (err e, db) is = (
        refl,
        ap (λ (t : Tables). t.users)
            (L.event_err (login_failed_event (some (str email))) w.db db e is),
      )

  -- a wrong password, with the address not locked, is recorded
  wrong_login :
      (password : Option Json) (setup : Setup) (w : World A memory_store)
      → IsWrong password (L.tables w.db).users
      → is_locked setup.now email w.attempts ≡ (false, w.attempts)
      → Counted setup w (try_login A memory_store setup (with_password password) w)
  wrong_login password setup w wrong is =
      subst (λ (p : Bool × Store). Counted setup w (after_check p)) (sym is)
        (looked_up (A.find_by_email (some (str email)) w.db) (wrong w.db refl))
    where
      after_check : Bool × Store → Result Reply × World A memory_store
      after_check p =
          continue {S = World A memory_store} (ok p.0, record w { attempts = p.1 })
            (login_after_check A memory_store setup (with_password password))

      compared_with :
          (u : User) (r : Result Bool)
          → r ≡ ok false
          → Counted setup w (continue (r, w) (compared A memory_store setup (some (str email)) u))
      compared_with u (ok true) no_match = absurd (ground arith)
      compared_with u (ok false) no_match = reject_login-Counted setup w
      compared_with u (err e) no_match = absurd (ground arith)

      looked_up :
          (r : Result (Option User))
          → (r ≡ ok none)
            ⊎ ((u : User) × (r ≡ ok (some u)) × (A.compare_password password u.password ≡ ok false))
          → Counted setup w
              (continue (r, w) (check_password A memory_store setup (with_password password)))
      looked_up (ok none) cases = reject_login-Counted setup w
      looked_up (ok (some v)) (inl nobody) = absurd (ground arith)
      looked_up (ok (some v)) (inr (u, is_u, no_match)) =
          let same : u ≡ v = cc in
          compared_with v (A.compare_password password v.password)
            (subst (λ (x : User). A.compare_password password x.password ≡ ok false) same no_match)
      looked_up (err e) (inl nobody) = absurd (ground arith)
      looked_up (err e) (inr (u, is_u, no_match)) = absurd (ground arith)

  -- up to five wrong logins are all recorded
  wrong_logins :
      (tried : List Attempt) (w : World A memory_store)
      → AreWrong (L.tables w.db).users tried
      → w.attempts email ≡ none
      → length tried ≤ lock_threshold
      → ((logins tried w).attempts ≡ failures email (times_of tried) w.attempts)
        × ((L.tables (logins tried w).db).users ≡ (L.tables w.db).users)
  unfolding login
  wrong_logins [] w wrong new few = (refl, refl)
  wrong_logins ((setup, password) ∷ earlier) w (wrong, others) new few =
      let v = logins earlier w in
      let (before, same) = wrong_logins earlier w others new (omega (arith, few)) in
      let short : length (times_of earlier) < lock_threshold =
        omega (arith, few, length-times earlier) in
      let open_then : is_locked setup.now email v.attempts ≡ (false, v.attempts) =
        subst (λ (st : Store). is_locked setup.now email st ≡ (false, st)) (sym before)
          (is_locked-few email (times_of earlier) w.attempts setup.now new short) in
      let (counted, kept) =
        wrong_login password setup v (subst (IsWrong password) (sym same) wrong) open_then in
      (counted ∙ ap (record_failed_attempt setup.now email) before, kept ∙ same)

  -- After five logins one after the other, each with a wrong password of its own, in which no lookup
  -- of the account fails, of an address that had no failures, a login with the address and any password is refused with 429 and leaves the
  -- database as it was, until 15 minutes after the last of them.
  pub five_failures_lock :
      (attempt : Option Json) (last : Attempt) (earlier : List Attempt) (later : Setup)
      (w : World A memory_store)
      → AreWrong (L.tables w.db).users (last ∷ earlier)
      → w.attempts email ≡ none
      → length earlier ≡ 4
      → later.now < last.0.now + lockout_ms
      → ((login A memory_store later (with_password attempt) (logins (last ∷ earlier) w)).0
          ≡ ok (fail 429 "Too many failed login attempts. Try again in 15 minutes."))
        × ((login A memory_store later (with_password attempt) (logins (last ∷ earlier) w)).1.db
            ≡ (logins (last ∷ earlier) w).db)
  unfolding login
  five_failures_lock attempt last earlier later w wrong new five soon =
      let v = logins (last ∷ earlier) w in
      let counted = wrong_logins (last ∷ earlier) w wrong new (omega (arith, five)) in
      let locked : locks later.now (times_of (last ∷ earlier)) ≡ true =
        ground (arith, length-times earlier) in
      let is : (is_locked later.now email v.attempts).0 ≡ true =
        ap (λ (st : Store). (is_locked later.now email st).0) counted.0
        ∙ (is_locked-failures email (times_of (last ∷ earlier)) w.attempts later.now new).0
        ∙ locked in
      rw is (refl, refl)
