-- ===== src/Auth/Granted.antt =====
-- When `login` starts a session.
use bearlink.Prelude.{
  String, Bool, true, false, Option, none, some, [], ◌∷◌, ◌++◌, first, ◌≡◌, refl, sym, ap, ◌∙◌,
  arith,
}
use bearlink.Prelude.Exec.{Result, ok, err, Exec, Failure, recover, continue, pure}
use bearlink.Shared.Json.{str}
use bearlink.Auth.Record.{User, SafeUser, sanitize_user, claims_of, Cookie, Reply, fail, session}
use bearlink.Auth.Platform.{AttemptStore, Accounts, Setup, World, note}
use bearlink.Auth.Tables.{IsLawful, has_email}
use bearlink.Auth.Session.{
  login_failed_event, record_failure, Login, set_token_cookie, start_session, login_event, compared,
  check_password, login_after_check, login,
}

module _ (A : Accounts) (T : AttemptStore) (L : IsLawful A) (setup : Setup) (body : Login)
    (w : World A T) where
  abbrev checked_attempts : T.State
  checked_attempts = (T.is_locked setup.now body.email w.attempts).1

  -- the session is the user's, of the address and the password of the body, and the state is the one
  -- after a login that succeeds
  pub record IsGranted (s : SafeUser) (c : Cookie) (u : User) (token : String) (after : World A T)
      : Type 0 where
    pub unlocked : (T.is_locked setup.now body.email w.attempts).0 ≡ ok false
    pub found :
        (email : String) × (body.email ≡ some (str email))
        × (first (has_email email) (L.tables w.db).users ≡ some u)
    pub right_password : A.compare_password body.password u.password ≡ ok true
    pub signed : A.sign_jwt (claims_of u) ≡ ok token
    pub shown : s ≡ sanitize_user u
    pub cookie : c ≡ set_token_cookie setup token
    pub forgotten : after.attempts ≡ (T.clear_attempts setup.now body.email checked_attempts).1
    pub noted :
        L.tables after.db
        ≡ record (L.tables w.db) { events = (L.tables w.db).events ++ login_event u ∷ [] }

  module _ (s : SafeUser) (c : Cookie) where
    abbrev failed : Failure → Exec (World A T) Reply
    failed e = pure (fail 400 "User login failed.")

    -- what holds of the result of the rest of the handler, once its errors are caught
    abbrev GrantedBy : Result Reply × World A T → Type 0
    GrantedBy r =
        (recover r failed).0 ≡ ok (session s c)
        → (u : User) × (token : String) × IsGranted s c u token (recover r failed).1

    -- a rejected login answers with an error
    rejected_note :
        (r : Result (Unit {0}) × World A T)
        → GrantedBy (continue r (λ u. pure (fail 400 "Invalid email or password.")))
    rejected_note (ok tt, v) h = absurd (ground arith)
    rejected_note (err e, v) h = absurd (ground arith)

    rejected :
        (r : Result (Unit {0}) × World A T)
        → GrantedBy (
            continue
              (continue r (λ u. note A T (login_failed_event body.email)))
              (λ u. pure (fail 400 "Invalid email or password.")))
    rejected (ok tt, v) h = rejected_note (note A T (login_failed_event body.email) v) h
    rejected (err e, v) h = absurd (ground arith)

    module _ (st : T.State)
        (is : T.is_locked setup.now body.email w.attempts ≡ (ok false, st)) where
      abbrev checked : World A T
      checked = record w { attempts = st }

      module _ (u : User) (found : A.find_by_email body.email w.db ≡ ok (some u))
          (right : A.compare_password body.password u.password ≡ ok true) (st' : T.State)
          (cleared : (T.clear_attempts setup.now body.email st).1 ≡ st') (db : A.Db)
          (is_noted : A.insert_event (login_event u) w.db ≡ (ok tt, db)) where
        started :
            (r : Result String)
            → A.sign_jwt (claims_of u) ≡ r
            → GrantedBy (
                continue {S = World A T}
                  (r, record w { attempts = st'; db = db })
                  (λ token. pure (session (sanitize_user u) (set_token_cookie setup token))))
        started (err e) signed h = absurd (ground arith)
        started (ok token) signed h = (
          u,
          token,
          record {
            unlocked = ap (λ (p : Result Bool × T.State). p.0) is;
            found =
                let (e, is_e, same) = L.find_by_email_ok body.email w.db (some u) found in
                (e, is_e, sym same);
            right_password = right;
            signed = signed;
            shown = cc;
            cookie = cc;
            forgotten =
                sym cleared
                ∙ ap (λ (p : Result Bool × T.State). (T.clear_attempts setup.now body.email p.1).1)
                    (sym is);
            noted = L.event_ok (login_event u) w.db db is_noted;
          },
        )

      module _ (u : User) (found : A.find_by_email body.email w.db ≡ ok (some u))
          (right : A.compare_password body.password u.password ≡ ok true) where
        noted_in :
            (st' : T.State) (r : Result (Unit {0}) × A.Db)
            → (T.clear_attempts setup.now body.email st).1 ≡ st'
            → A.insert_event (login_event u) w.db ≡ r
            → GrantedBy (
                continue {S = World A T}
                  (r.0, record w { attempts = st'; db = r.1 })
                  (λ done. start_session A T setup u))
        noted_in st' (ok tt, db) cleared noted h =
            started u found right st' cleared db noted (A.sign_jwt (claims_of u)) refl h
        noted_in st' (err e, db) cleared noted h = absurd (ground arith)

        accepted :
            (r : Result (Unit {0}) × T.State)
            → T.clear_attempts setup.now body.email st ≡ r
            → GrantedBy (
                continue
                  (continue {S = World A T}
                    (r.0, record w { attempts = r.1 })
                    (λ done. note A T (login_event u)))
                  (λ done. start_session A T setup u))
        accepted (ok tt, st') cleared h =
            noted_in st' (A.insert_event (login_event u) w.db)
              (ap (λ (p : Result (Unit {0}) × T.State). p.1) cleared) refl h
        accepted (err e, st') cleared h = absurd (ground arith)

      compared_with :
          (u : User) (r : Result Bool)
          → A.find_by_email body.email w.db ≡ ok (some u)
          → A.compare_password body.password u.password ≡ r
          → GrantedBy (continue (r, checked) (compared A T setup body.email u))
      compared_with u (ok true) found right h =
          accepted u found right (T.clear_attempts setup.now body.email st) refl h
      compared_with u (ok false) found wrong h =
          rejected (record_failure A T setup body.email checked) h
      compared_with u (err e) found threw h = absurd (ground arith)

      looked_up :
          (r : Result (Option User))
          → A.find_by_email body.email w.db ≡ r
          → GrantedBy (continue (r, checked) (check_password A T setup body))
      looked_up (ok none) found h = rejected (record_failure A T setup body.email checked) h
      looked_up (ok (some u)) found h =
          compared_with u (A.compare_password body.password u.password) found refl h
      looked_up (err e) found h = absurd (ground arith)

    locked_or_not :
        (r : Result Bool × T.State)
        → T.is_locked setup.now body.email w.attempts ≡ r
        → GrantedBy (continue (r.0, record w { attempts = r.1 }) (login_after_check A T setup body))
    locked_or_not (err e, st) is h = absurd (ground arith)
    locked_or_not (ok true, st) is h = absurd (ground arith)
    locked_or_not (ok false, st) is h = looked_up st is (A.find_by_email body.email w.db) refl h

  -- `login` answers with a session only if the store says that the address is not locked, the account
  -- with that address has the password, and the session's token was signed for that account. The
  -- failures of the address are then cleared, and one user_login event is added.
  pub login_grants :
      (s : SafeUser) (c : Cookie)
      → (login A T setup body w).0 ≡ ok (session s c)
      → (u : User) × (token : String) × IsGranted s c u token (login A T setup body w).1
  unfolding login
  login_grants s c h = locked_or_not s c (T.is_locked setup.now body.email w.attempts) refl h
