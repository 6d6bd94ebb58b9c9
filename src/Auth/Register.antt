-- ===== src/Auth/Register.antt =====
-- What `register` does to the tables.
use bearlink.Prelude.{
  ℕ, String, Bool, true, false, Option, none, some, List, [], ◌∷◌, ◌++◌, any, ◌||◌, ◌==◌, ◌≡◌, refl,
  inl, inr, arith, Bool-cases, if◌then◌else◌,
}
use bearlink.Prelude.Exec.{ok, pure, ◌>>=◌}
use bearlink.Shared.Json.{Json, str}
use bearlink.Shared.Validation.{is_valid_email, is_valid_password}
use bearlink.Auth.Record.{User, fail}
use bearlink.Auth.Platform.{create_event, AttemptStore, Accounts, Setup, World, transact}
use bearlink.Auth.Tables.{
  Tables, IsLawful, has_email, new_user, insert_named, add_user, apply_all, and_then,
}
use bearlink.Auth.Session.{
  Registration, registered_event, missing_in, password_message, refuse_registration,
  registration_ops, welcome_user, start_session, save_registration, register_checked, register,
}
use bearlink.Auth.Effects.{Keeps, EffectAt, EffectAt-given, EffectAt-catch, EffectAt-transact_then}

module _ (A : Accounts) (T : AttemptStore) (L : IsLawful A) (setup : Setup) where
  -- one new account, of an address that no account had, with its user_registered event
  abbrev pub Registered : Registration → Tables → Tables → Type 0
  Registered body t t' =
      (k : ℕ) × (at : ℕ) × (email : String) × (name : String) × (hash : String) × (body.email
        ≡ some (str email))
      × (body.name ≡ some (str name))
      × (is_valid_email A.is_email body.email ≡ true)
      × (is_valid_password body.password ≡ true)
      × (A.hash_password body.password ≡ ok hash)
      × (any (λ (v : User). v.id == k || has_email email v) t.users ≡ false)
      × (t' ≡ record {
        users = t.users ++ new_user k at email hash name ∷ [];
        tokens = t.tokens;
        events = t.events ++ registered_event body.email ∷ [];
      })

  start_session-Keeps : (u : User) → Keeps A T (start_session A T setup u)
  start_session-Keeps u w = ground arith

  welcome_user-Keeps :
      (body : Registration) (made : Option User) → Keeps A T (welcome_user A T setup body made)
  welcome_user-Keeps body none w = refl
  welcome_user-Keeps body (some u) w = ground arith

  -- the transaction of a registration that goes through
  registration_applied :
      (k at : ℕ) (hash : String) (email name : Option Json) (t t' : Tables)
      → and_then
          (add_user (insert_named k at hash email name) t)
          (apply_all k at (create_event (registered_event email) ∷ []))
        ≡ some t'
      → (e : String) × (n : String) × (email ≡ some (str e))
        × (name ≡ some (str n))
        × (any (λ (v : User). v.id == k || has_email e v) t.users ≡ false)
        × (t' ≡ record {
          users = t.users ++ new_user k at e hash n ∷ [];
          tokens = t.tokens;
          events = t.events ++ registered_event email ∷ [];
        })
  registration_applied k at hash (some (str e)) (some (str n)) t t' h =
      elim (Bool-cases (any (λ (v : User). v.id == k || has_email e v) t.users)) [
        | inl clash ↦ absurd (ground arith)
        | inr fresh ↦ (e, n, refl, refl, fresh, ground arith)
      ]
  registration_applied k at hash email name t t' h = absurd (ground arith)

  -- `register` leaves the tables as they were, or it adds one account and one user_registered event
  -- together. The account has the name and the address of the body, which is valid and no other
  -- account's, the hash of its password, which is strong, and the role of a plain user.
  pub register_adds_one :
      (body : Registration) (w : World A T)
      → EffectAt A T L w (Registered body (L.tables w.db)) (register A T setup body)
  unfolding register
  register_adds_one body w = checked (missing_in A T setup body)
    where
      R : Tables → Type 0
      R = Registered body (L.tables w.db)

      saved :
          (hash : String)
          → is_valid_email A.is_email body.email ≡ true
          → is_valid_password body.password ≡ true
          → A.hash_password body.password ≡ ok hash
          → EffectAt A T L w R (save_registration A T setup body hash)
      saved hash email_ok password_ok hashed =
          EffectAt-catch A T L w R
            (transact A T (registration_ops A T setup body hash) >>= welcome_user A T setup body)
            (λ e. pure (fail 400 "User registration failed."))
            (EffectAt-transact_then A T L w R (registration_ops A T setup body hash)
              (welcome_user A T setup body) (welcome_user-Keeps body)
              (λ k at t' h.
                let (e, n, is_e, is_n, fresh, made) =
                  registration_applied k at hash body.email body.name (L.tables w.db) t' h in
                (k, at, e, n, hash, is_e, is_n, email_ok, password_ok, hashed, fresh, made)))
            (λ e v. refl)

      strong_or_not :
          (strong : Bool)
          → is_valid_email A.is_email body.email ≡ true
          → is_valid_password body.password ≡ strong
          → EffectAt A T L w R (
              register_checked A T setup body
                (if strong then none else some (fail 400 (password_message A T setup))))
      strong_or_not true good strong =
          EffectAt-given A T L w R (A.hash_password body.password)
            (save_registration A T setup body) (λ hash hashed. saved hash good strong hashed)
      strong_or_not false good weak = inl refl

      valid_or_not :
          (valid : Bool)
          → is_valid_email A.is_email body.email ≡ valid
          → EffectAt A T L w R (
              register_checked A T setup body (
                if valid
                then if is_valid_password body.password
                  then none
                  else some (fail 400 (password_message A T setup))
                else some (fail 400 "Invalid email format")))
      valid_or_not true good = strong_or_not (is_valid_password body.password) good refl
      valid_or_not false bad = inl refl

      checked :
          (missing : List String)
          → EffectAt A T L w R
              (register_checked A T setup body (refuse_registration A T setup body missing))
      checked (field ∷ fields) = inl refl
      checked [] = valid_or_not (is_valid_email A.is_email body.email) refl
