-- ===== src/Auth/Updates.antt =====
-- What updateUser of services/auth/controllers/users.controller.js do to the tables.
use bearlink.Prelude.{
  String, Bool, true, false, Option, none, some, List, [], ◌∷◌, ◌++◌, map, first, ◌≡◌, refl, ◌⊎◌,
  inl, inr, sym, ap, ◌∙◌, arith, if◌then◌else◌,
}
use bearlink.Prelude.Text.{trim}
use mathlib.Core.Path.{subst}
use bearlink.Prelude.Exec.{ok, pure, ◌>>=◌}
use bearlink.Shared.Json.{Json, null, bool, num, str, arr, obj, Number}
use bearlink.Shared.Validation.{is_valid_email, is_valid_name}
use bearlink.Shared.Numbers.{parse_any_int}
use bearlink.Auth.Record.{User, Reply, fail}
use bearlink.Auth.Platform.{AttemptStore, Accounts, World, query, given_result}
use bearlink.Auth.Tables.{Tables, IsLawful, is_id, has_email, change_user}
use bearlink.Auth.Reset.{is_truthy}
use bearlink.Auth.Users.{
  Update, profile_changes, changed_fields, profile_updated_event, text_of, is_same, is_undefined,
  check_name, check_free, check_current, check_new_email, check_email, update_ops, show_updated,
  save_fields, save_profile, update_named, update_found, update_user, with_user, refuse,
}
use bearlink.Auth.Effects.{
  Keeps, Answers, Answers-pure, Answers-given, Answers-if, EffectAt, EffectAt-Answers,
  EffectAt-catch, EffectAt-transact_then,
}
use bearlink.Auth.Changes.{EffectAt-user, update_applied}

module _ (A : Accounts) (T : AttemptStore) (L : IsLawful A) where
  -- a new name is the trimmed text of the body's, which is valid
  abbrev pub NameFrom : Update → Option String → Type 0
  NameFrom body none = Unit
  NameFrom body (some name) =
      (text : String) × (body.name ≡ some (str text))
      × (is_valid_name body.name ≡ true)
      × (name ≡ trim text)

  -- a new address is the body's, which is valid and no account's, and the body has the password
  abbrev pub EmailFrom : Update → User → Tables → Option String → Type 0
  EmailFrom body u t none = Unit
  EmailFrom body u t (some email) =
      (body.email ≡ some (str email))
      × (is_valid_email A.is_email body.email ≡ true)
      × (A.compare_password body.current_password u.password ≡ ok true)
      × (first (has_email email) t.users ≡ none)

  abbrev pub ProfileUpdated : Option Number → Update → Tables → Tables → Type 0
  ProfileUpdated id body t t' =
      (u : User) × (name : Option String) × (email : Option String) × (first
          (λ (v : User). is_id id v.id) t.users
        ≡ some u)
      × NameFrom body name
      × EmailFrom body u t email
      × (t' ≡ record t {
        users = map (change_user id (profile_changes name email)) t.users;
        events = t.events ++ profile_updated_event id (changed_fields name email) ∷ [];
      })

  -- what the check of the address finds
  abbrev EmailChecked : Update → User → Tables → Reply ⊎ Option String → Type 0
  EmailChecked body u t (inl reply) = Unit
  EmailChecked body u t (inr email) = EmailFrom body u t email

  email_checked :
      (body : Update) (u : User) (w : World A T)
      → Answers A T w (check_email A T body u) (EmailChecked body u (L.tables w.db))
  email_checked body u w =
      Answers-if A T w P (is_undefined body.email) (pure (inr none))
        (if is_same body.email u.email then pure (inr none) else check_new_email A T body u)
        (λ e. Answers-pure A T w P (inr none) tt)
        (λ e.
          Answers-if A T w P (is_same body.email u.email) (pure (inr none))
            (check_new_email A T body u) (λ e'. Answers-pure A T w P (inr none) tt) (λ e'. fresh))
    where
      P : Reply ⊎ Option String → Type 0
      P = EmailChecked body u (L.tables w.db)

      free :
          is_valid_email A.is_email body.email ≡ true
          → A.compare_password body.current_password u.password ≡ ok true
          → (b : Option User) → A.find_by_email body.email w.db ≡ ok b
          → Answers A T w (check_free A T body.email b) P
      free good right (some v) is = Answers-pure A T w P (inl (fail 409 "Email already in use.")) tt
      free good right none is =
          let (text, is_text, nobody) = L.find_by_email_ok body.email w.db none is in
          Answers-pure A T w P (inr (some (text_of body.email))) (
            subst (λ (e : String). EmailFrom body u (L.tables w.db) (some e))
              (sym (ap text_of is_text)) (is_text, good, right, sym nobody))

      fresh : Answers A T w (check_new_email A T body u) P
      fresh =
          Answers-if A T w P (is_valid_email A.is_email body.email)
            (if is_truthy body.current_password
              then given_result A T (A.compare_password body.current_password u.password)
                >>= check_current A T body.email
              else refuse A T 403 "Current password required to change email.")
            (refuse A T 400 "Invalid email format")
            (λ good.
              Answers-if A T w P (is_truthy body.current_password)
                (given_result A T (A.compare_password body.current_password u.password)
                  >>= check_current A T body.email)
                (refuse A T 403 "Current password required to change email.")
                (λ filled.
                  Answers-given A T w P (A.compare_password body.current_password u.password)
                    (check_current A T body.email)
                    (λ right compared.
                      Answers-if A T w P right
                        (query A T (A.find_by_email body.email) >>= check_free A T body.email)
                        (refuse A T 403 "Invalid current password.")
                        (λ e.
                          Answers-given A T w P (A.find_by_email body.email w.db)
                            (check_free A T body.email) (free good (compared ∙ ap ok e)))
                        (λ e.
                          Answers-pure A T w P (inl (fail 403 "Invalid current password.")) tt)))
                (λ empty.
                  Answers-pure A T w P (inl (fail 403 "Current password required to change email."))
                    tt))
            (λ bad. Answers-pure A T w P (inl (fail 400 "Invalid email format")) tt)

  -- what the check of the name finds
  abbrev NameChecked : Option Json → Reply ⊎ Option String → Type 0
  NameChecked value (inl reply) = Unit
  NameChecked value (inr none) = Unit
  NameChecked value (inr (some name)) =
      (text : String) × (value ≡ some (str text))
      × (is_valid_name value ≡ true)
      × (name ≡ trim text)

  name_checked : (value : Option Json) → NameChecked value (check_name value)
  name_checked none = tt
  name_checked (some (str text)) = go (is_valid_name (some (str text))) refl
    where
      go :
          (valid : Bool)
          → is_valid_name (some (str text)) ≡ valid
          → NameChecked (some (str text)) (
              if valid
              then inr (some (trim text))
              else inl (fail 400 "Name must be 1-100 characters"))
      go true good = (text, refl, good, refl)
      go false bad = tt
  name_checked (some null) = tt
  name_checked (some (bool b)) = tt
  name_checked (some (num n)) = tt
  name_checked (some (arr items)) = tt
  name_checked (some (obj fields)) = tt

  -- `updateUser` leaves the tables as they were, or it changes the account of the path's id, with one
  -- event. A new name is valid and trimmed. A new address is valid and no other account's, and the
  -- body has the account's current password with it. The password and the role stay.
  pub update_user_effect :
      (user_id : String) (body : Update) (w : World A T)
      → EffectAt A T L w
          (ProfileUpdated (parse_any_int user_id) body (L.tables w.db))
          (update_user A T user_id body)
  unfolding update_user
  update_user_effect user_id body w =
      EffectAt-catch A T L w R (with_user A T id (update_found A T id body))
        (λ e. pure (fail 500 "Failed to update profile."))
        (EffectAt-user A T L w R id (update_found A T id body)
          (λ u is. named u is (check_name body.name) (name_checked body.name)))
        (λ e v. refl)
    where
      id : Option Number
      id = parse_any_int user_id

      R : Tables → Type 0
      R = ProfileUpdated id body (L.tables w.db)

      saved :
          (u : User) (name email : Option String) (fields : List String)
          → first (λ (v : User). is_id id v.id) (L.tables w.db).users ≡ some u
          → NameFrom body name
          → EmailFrom body u (L.tables w.db) email
          → EffectAt A T L w R (save_fields A T id u name email fields)
      saved u name email [] is new_name new_email = inl refl
      saved u name email (field ∷ fields) is new_name new_email =
          EffectAt-transact_then A T L w R (update_ops A T id name email) (show_updated A T) shown
            (λ k at t' applied. (
              u,
              name,
              email,
              is,
              new_name,
              new_email,
              (update_applied A T L k at id (profile_changes name email)
                  (profile_updated_event id (changed_fields name email)) (L.tables w.db) t'
                  applied).1,
            ))
        where
          shown : (made : Option User) → Keeps A T (show_updated A T made)
          shown none v = refl
          shown (some x) v = ground arith

      checked :
          (u : User) (name : Option String)
          → first (λ (v : User). is_id id v.id) (L.tables w.db).users ≡ some u
          → NameFrom body name
          → (c : Reply ⊎ Option String) → EmailChecked body u (L.tables w.db) c
          → EffectAt A T L w R (save_profile A T id u name c)
      checked u name is new_name (inl reply) no_email = inl refl
      checked u name is new_name (inr email) new_email =
          saved u name email (changed_fields name email) is new_name new_email

      named :
          (u : User)
          → first (λ (v : User). is_id id v.id) (L.tables w.db).users ≡ some u
          → (c : Reply ⊎ Option String) → NameChecked body.name c
          → EffectAt A T L w R (update_named A T id body u c)
      named u is (inl reply) no_name = inl refl
      named u is (inr none) no_name =
          EffectAt-Answers A T L w R (check_email A T body u) (EmailChecked body u (L.tables w.db))
            (save_profile A T id u none) (email_checked body u w) (checked u none is tt)
      named u is (inr (some name)) new_name =
          EffectAt-Answers A T L w R (check_email A T body u) (EmailChecked body u (L.tables w.db))
            (save_profile A T id u (some name)) (email_checked body u w)
            (checked u (some name) is new_name)
