-- ===== src/Auth/Changes.antt =====
-- What the handlers of services/auth/controllers/users.controller.js do to the tables.
use bearlink.Prelude.{
  ℕ, String, true, false, Option, none, some, List, [], ◌∷◌, ◌++◌, map, any, first, ◌≡◌, refl, inl,
  inr, sym, ap, ◌∙◌, arith, Bool-cases,
}
use bearlink.Prelude.Exec.{ok, Exec, pure, ◌>>=◌}
use bearlink.Shared.Json.{Number}
use bearlink.Shared.Validation.{is_valid_password, missing_of}
use bearlink.Shared.Numbers.{parse_any_int}
use bearlink.Shared.Events.{NewEvent}
use bearlink.Auth.Record.{User, Reply, fail, message}
use bearlink.Auth.Platform.{
  AttemptStore, UserChanges, update_user as update_row, create_event, Accounts, World, given_result,
}
use bearlink.Auth.Tables.{Tables, IsLawful, is_id, taken, change_user, apply_all}
use bearlink.Auth.Reset.{new_password}
use bearlink.Auth.Users.{
  PasswordChange, password_changed_event, password_ops, save_password, check_different,
  check_strength, check_old, change_found, change_given, change_password, with_user, found_or_404,
}
use bearlink.Auth.Effects.{
  EffectAt, EffectAt-given, EffectAt-if, EffectAt-catch, EffectAt-transact_then,
}

module _ (A : Accounts) (T : AttemptStore) (L : IsLawful A) where
  -- a query of one account, and what follows if it is found
  pub EffectAt-user :
      (w : World A T) (R : Tables → Type 0) (id : Option Number) (f : User → Exec (World A T) Reply)
      → ((u : User)
          → first (λ (v : User). is_id id v.id) (L.tables w.db).users ≡ some u
          → EffectAt A T L w R (f u))
      → EffectAt A T L w R (with_user A T id f)
  EffectAt-user w R id f rest =
      EffectAt-given A T L w R (A.find_user id w.db) (found_or_404 A T f) found
    where
      found :
          (b : Option User) → A.find_user id w.db ≡ ok b → EffectAt A T L w R (found_or_404 A T f b)
      found none is = inl refl
      found (some u) is = rest u (sym (L.find_user_ok id w.db (some u) is))

  -- a change of one account, with its event
  pub update_applied :
      (k at : ℕ) (id : Option Number) (c : UserChanges) (e : NewEvent) (t t' : Tables)
      → apply_all k at (update_row id c ∷ create_event e ∷ []) t ≡ some t'
      → (taken c.email id t.users ≡ false)
        × (t' ≡ record t { users = map (change_user id c) t.users; events = t.events ++ e ∷ [] })
  update_applied k at id c e t t' h =
      elim (Bool-cases (any (λ (u : User). is_id id u.id) t.users)) [
        | inr nobody ↦ absurd (ground arith)
        | inl there ↦ elim (Bool-cases (taken c.email id t.users)) [
          | inl clash ↦ absurd (ground arith)
          | inr free ↦ (free, ground arith)
        ]
      ]

  -- the account of the id gets the hash of a strong password other than its old one, which the body has
  abbrev pub PasswordChanged : Option Number → PasswordChange → Tables → Tables → Type 0
  PasswordChanged id body t t' =
      (u : User) × (hash : String) × (first (λ (v : User). is_id id v.id) t.users ≡ some u)
      × (A.compare_password body.current_password u.password ≡ ok true)
      × (is_valid_password body.new_password ≡ true)
      × (A.compare_password body.new_password u.password ≡ ok false)
      × (A.hash_password body.new_password ≡ ok hash)
      × (t' ≡ record t {
        users = map (change_user id (new_password hash)) t.users;
        events = t.events ++ password_changed_event id ∷ [];
      })

  -- `changePassword` leaves the tables as they were, or it stores the hash of the new password in the
  -- account of the path's id, with one event. The body has then the account's current password, and
  -- the new one is strong and not the current one.
  pub change_password_effect :
      (user_id : String) (body : PasswordChange) (w : World A T)
      → EffectAt A T L w
          (PasswordChanged (parse_any_int user_id) body (L.tables w.db))
          (change_password A T user_id body)
  unfolding change_password
  change_password_effect user_id body w = given_fields (
      missing_of
        (("currentPassword", body.current_password) ∷ ("newPassword", body.new_password) ∷ []))
    where
      id : Option Number
      id = parse_any_int user_id

      R : Tables → Type 0
      R = PasswordChanged id body (L.tables w.db)

      found :
          (u : User)
          → first (λ (v : User). is_id id v.id) (L.tables w.db).users ≡ some u
          → EffectAt A T L w R (change_found A T id body u)
      found u is =
          EffectAt-given A T L w R (A.compare_password body.current_password u.password)
            (check_old A T id body u)
            (λ right compared.
              EffectAt-if A T L w R right (check_strength A T id body u)
                (pure (fail 403 "Invalid current password."))
                (λ e.
                  EffectAt-if A T L w R (is_valid_password body.new_password)
                    (given_result A T (A.compare_password body.new_password u.password)
                      >>= check_different A T id body)
                    (pure (
                      fail 400
                        "Password must be at least 8 characters and contain uppercase, lowercase, and a number"))
                    (λ strong.
                      EffectAt-given A T L w R (A.compare_password body.new_password u.password)
                        (check_different A T id body)
                        (λ same compared_new.
                          EffectAt-if A T L w R same
                            (pure (fail 400 "New password must be different from current password"))
                            (given_result A T (A.hash_password body.new_password)
                              >>= save_password A T id)
                            (λ e'. inl refl)
                            (λ differs.
                              EffectAt-given A T L w R (A.hash_password body.new_password)
                                (save_password A T id)
                                (λ hash hashed.
                                  EffectAt-transact_then A T L w R (password_ops A T id hash)
                                    (λ made. pure (message "Password changed successfully."))
                                    (λ made v. refl)
                                    (λ k at t' applied. (
                                      u,
                                      hash,
                                      is,
                                      compared ∙ ap ok e,
                                      strong,
                                      compared_new ∙ ap ok differs,
                                      hashed,
                                      (update_applied k at id (new_password hash)
                                          (password_changed_event id) (L.tables w.db) t' applied).1,
                                    ))))))
                    (λ weak. inl refl))
                (λ e. inl refl))

      given_fields :
          (missing : List String) → EffectAt A T L w R (change_given A T user_id body missing)
      given_fields (field ∷ fields) = inl refl
      given_fields [] =
          EffectAt-catch A T L w R (with_user A T id (change_found A T id body))
            (λ e. pure (fail 500 "Failed to change password."))
            (EffectAt-user w R id (change_found A T id body) found) (λ e v. refl)
