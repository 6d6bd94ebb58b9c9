-- ===== src/Auth/Permissions.antt =====
-- Whose accounts the routes of services/auth/routes/users.routes.js change.
pub mod Others
use bearlink.Prelude.{
  String, Bool, true, false, Option, none, some, List, map, ◌||◌, ◌≡◌, refl, ◌⊎◌, inl, inr, sym, ap,
  arith, Bool-cases, if◌then◌else◌,
}
use mathlib.Core.Path.{subst}
use bearlink.Prelude.Exec.{Exec}
use bearlink.Shared.Json.{Number}
use bearlink.Shared.Numbers.{parse_any_int}
use bearlink.Auth.Record.{User, Claims, Reply}
use bearlink.Auth.Platform.{UserChanges, AttemptStore, Accounts, World}
use bearlink.Auth.Tables.{Tables, IsLawful, is_id, change_user}
use bearlink.Auth.Reset.{new_password}
use bearlink.Auth.Users.{
  profile_changes, update_user, delete_user, change_password, get_profile, get_user, list_users,
}
use bearlink.Auth.Access.{
  Credentials, Call, profile_call, list_call, get_call, delete_call, update_call, password_call,
  has_admin, guard_of, authenticate_jwt, handle, guarded, admitted, users_routes,
}
use bearlink.Auth.Effects.{EffectAt}
use bearlink.Auth.Changes.{PasswordChanged, change_password_effect}
use bearlink.Auth.Updates.{ProfileUpdated, update_user_effect}
use bearlink.Auth.Permissions.Others.{OthersStay, map-OthersStay, select-OthersStay}
use bearlink.Auth.Deletion.{Deleted, delete_user_effect}

module _ (A : Accounts) (T : AttemptStore) (L : IsLawful A) where
  -- the handlers that only read
  list_users-same : (w : World A T) → L.tables (list_users A T w).1.db ≡ L.tables w.db
  unfolding list_users
  list_users-same w = ground arith

  get_user-same :
      (user_id : String) (w : World A T) → L.tables (get_user A T user_id w).1.db ≡ L.tables w.db
  unfolding get_user
  get_user-same user_id w = ground arith

  get_profile-same :
      (claims : Claims) (w : World A T) → L.tables (get_profile A T claims w).1.db ≡ L.tables w.db
  unfolding get_profile
  get_profile-same claims w = ground arith

  -- the caller is an admin, or the account is the caller's
  abbrev pub MayTouch : String → Claims → Type 0
  MayTouch user_id claims =
      (has_admin claims.role ≡ true) ⊎ (is_id (parse_any_int user_id) claims.id ≡ true)

  -- how a call of a user changes the tables
  abbrev pub ChangedBy : Call → Claims → Tables → Tables → Type 0
  ChangedBy (update_call user_id body) claims t t' =
      MayTouch user_id claims
      × ProfileUpdated A T L (parse_any_int user_id) body t t'
      × OthersStay (parse_any_int user_id) t.users t'.users
  ChangedBy (password_call user_id body) claims t t' =
      MayTouch user_id claims
      × PasswordChanged A T L (parse_any_int user_id) body t t'
      × OthersStay (parse_any_int user_id) t.users t'.users
  ChangedBy (delete_call user_id) claims t t' =
      (has_admin claims.role ≡ true)
      × (is_id (parse_any_int user_id) claims.id ≡ false)
      × Deleted A T L (parse_any_int user_id) claims t t'
      × OthersStay (parse_any_int user_id) t.users t'.users
  -- the other calls read
  ChangedBy _ claims t t' = t' ≡ t

  Effect-map :
      (P Q : Tables → Type 0) (w : World A T) (m : Exec (World A T) Reply)
      → EffectAt A T L w P m
      → ((t' : Tables) → P t' → Q t')
      → EffectAt A T L w Q m
  Effect-map P Q w m (inl same) f = inl same
  Effect-map P Q w m (inr done) f = inr (f _ done)

  module _ (w : World A T) where
    abbrev before : Tables
    before = L.tables w.db

    -- the code behind a guard, if the guard lets it through
    behind :
        (call : Call) (claims : Claims) (allowed : Bool) (reply : Reply)
        → (allowed ≡ true
            → EffectAt A T L w (ChangedBy call claims before) (handle A T call claims))
        → EffectAt A T L w
            (ChangedBy call claims before)
            (guarded A T call claims (if allowed then none else some reply))
    behind call claims true reply effect = effect refl
    behind call claims false reply effect = inl refl

    may_touch :
        (user_id : String) (claims : Claims)
        → (has_admin claims.role || is_id (parse_any_int user_id) claims.id) ≡ true
        → MayTouch user_id claims
    may_touch user_id claims h = elim (Bool-cases (has_admin claims.role)) [
      | inl boss ↦ inl boss
      | inr plain ↦ inr (ground arith)
    ]

    stays :
        (id : Option Number) (c : UserChanges) (us us' : List User)
        → us' ≡ map (change_user id c) us
        → OthersStay id us us'
    stays id c us us' same = subst (OthersStay id us) (sym same) (map-OthersStay id c us)

    call_effect :
        (call : Call) (claims : Claims)
        → EffectAt A T L w
            (ChangedBy call claims before)
            (guarded A T call claims (guard_of call claims))
    call_effect profile_call claims = inl (get_profile-same claims w)
    call_effect list_call claims =
        behind list_call claims (has_admin claims.role) _ (λ e. inl (list_users-same w))
    call_effect (get_call user_id) claims =
        behind (get_call user_id) claims
          (has_admin claims.role || is_id (parse_any_int user_id) claims.id) _
          (λ e. inl (get_user-same user_id w))
    call_effect (delete_call user_id) claims =
        behind (delete_call user_id) claims (has_admin claims.role) _ (λ boss.
          Effect-map
            (λ t'.
              (is_id (parse_any_int user_id) claims.id ≡ false)
              × Deleted A T L (parse_any_int user_id) claims before t')
            (ChangedBy (delete_call user_id) claims before) w (delete_user A T claims user_id)
            (delete_user_effect A T L claims user_id w)
            (λ t' (another, gone). (
              boss,
              another,
              gone,
              subst (λ (x : Tables). OthersStay (parse_any_int user_id) before.users x.users)
                  (sym gone) (select-OthersStay (parse_any_int user_id) before.users),
            )))
    call_effect (update_call user_id body) claims =
        behind (update_call user_id body) claims
          (has_admin claims.role || is_id (parse_any_int user_id) claims.id) _
          (λ allowed.
            Effect-map (ProfileUpdated A T L (parse_any_int user_id) body before)
              (ChangedBy (update_call user_id body) claims before) w (update_user A T user_id body)
              (update_user_effect A T L user_id body w)
              (λ t' (u, name, email, is, new_name, new_email, after). (
                may_touch user_id claims allowed,
                (u, name, email, is, new_name, new_email, after),
                stays (parse_any_int user_id) (profile_changes name email) before.users t'.users
                    (ap (λ (x : Tables). x.users) after),
              )))
    call_effect (password_call user_id body) claims =
        behind (password_call user_id body) claims
          (has_admin claims.role || is_id (parse_any_int user_id) claims.id) _
          (λ allowed.
            Effect-map (PasswordChanged A T L (parse_any_int user_id) body before)
              (ChangedBy (password_call user_id body) claims before) w
              (change_password A T user_id body) (change_password_effect A T L user_id body w)
              (λ t' (u, hash, is, right, strong, differs, hashed, after). (
                may_touch user_id claims allowed,
                (u, hash, is, right, strong, differs, hashed, after),
                stays (parse_any_int user_id) (new_password hash) before.users t'.users
                    (ap (λ (x : Tables). x.users) after),
              )))

    -- A request to the routes of the users leaves the tables as they were, or it carries a session
    -- token that was verified, and its call changed an account as that call may: an update or a new
    -- password for the caller's own account or by an admin, a deletion by an admin and not of the own
    -- account. Every other account stays as it was.
    pub users_routes_permission :
        (req : Credentials) (call : Call)
        → EffectAt A T L w
            (λ t'.
              (claims : Claims) × (authenticate_jwt A T req ≡ inr claims)
              × ChangedBy call claims before t')
            (users_routes A T req call)
    unfolding users_routes
    users_routes_permission req call = go (authenticate_jwt A T req) refl
      where
        go :
            (who : Reply ⊎ Claims)
            → authenticate_jwt A T req ≡ who
            → EffectAt A T L w
                (λ t'.
                  (claims : Claims) × (authenticate_jwt A T req ≡ inr claims)
                  × ChangedBy call claims before t')
                (admitted A T call who)
        go (inl reply) is = inl refl
        go (inr claims) is =
            Effect-map (ChangedBy call claims before)
              (λ t'. (c : Claims) × (authenticate_jwt A T req ≡ inr c) × ChangedBy call c before t')
              w (guarded A T call claims (guard_of call claims)) (call_effect call claims)
              (λ t' done. (claims, is, done))
