-- ===== src/Auth/Deletion.antt =====
-- What deleteUser of services/auth/controllers/users.controller.js do to the tables.
use bearlink.Prelude.{
  ℕ, String, false, Option, some, [], ◌∷◌, ◌++◌, any, select, not, ◌≡◌, refl, inl, inr, arith,
  Bool-cases,
}
use bearlink.Prelude.Exec.{pure, catch}
use bearlink.Shared.Json.{Number}
use bearlink.Shared.Numbers.{parse_any_int}
use bearlink.Auth.Record.{User, ResetToken, Claims, fail, no_content}
use bearlink.Auth.Platform.{AttemptStore, Accounts, World}
use bearlink.Auth.Tables.{Tables, IsLawful, is_id, apply_all}
use bearlink.Auth.Users.{deleted_event, delete_ops, delete_found, delete_user, with_user}
use bearlink.Auth.Effects.{EffectAt, EffectAt-if, EffectAt-catch, EffectAt-transact_then}
use bearlink.Auth.Changes.{EffectAt-user}

module _ (A : Accounts) (T : AttemptStore) (L : IsLawful A) where
  -- the account of an id and its tokens are gone, with one event of who did it
  abbrev pub Deleted : Option Number → Claims → Tables → Tables → Type 0
  Deleted id claims t t' = t' ≡ record {
    users = select (λ (u : User). not (is_id id u.id)) t.users;
    tokens = select (λ (r : ResetToken). not (is_id id r.user_id)) t.tokens;
    events = t.events ++ deleted_event id claims ∷ [];
  }

  delete_applied :
      (k at : ℕ) (id : Option Number) (claims : Claims) (t t' : Tables)
      → apply_all k at (delete_ops A T id claims) t ≡ some t'
      → Deleted id claims t t'
  delete_applied k at id claims t t' h =
      elim (Bool-cases (any (λ (u : User). is_id id u.id) t.users)) [
        | inr nobody ↦ absurd (ground arith)
        | inl there ↦ ground arith
      ]

  -- `deleteUser` leaves the tables as they were, or it deletes the account of the path's id, which is
  -- not the caller's own, and its reset tokens, with one event.
  pub delete_user_effect :
      (claims : Claims) (user_id : String) (w : World A T)
      → EffectAt A T L w
          (λ t'.
            (is_id (parse_any_int user_id) claims.id ≡ false)
            × Deleted (parse_any_int user_id) claims (L.tables w.db) t')
          (delete_user A T claims user_id)
  unfolding delete_user
  delete_user_effect claims user_id w =
      EffectAt-if A T L w R (is_id id claims.id)
        (pure (fail 400 "Admins cannot delete their own account."))
        (catch (with_user A T id (delete_found A T id claims))
          (λ e. pure (fail 500 "Failed to delete user.")))
        (λ own. inl refl)
        (λ another.
          EffectAt-catch A T L w R (with_user A T id (delete_found A T id claims))
            (λ e. pure (fail 500 "Failed to delete user."))
            (EffectAt-user A T L w R id (delete_found A T id claims) (λ u is.
              EffectAt-transact_then A T L w R (delete_ops A T id claims) (λ made. pure no_content)
                (λ made v. refl)
                (λ k at t' applied.
                  (another, delete_applied k at id claims (L.tables w.db) t' applied))))
            (λ e v. refl))
    where
      id : Option Number
      id = parse_any_int user_id

      R : Tables → Type 0
      R t' = (is_id id claims.id ≡ false) × Deleted id claims (L.tables w.db) t'
