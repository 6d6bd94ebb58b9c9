-- ===== src/Auth/Resetting.antt =====
-- What `resetPassword` does to the tables.
pub mod Once
use bearlink.Prelude.{
  ℕ, String, Bool, true, Option, none, some, [], ◌∷◌, ◌++◌, map, any, first, str_eq, ◌==◌, ◌≡◌,
  refl, inl, inr, sym, arith, Bool-cases, if◌then◌else◌, ◌≤◌,
}
use bearlink.Prelude.Exec.{ok, Exec, pure, ◌>>=◌, ◌>>◌}
use bearlink.Shared.Json.{Json, nat}
use bearlink.Shared.Validation.{is_valid_password}
use bearlink.Shared.Events.{password_reset_completed_message}
use bearlink.Auth.Record.{User, ResetToken, Reply, fail, message}
use bearlink.Auth.Platform.{
  AttemptStore, Accounts, Setup, World, given_result, query, transact, publish,
}
use bearlink.Auth.Tables.{Tables, IsLawful, is_id, change_user, mark_used, apply_all}
use bearlink.Auth.Reset.{
  user_id_payload, is_truthy, new_password, is_usable, reset_completed_event, reset_ops,
  complete_reset, reset_found, try_reset, reset_password,
}
use bearlink.Auth.Effects.{
  EffectAt, EffectAt-given, EffectAt-if, EffectAt-then, EffectAt-catch, EffectAt-transact_then,
}

abbrev pub has_token : String → ResetToken → Bool
has_token token r = str_eq r.token token

module _ (A : Accounts) (T : AttemptStore) (L : IsLawful A) where
  -- the reset of a token's account: the token was found, unexpired and unused, and the password is
  -- strong. The account gets the hash, the token is marked and the event is added.
  abbrev pub WasReset : Setup → String → Option Json → Tables → Tables → Type 0
  WasReset setup token password t t' =
      (r : ResetToken) × (hash : String) × (first (has_token token) t.tokens ≡ some r)
      × (setup.now ≤ r.expires_at)
      × (r.used_at ≡ none)
      × (is_valid_password password ≡ true)
      × (A.hash_password password ≡ ok hash)
      × (t' ≡ record {
        users = map (change_user (some (nat r.user_id)) (new_password hash)) t.users;
        tokens = map (mark_used r.id setup.now) t.tokens;
        events = t.events ++ reset_completed_event r.user_id ∷ [];
      })

  reset_applied :
      (setup : Setup) (k at : ℕ) (r : ResetToken) (hash : String) (t t' : Tables)
      → apply_all k at (reset_ops A T setup r hash) t ≡ some t'
      → t' ≡ record {
        users = map (change_user (some (nat r.user_id)) (new_password hash)) t.users;
        tokens = map (mark_used r.id setup.now) t.tokens;
        events = t.events ++ reset_completed_event r.user_id ∷ [];
      }
  reset_applied setup k at r hash t t' h =
      elim (Bool-cases (any (λ (u : User). is_id (some (nat r.user_id)) u.id) t.users)) [
        | inr nobody ↦ absurd (ground arith)
        | inl there ↦ elim (Bool-cases (any (λ (x : ResetToken). x.id == r.id) t.tokens)) [
          | inr gone ↦ absurd (ground arith)
          | inl kept ↦ ground arith
        ]
      ]

  -- `resetPassword` leaves the tables as they were, or it resets one password: that of the account of
  -- the path's token, which was found, not expired and not used. The new password is strong, its hash
  -- is stored, the token is marked as used and one event is added, all together.
  pub reset_password_effect :
      (setup : Setup) (token : String) (password : Option Json) (w : World A T)
      → EffectAt A T L w
          (WasReset setup token password (L.tables w.db))
          (reset_password A T setup token password)
  unfolding reset_password
  reset_password_effect setup token password w =
      EffectAt-if A T L w R (is_truthy password)
        (if is_valid_password password then try_reset A T setup token password else weak)
        (pure (fail 400 "Password is required."))
        (λ filled.
          EffectAt-if A T L w R (is_valid_password password) (try_reset A T setup token password)
            weak
            (λ strong.
              EffectAt-catch A T L w R
                (query A T (A.find_token token) >>= reset_found A T setup password)
                (λ e. pure (fail 400 "Password reset failed."))
                (EffectAt-given A T L w R (A.find_token token w.db) (reset_found A T setup password)
                  (found strong))
                (λ e v. refl))
            (λ refused. inl refl))
        (λ empty. inl refl)
    where
      R : Tables → Type 0
      R = WasReset setup token password (L.tables w.db)

      weak : Exec (World A T) Reply
      weak = pure (
          fail 400
            "Password must be at least 8 characters and contain uppercase, lowercase, and a number.")

      tell : ResetToken → Exec (World A T) (Unit {0})
      tell r =
          publish A T (password_reset_completed_message setup.context (user_id_payload r.user_id))

      completed :
          (r : ResetToken) (hash : String)
          → is_valid_password password ≡ true
          → first (has_token token) (L.tables w.db).tokens ≡ some r
          → is_usable setup.now r ≡ true
          → A.hash_password password ≡ ok hash
          → EffectAt A T L w R (complete_reset A T setup r hash)
      completed r hash strong is_r usable hashed =
          let in_time : setup.now ≤ r.expires_at = ground arith in
          let unused : r.used_at ≡ none = ground arith in
          EffectAt-then A T L w R (transact A T (reset_ops A T setup r hash) >> tell r)
            (λ u. pure (message "Password reset successful."))
            (EffectAt-transact_then A T L w R (reset_ops A T setup r hash) (λ made. tell r)
              (λ made v. refl)
              (λ k at t' applied. (
                r,
                hash,
                is_r,
                in_time,
                unused,
                strong,
                hashed,
                reset_applied setup k at r hash (L.tables w.db) t' applied,
              )))
            (λ u v. refl)

      found :
          is_valid_password password ≡ true
          → (b : Option ResetToken) → A.find_token token w.db ≡ ok b
          → EffectAt A T L w R (reset_found A T setup password b)
      found strong none is = inl refl
      found strong (some r) is =
          EffectAt-if A T L w R (is_usable setup.now r)
            (given_result A T (A.hash_password password) >>= complete_reset A T setup r)
            (pure (fail 400 "Invalid or expired reset token."))
            (λ usable.
              EffectAt-given A T L w R (A.hash_password password) (complete_reset A T setup r)
                (λ hash hashed.
                  completed r hash strong (sym (L.find_token_ok token w.db (some r) is)) usable
                    hashed))
            (λ refused. inl refl)
