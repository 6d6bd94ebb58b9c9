-- ===== src/Auth/Forgotten.antt =====
-- What `forgotPassword` tells its caller, and what it does to the tables.
use bearlink.Prelude.{
  ℕ, ◌+◌, String, Bool, true, false, Option, none, some, [], ◌∷◌, ◌++◌, any, first, str_eq, ◌==◌,
  ◌||◌, ◌≡◌, refl, inl, inr, sym, ◌∙◌, arith, Bool-cases, if◌then◌else◌,
}
use bearlink.Prelude.Exec.{Result, ok, err, continue, recover, pure, ◌>>=◌, ◌>>◌}
use bearlink.Shared.Json.{Json, str}
use bearlink.Shared.Validation.{is_valid_email}
use bearlink.Auth.Record.{User, ResetToken, Reply, fail, message}
use bearlink.Auth.Platform.{AttemptStore, Accounts, Setup, World, query}
use bearlink.Auth.Tables.{Tables, IsLawful, has_email, apply_all}
use bearlink.Auth.Reset.{
  reset_lifetime_ms, reset_requested_event, reset_request_ops, send_reset_link, request_reset,
  try_request, forgot_password,
}
use bearlink.Auth.Effects.{
  EffectAt, EffectAt-given, EffectAt-if, EffectAt-then, EffectAt-catch, EffectAt-transact_then,
}

module _ (A : Accounts) (T : AttemptStore) where
  told_after :
      (r : Result (Unit {0}) × World A T) (reply : Reply)
      → (continue (recover r (λ e. pure tt)) (λ u. pure reply)).0 ≡ ok reply
  told_after (ok tt, v) reply = refl
  told_after (err e, v) reply = refl

  told_if :
      (setup : Setup) (email : Option Json) (w : World A T) (valid : Bool) (told refused : Reply)
      → ((if valid then try_request A T setup email >> pure told else pure refused) w).0
        ≡ ok (if valid then told else refused)
  told_if setup email w true told refused =
      told_after (continue (query A T (A.find_by_email email) w) (request_reset A T setup email))
        told
  told_if setup email w false told refused = refl

  -- The answer of `forgotPassword` depends on the validity of the address alone: it is the same
  -- whatever the tables hold, whether the address has an account or not, and whatever fails.
  pub forgot_password_uniform :
      (setup other : Setup) (email : Option Json) (w v : World A T)
      → (forgot_password A T setup email w).0 ≡ (forgot_password A T other email v).0
  unfolding forgot_password
  forgot_password_uniform setup other email w v =
      told_if setup email w (is_valid_email A.is_email email) _ _
      ∙ sym (told_if other email v (is_valid_email A.is_email email) _ _)

module _ (A : Accounts) (T : AttemptStore) (L : IsLawful A) (setup : Setup) where
  -- one new token of the account with the address, good for an hour, with its event
  abbrev pub Requested : Option Json → Tables → Tables → Type 0
  Requested email t t' =
      (text : String) × (u : User) × (k : ℕ) × (email ≡ some (str text))
      × (first (has_email text) t.users ≡ some u)
      × (any (λ (r : ResetToken). r.id == k || str_eq r.token setup.random_hex) t.tokens ≡ false)
      × (t' ≡ record {
        users = t.users;
        tokens =
            t.tokens
            ++ record {
              id = k;
              token = setup.random_hex;
              user_id = u.id;
              expires_at = setup.now + reset_lifetime_ms;
              used_at = none;
            }
              ∷ [];
        events = t.events ++ reset_requested_event u ∷ [];
      })

  request_applied :
      (k at : ℕ) (u : User) (t t' : Tables)
      → apply_all k at (reset_request_ops A T setup u setup.random_hex) t ≡ some t'
      → (any (λ (r : ResetToken). r.id == k || str_eq r.token setup.random_hex) t.tokens ≡ false)
        × (t' ≡ record {
          users = t.users;
          tokens =
              t.tokens
              ++ record {
                id = k;
                token = setup.random_hex;
                user_id = u.id;
                expires_at = setup.now + reset_lifetime_ms;
                used_at = none;
              }
                ∷ [];
          events = t.events ++ reset_requested_event u ∷ [];
        })
  request_applied k at u t t' h =
      elim (Bool-cases
        (any (λ (r : ResetToken). r.id == k || str_eq r.token setup.random_hex) t.tokens)) [
          | inl clash ↦ absurd (ground arith)
          | inr fresh ↦ elim (Bool-cases (any (λ (v : User). v.id == u.id) t.users)) [
            | inl there ↦ (fresh, ground arith)
            | inr nobody ↦ absurd (ground arith)
          ]
        ]

  -- `forgotPassword` leaves the tables as they were, or it adds one token and one event together. The
  -- token is new, unused, the one of the request's random bytes, belongs to the account of the
  -- address, and expires in an hour.
  pub forgot_password_effect :
      (email : Option Json) (w : World A T)
      → EffectAt A T L w (Requested email (L.tables w.db)) (forgot_password A T setup email)
  unfolding forgot_password
  forgot_password_effect email w =
      EffectAt-if A T L w R (is_valid_email A.is_email email)
        (try_request A T setup email >> pure told)
        (pure (fail 400 "A valid email address is required."))
        (λ good.
          EffectAt-then A T L w R (try_request A T setup email) (λ u. pure told)
            (EffectAt-catch A T L w R
              (query A T (A.find_by_email email) >>= request_reset A T setup email) (λ e. pure tt)
              (EffectAt-given A T L w R (A.find_by_email email w.db) (request_reset A T setup email)
                found)
              (λ e v. refl))
            (λ u v. refl))
        (λ bad. inl refl)
    where
      R : Tables → Type 0
      R = Requested email (L.tables w.db)

      told : Reply
      told = message "If that email is registered you will receive a reset link shortly."

      found :
          (b : Option User)
          → A.find_by_email email w.db ≡ ok b
          → EffectAt A T L w R (request_reset A T setup email b)
      found none is = inl refl
      found (some u) is =
          EffectAt-transact_then A T L w R (reset_request_ops A T setup u setup.random_hex)
            (λ made. send_reset_link A T setup email u setup.random_hex) (λ made v. ground arith)
            (λ k at t' applied.
              let (text, is_text, same) = L.find_by_email_ok email w.db (some u) is in
              let (fresh, after) = request_applied k at u (L.tables w.db) t' applied in
              (text, u, k, is_text, sym same, fresh, after))
