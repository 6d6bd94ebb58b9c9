-- ===== src/Auth/Resetting/Once.antt =====
-- A token is good for one reset.
use bearlink.Prelude.{
  ℕ, String, Bool, true, false, Option, none, some, List, [], ◌∷◌, map, first, ◌≡◌, refl, ◌⊎◌, inl,
  inr, sym, ap, ◌∙◌, arith, if◌then◌else◌,
}
use mathlib.Core.Path.{subst}
use mathlib.Core.Option.{some-injective}
use bearlink.Prelude.Exec.{Result, ok, err, Exec, pure, recover, continue}
use bearlink.Shared.Json.{Json}
use bearlink.Shared.Validation.{is_valid_password}
use bearlink.Auth.Record.{ResetToken, Reply, fail}
use bearlink.Auth.Platform.{AttemptStore, Accounts, Setup, World}
use bearlink.Auth.Tables.{Tables, IsLawful, mark_used}
use bearlink.Auth.Reset.{is_truthy, is_usable, reset_found, try_reset, reset_password}
use bearlink.Auth.Resetting.{has_token, reset_password_effect}

-- the first row of a token after it is marked as used
first-mark_used :
    (token : String) (id at : ℕ) (tokens : List ResetToken) (r : ResetToken)
    → first (has_token token) tokens ≡ some r
    → first (has_token token) (map (mark_used id at) tokens) ≡ some (mark_used id at r)
first-mark_used token id at [] r h = absurd (ground arith)
first-mark_used token id at (x ∷ tokens) r h =
    ground (arith, same_token, first-mark_used token id at tokens r)
  where
    same_token : has_token token (mark_used id at x) ≡ has_token token x
    same_token = ground arith

marked : (at : ℕ) (r : ResetToken) → (mark_used r.id at r).used_at ≡ some at
marked at r = ground arith

module _ (A : Accounts) (T : AttemptStore) (L : IsLawful A) where
  -- a token whose first row is marked as used resets nothing
  used_token_refused :
      (setup : Setup) (token : String) (password : Option Json) (w : World A T) (r : ResetToken)
      (at : ℕ)
      → first (has_token token) (L.tables w.db).tokens ≡ some r
      → r.used_at ≡ some at
      → ((text : String) × ((reset_password A T setup token password w).0 ≡ ok (fail 400 text)))
        × (L.tables (reset_password A T setup token password w).1.db ≡ L.tables w.db)
  unfolding reset_password
  used_token_refused setup token password w r at is used =
      with_password (is_truthy password) (is_valid_password password)
    where
      Refused : Exec (World A T) Reply → Type 0
      Refused m =
          ((text : String) × ((m w).0 ≡ ok (fail 400 text))) × (L.tables (m w).1.db ≡ L.tables w.db)

      unusable : (x : ResetToken) → x.used_at ≡ some at → is_usable setup.now x ≡ false
      unusable x used = ground arith

      looked_up :
          (b : Result (Option ResetToken))
          → A.find_token token w.db ≡ b
          → Refused (λ v.
            recover
              (continue (b, v) (reset_found A T setup password))
              (λ e. pure (fail 400 "Password reset failed.")))
      looked_up (err e) found = (("Password reset failed.", refl), refl)
      looked_up (ok none) found = (("Invalid or expired reset token.", refl), refl)
      looked_up (ok (some x)) found =
          let same : r ≡ x =
            some-injective r x (sym is ∙ sym (L.find_token_ok token w.db (some x) found)) in
          let spent = unusable x (subst (λ (y : ResetToken). y.used_at ≡ some at) same used) in
          rw spent (("Invalid or expired reset token.", refl), refl)

      with_password :
          (filled strong : Bool)
          → Refused (
              if filled
              then if strong
                then try_reset A T setup token password
                else pure (
                    fail 400
                      "Password must be at least 8 characters and contain uppercase, lowercase, and a number.")
              else pure (fail 400 "Password is required."))
      with_password false strong = (("Password is required.", refl), refl)
      with_password true false = (
        (
          "Password must be at least 8 characters and contain uppercase, lowercase, and a number.",
          refl,
        ),
        refl,
      )
      with_password true true = looked_up (A.find_token token w.db) refl

  -- A request that changes the tables spends its token: when it has finished, every request with
  -- that token, with any password and at any time, is refused with 400 and changes nothing, in each
  -- state in which the row found under the token is the one it left, whatever the other tokens,
  -- accounts and events are. Two requests in flight at the same time are not covered.
  pub reset_password_once :
      (setup later : Setup) (token : String) (password again : Option Json) (w v : World A T)
      → first (has_token token) (L.tables v.db).tokens
        ≡ first (has_token token) (L.tables (reset_password A T setup token password w).1.db).tokens
      → (L.tables (reset_password A T setup token password w).1.db ≡ L.tables w.db)
        ⊎ (((text : String) × ((reset_password A T later token again v).0 ≡ ok (fail 400 text)))
            × (L.tables (reset_password A T later token again v).1.db ≡ L.tables v.db))
  reset_password_once setup later token password again w v same =
      elim (reset_password_effect A T L setup token password w) [
        | inl untouched ↦ inl untouched
        | inr (r, hash, is_r, in_time, unused, strong, hashed, after) ↦
            let marked_first : first (has_token token) (L.tables v.db).tokens
                ≡ some (mark_used r.id setup.now r) =
              same
              ∙ ap (first (has_token token)) (ap (λ (t : Tables). t.tokens) after)
              ∙ first-mark_used token r.id setup.now (L.tables w.db).tokens r is_r in
            inr (
              used_token_refused later token again v (mark_used r.id setup.now r) setup.now
                marked_first (marked setup.now r))
      ]
