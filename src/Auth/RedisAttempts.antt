-- ===== src/Auth/RedisAttempts.antt =====
-- services/auth/services/redisLoginAttemptStore.js: failed logins in Redis, which may fail.
use Prim.Native.String.{◌++◌ as ◌<>◌}
use bearlink.Prelude.{
  ℕ, String, Bool, true, false, Option, List, [], ◌∷◌, leb, ◌==◌, ==_iff, ◌≤◌, ◌≡◌, refl, ◌⊎◌, ◌↔◌,
  inl, inr, ap, ◌∙◌, arith, if◌then◌else◌,
}
use bearlink.Prelude.Exec.{
  Result, ok, err, Exec, pure, catch, recover, continue, recover-pure, run_if_true, ◌>>=◌,
}
use bearlink.Shared.Json.{Json}
use bearlink.Auth.Platform.{AttemptStore}
use bearlink.Auth.LoginAttempts.{lock_threshold}
use bearlink.Auth.Session.{print}

pub record Redis : Type 1 where
  pub State : Type 0
  pub exists : String → State → Result ℕ × State
  pub incr : String → State → Result ℕ × State
  -- set(key, '1', 'NX', 'EX', seconds)
  pub set_nx_ex : String → ℕ → State → Result (Unit {0}) × State
  pub del : List String → State → Result (Unit {0}) × State

abbrev pub lock_ttl_seconds : ℕ
lock_ttl_seconds = 900

abbrev pub locked_key : Option Json → String
locked_key email = "login_locked:" <> print email

abbrev pub attempts_key : Option Json → String
attempts_key email = "login_attempts:" <> print email

module _ (R : Redis) where
  abbrev pub is_locked_in : Option Json → Exec R.State Bool
  is_locked_in email =
      catch (R.exists (locked_key email) >>= λ found. pure (found == 1)) (λ e. pure false)

  abbrev lock_at : Option Json → ℕ → Exec R.State (Unit {0})
  lock_at email count =
      if leb lock_threshold count then R.set_nx_ex (locked_key email) lock_ttl_seconds else pure tt

  abbrev pub record_failure_in : Option Json → Exec R.State (Unit {0})
  record_failure_in email = catch (R.incr (attempts_key email) >>= lock_at email) (λ e. pure tt)

  abbrev pub clear_in : Option Json → Exec R.State (Unit {0})
  clear_in email = catch (R.del (attempts_key email ∷ locked_key email ∷ [])) (λ e. pure tt)

  -- createRedisLoginAttemptStore; Redis keeps the time
  abbrev pub redis_store : AttemptStore
  redis_store = record {
    State = R.State;
    is_locked = λ now email. is_locked_in email;
    record_failed_attempt = λ now email. record_failure_in email;
    clear_attempts = λ now email. clear_in email;
  }

  swallowed : (r : Result (Unit {0}) × R.State) → (recover r (λ e. pure tt)).0 ≡ ok tt
  swallowed (ok tt, s) = refl
  swallowed (err e, s) = refl

  -- A lost Redis never fails a login: no operation of the store throws, whatever Redis does. An
  -- address counts as locked exactly if Redis answers that the one key of its lock exists, so that an
  -- error means unlocked. The failure that makes the counter five or more asks Redis for the lock.
  pub redis_store_degrades :
      (now : ℕ) (email : Option Json) (s : R.State)
      → ((redis_store.record_failed_attempt now email s).0 ≡ ok tt)
        × ((redis_store.clear_attempts now email s).0 ≡ ok tt)
        × (((redis_store.is_locked now email s).0 ≡ ok true)
            ⊎ ((redis_store.is_locked now email s).0 ≡ ok false))
        × (((redis_store.is_locked now email s).0 ≡ ok true)
            ↔ ((R.exists (locked_key email) s).0 ≡ ok 1))
        × ((count : ℕ) (s' : R.State)
            → R.incr (attempts_key email) s ≡ (ok count, s')
            → lock_threshold ≤ count
            → (redis_store.record_failed_attempt now email s).1
              ≡ (R.set_nx_ex (locked_key email) lock_ttl_seconds s').1)
  redis_store_degrades now email s = (
    swallowed (continue (R.incr (attempts_key email) s) (lock_at email)),
    swallowed (R.del (attempts_key email ∷ locked_key email ∷ []) s),
    (answered (R.exists (locked_key email) s)).0,
    (answered (R.exists (locked_key email) s)).1,
    λ count s' counted many.
        ap (λ (r : Result ℕ × R.State). (recover (continue r (lock_at email)) (λ e. pure tt)).1)
          counted
        ∙ (recover-pure (lock_at email count s') tt
            ∙ ap (λ (r : Result (Unit {0}) × R.State). r.1)
                (run_if_true (R.set_nx_ex (locked_key email) lock_ttl_seconds) (pure tt) s'
                  (reached count many))),
  )
    where
      answer : Result ℕ × R.State → Result Bool × R.State
      answer r = recover (continue r (λ found. pure (found == 1))) (λ e. pure false)

      reached : (count : ℕ) → lock_threshold ≤ count → leb lock_threshold count ≡ true
      reached count many = ground arith

      one_or_not :
          (found : ℕ) (b : Bool)
          → ((b ≡ true) ↔ (found ≡ 1))
          → ((◌≡◌ {A = Result Bool} (ok b) (ok true)) ⊎ (◌≡◌ {A = Result Bool} (ok b) (ok false)))
            × (◌≡◌ {A = Result Bool} (ok b) (ok true) ↔ ◌≡◌ {A = Result ℕ} (ok found) (ok 1))
      one_or_not found true one = (inl refl, (λ h. ap ok (one.0 refl), λ h. refl))
      one_or_not found false one =
          (inr refl, (λ h. absurd (cc), λ h. absurd (differ (one.1 (one_of h)))))
        where
          one_of : ◌≡◌ {A = Result ℕ} (ok found) (ok 1) → found ≡ 1
          one_of h = cc

          differ : ◌≡◌ {A = Bool} false true → ⊥
          differ h = cc

      answered :
          (r : Result ℕ × R.State)
          → (((answer r).0 ≡ ok true) ⊎ ((answer r).0 ≡ ok false))
            × (((answer r).0 ≡ ok true) ↔ (r.0 ≡ ok 1))
      answered (ok found, s') = one_or_not found (found == 1) (==_iff found 1)
      answered (err e, s') = (inr refl, (λ h. absurd (cc), λ h. absurd (cc)))
