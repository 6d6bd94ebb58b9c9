-- ===== src/Messaging/Connection.antt =====
-- services/shared/utils/rabbitmq.js: the attempts of connectRabbitMQ.
use bearlink.Prelude.{
  ℕ, zero, suc, ◌+◌, ◌-◌, ◌*◌, ◌≤◌, ◌<◌, true, false, Option, none, some, ltb, ◌≡◌, refl, ap, ◌∙◌,
  ◌⊎◌, inl, inr, arith, Bool-cases, if◌then◌else◌,
}
use bearlink.Prelude.Exec.{Result, ok, err, Failure}

abbrev pub max_retries : ℕ
max_retries = 30

abbrev pub retry_interval_ms : ℕ
retry_interval_ms = 2000

-- `attempt n` is what the n-th amqp.connect and createChannel give.
module _ {Channel : Type 0} (attempt : ℕ → Result Channel) where
  -- one attempt: the promise is resolved, retried or rejected
  abbrev pub after_attempt :
      ℕ → Result Channel → Option (Result Channel × ℕ) → Option (Result Channel × ℕ)
  after_attempt attempts (ok channel) retried = some (ok channel, attempts)
  after_attempt attempts (err e) retried =
      if ltb attempts max_retries then retried else some (err e, attempts)

  -- tryToConnect after a number of attempts: the result and the number of attempts, or no fuel left
  abbrev pub try_to_connect : ℕ → ℕ → Option (Result Channel × ℕ)
  try_to_connect zero attempts = none
  try_to_connect (suc fuel) attempts =
      let retried = try_to_connect fuel (attempts + 1) in
      after_attempt (attempts + 1) (attempt (attempts + 1)) retried

  unfoldable pub connect_rabbitmq : Option (Result Channel × ℕ)
  connect_rabbitmq = try_to_connect max_retries 0

  -- all the attempts from one number to another failed
  abbrev pub FailedBetween : ℕ → ℕ → Type 0
  FailedBetween low high = (k : ℕ) → low < k → k < high → (e : Failure) × (attempt k ≡ err e)

  -- the last attempt decides: it succeeded, or it was the thirtieth
  abbrev pub Decided : Result Channel → ℕ → Type 0
  Decided result attempts =
      (attempt attempts ≡ result)
      × (((channel : Channel) × (result ≡ ok channel))
          ⊎ ((attempts ≡ max_retries) × ((e : Failure) × (result ≡ err e))))

  connects_from :
      (fuel attempts : ℕ)
      → attempts < max_retries
      → max_retries ≤ attempts + fuel
      → (result : Result Channel) × (n : ℕ) × (try_to_connect fuel attempts ≡ some (result, n))
        × (attempts < n)
        × (n ≤ max_retries)
        × FailedBetween attempts n
        × Decided result n
  connects_from zero attempts few enough = absurd (omega (arith, few, enough))
  connects_from (suc fuel) attempts few enough =
      go (attempt (attempts + 1)) refl (Bool-cases (ltb (attempts + 1) max_retries))
        (λ more. connects_from fuel (attempts + 1) (ground arith) (omega (arith, enough)))
    where
      go :
          (r : Result Channel)
          → attempt (attempts + 1) ≡ r
          → (ltb (attempts + 1) max_retries ≡ true) ⊎ (ltb (attempts + 1) max_retries ≡ false)
          → (ltb (attempts + 1) max_retries ≡ true
              → (result : Result Channel) × (n : ℕ) × (try_to_connect fuel (attempts + 1)
                  ≡ some (result, n))
                × (attempts + 1 < n)
                × (n ≤ max_retries)
                × FailedBetween (attempts + 1) n
                × Decided result n)
          → (result : Result Channel) × (n : ℕ) × (after_attempt
                (attempts + 1)
                r
                (try_to_connect fuel (attempts + 1))
              ≡ some (result, n))
            × (attempts < n)
            × (n ≤ max_retries)
            × FailedBetween attempts n
            × Decided result n
      go (ok channel) is cases again = (
        ok channel,
        attempts + 1,
        refl,
        omega arith,
        omega (arith, few),
        λ k low high. absurd (omega (arith, low, high)),
        (is, inl (channel, refl)),
      )
      go (err e) is (inr last) again = (
        err e,
        attempts + 1,
        rw last refl,
        omega arith,
        omega (arith, few),
        λ k low high. absurd (omega (arith, low, high)),
        (is, inr (ground arith, (e, refl))),
      )
      go (err e) is (inl more) again =
          let (result, n, same, low, high, failed, decided) = again more in
          (
            result,
            n,
            rw more same,
            omega (arith, low),
            high,
            λ k above below. elim (Bool-cases (ltb (attempts + 1) k)) [
              | inl later ↦ failed k (ground arith) below
              | inr now ↦
                  let same_attempt : k ≡ attempts + 1 = ground arith in
                  (e, ap attempt same_attempt ∙ is)
            ],
            decided,
          )

  -- `connectRabbitMQ` settles its promise after 30 attempts at most, and 30 are enough fuel for the
  -- loop. The attempts before the last one failed; the last one succeeded and resolves the promise, or
  -- it is the thirtieth and rejects it. The waits between the attempts are 58 seconds at most.
  pub connect_rabbitmq_settles :
      (result : Result Channel) × (n : ℕ) × (connect_rabbitmq ≡ some (result, n))
      × (0 < n)
      × (n ≤ max_retries)
      × FailedBetween 0 n
      × Decided result n
      × ((n - 1) * retry_interval_ms ≤ 58000)
  unfolding connect_rabbitmq
  connect_rabbitmq_settles =
      let (result, n, same, low, high, failed, decided) =
        connects_from max_retries 0 (omega arith) (omega arith) in
      (result, n, same, low, high, failed, decided, omega (arith, low, high))
