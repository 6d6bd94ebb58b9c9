-- ===== src/Prelude/Exec.antt =====
-- Code that talks to the database, to Redis and to the message channel, and may throw. What was
-- done before a throw stays done, so the state comes back beside the error too.
use bearlink.Prelude.Tests.{if◌then◌else◌}
use mathlib.Core.Path.{◌≡◌, refl}
use mathlib.Core.Bool.{Bool, true, false}

-- What a rejected promise carries, as far as the handlers look at it: Prisma's code P2002, its
-- code P2025, and any other error.
pub data Failure : Type 0 where
  unique_violation record_not_found other : Failure

pub data Result {ℓ} (A : Type ℓ) : Type ℓ where
  ok : A → Result A
  err : Failure → Result A

abbrev pub Exec {ℓ} : Type ℓ → Type ℓ → Type ℓ
Exec S A = S → Result A × S

module _ {ℓ} {S A : Type ℓ} where
  abbrev pub pure : A → Exec S A
  pure a s = (ok a, s)

  abbrev pub throw : Failure → Exec S A
  throw e s = (err e, s)

  abbrev pub recover : Result A × S → (Failure → Exec S A) → Result A × S
  recover (ok a, s) handler = (ok a, s)
  recover (err e, s) handler = handler e s

  -- try { m } catch (e) { handler e }
  abbrev pub catch : Exec S A → (Failure → Exec S A) → Exec S A
  catch m handler s = recover (m s) handler

module _ {ℓ} {S A B : Type ℓ} where
  abbrev pub continue : Result A × S → (A → Exec S B) → Result B × S
  continue (ok a, s) f = f a s
  continue (err e, s) f = (err e, s)

  infixl 5 ◌>>=◌ ◌>>◌
  abbrev pub ◌>>=◌ : Exec S A → (A → Exec S B) → Exec S B
  ◌>>=◌ m f s = continue (m s) f

  abbrev pub ◌>>◌ : Exec S A → Exec S B → Exec S B
  m >> n = m >>= λ _. n

module _ {ℓ} {S A : Type ℓ} where
  -- a branch that is taken, run in a state
  pub run_if_true : {b : Bool} (m n : Exec S A) (s : S) → b ≡ true → (if b then m else n) s ≡ m s
  run_if_true m n s e = rw e

  pub run_if_false : {b : Bool} (m n : Exec S A) (s : S) → b ≡ false → (if b then m else n) s ≡ n s
  run_if_false m n s e = rw e

  -- what handles an error, or answers at the end, leaves the state alone
  pub recover-pure : (result : Result A × S) (a : A) → (recover result (λ _. pure a)).1 ≡ result.1
  recover-pure (ok r, s) a = refl
  recover-pure (err e, s) a = refl

module _ {ℓ} {S A B : Type ℓ} where
  pub continue-pure : (result : Result B × S) (a : A) → (continue result (λ _. pure a)).1 ≡ result.1
  continue-pure (ok b, s) a = refl
  continue-pure (err e, s) a = refl
