-- ===== src/Auth/Effects.antt =====
-- What a handler of the accounts does to the tables: nothing, or one transaction.
use bearlink.Prelude.{
  ℕ, Bool, true, false, Option, some, List, ◌≡◌, refl, ◌⊎◌, inl, inr, sym, ap, ◌∙◌, arith,
  if◌then◌else◌,
}
use mathlib.Core.Path.{subst}
use bearlink.Prelude.Exec.{Result, ok, err, Exec, Failure, pure, catch, recover, continue, ◌>>=◌}
use bearlink.Shared.Events.{Message}
use bearlink.Auth.Record.{User}
use bearlink.Auth.Platform.{
  Operation, AttemptStore, Accounts, World, given_result, transact, publish,
}
use bearlink.Auth.Tables.{Tables, apply_all, IsLawful}

ok-injective : {B : Type 0} {b c : B} → ok b ≡ ok c → b ≡ c
ok-injective e = cc

module _ (A : Accounts) (T : AttemptStore) where
  -- code that leaves the database alone
  abbrev pub Keeps : {B : Type 0} → Exec (World A T) B → Type 0
  Keeps m = (w : World A T) → (m w).1.db ≡ w.db

  pub Keeps-pure : {B : Type 0} (b : B) → Keeps (pure b)
  Keeps-pure b w = refl

  pub Keeps-given : {B : Type 0} (r : Result B) → Keeps (given_result A T r)
  Keeps-given r w = refl

  pub Keeps-publish : (m : Message) → Keeps (publish A T m)
  Keeps-publish m w = refl

  pub Keeps-then :
      {B C : Type 0} (m : Exec (World A T) B) (f : B → Exec (World A T) C)
      → Keeps m
      → ((b : B) → Keeps (f b))
      → Keeps (m >>= f)
  Keeps-then {B} {C} m f keeps rest w = go (m w) (keeps w)
    where
      go : (r : Result B × World A T) → r.1.db ≡ w.db → (continue r f).1.db ≡ w.db
      go (ok b, v) h = rest b v ∙ h
      go (err e, v) h = h

  -- code that changes nothing in a state, and what holds of its result
  abbrev pub Answers : {B : Type 0} → World A T → Exec (World A T) B → (B → Type 0) → Type 0
  Answers {B} w m P = (r : Result B) × (m w ≡ (r, w)) × ((b : B) → r ≡ ok b → P b)

  pub Answers-pure :
      {B : Type 0} (w : World A T) (P : B → Type 0) (b : B) → P b → Answers w (pure b) P
  Answers-pure w P b p = (ok b, refl, λ c e. subst P (ok-injective e) p)

  pub Answers-given :
      {B C : Type 0} (w : World A T) (P : C → Type 0) (r : Result B) (f : B → Exec (World A T) C)
      → ((b : B) → r ≡ ok b → Answers w (f b) P)
      → Answers w (given_result A T r >>= f) P
  Answers-given w P (ok b) f rest = rest b refl
  Answers-given w P (err e) f rest = (err e, refl, λ c h. absurd (ground arith))

  pub Answers-if :
      {B : Type 0} (w : World A T) (P : B → Type 0) (b : Bool) (m n : Exec (World A T) B)
      → (b ≡ true → Answers w m P)
      → (b ≡ false → Answers w n P)
      → Answers w (if b then m else n) P
  Answers-if w P true m n then_case else_case = then_case refl
  Answers-if w P false m n then_case else_case = else_case refl

module _ (A : Accounts) (T : AttemptStore) (L : IsLawful A) where
  -- the tables are those of before, or as described
  abbrev pub EffectAt : {B : Type 0} → World A T → (Tables → Type 0) → Exec (World A T) B → Type 0
  EffectAt w R m = (L.tables (m w).1.db ≡ L.tables w.db) ⊎ R (L.tables (m w).1.db)

  module _ (w : World A T) (R : Tables → Type 0) where
    pub EffectAt-Keeps : {B : Type 0} (m : Exec (World A T) B) → Keeps A T m → EffectAt w R m
    EffectAt-Keeps m keeps = inl (ap L.tables (keeps w))

    -- a query or a call of a library, and what follows its result
    pub EffectAt-given :
        {B C : Type 0} (r : Result B) (f : B → Exec (World A T) C)
        → ((b : B) → r ≡ ok b → EffectAt w R (f b))
        → EffectAt w R (given_result A T r >>= f)
    EffectAt-given (ok b) f rest = rest b refl
    EffectAt-given (err e) f rest = inl refl

    pub EffectAt-if :
        {B : Type 0} (b : Bool) (m n : Exec (World A T) B)
        → (b ≡ true → EffectAt w R m)
        → (b ≡ false → EffectAt w R n)
        → EffectAt w R (if b then m else n)
    EffectAt-if true m n then_case else_case = then_case refl
    EffectAt-if false m n then_case else_case = else_case refl

    pub EffectAt-Answers :
        {B C : Type 0} (m : Exec (World A T) B) (P : B → Type 0) (f : B → Exec (World A T) C)
        → Answers A T w m P
        → ((b : B) → P b → EffectAt w R (f b))
        → EffectAt w R (m >>= f)
    EffectAt-Answers {B} m P f (r, is, holds) rest =
        subst
          (λ (x : Result B × World A T).
            (L.tables (continue x f).1.db ≡ L.tables w.db) ⊎ R (L.tables (continue x f).1.db))
          (sym is) (go r holds)
      where
        go :
            (x : Result B)
            → ((b : B) → x ≡ ok b → P b)
            → (L.tables (continue (x, w) f).1.db ≡ L.tables w.db)
              ⊎ R (L.tables (continue (x, w) f).1.db)
        go (ok b) holds' = rest b (holds' b refl)
        go (err e) holds' = inl refl

    pub EffectAt-then :
        {B C : Type 0} (m : Exec (World A T) B) (f : B → Exec (World A T) C)
        → EffectAt w R m
        → ((b : B) → Keeps A T (f b))
        → EffectAt w R (m >>= f)
    EffectAt-then {B} m f effect keeps = go (m w) effect
      where
        go :
            (r : Result B × World A T)
            → (L.tables r.1.db ≡ L.tables w.db) ⊎ R (L.tables r.1.db)
            → (L.tables (continue r f).1.db ≡ L.tables w.db) ⊎ R (L.tables (continue r f).1.db)
        go (ok b, v) (inl same) = inl (ap L.tables (keeps b v) ∙ same)
        go (ok b, v) (inr done) = inr (subst R (sym (ap L.tables (keeps b v))) done)
        go (err e, v) h = h

    pub EffectAt-catch :
        {B : Type 0} (m : Exec (World A T) B) (h : Failure → Exec (World A T) B)
        → EffectAt w R m
        → ((e : Failure) → Keeps A T (h e))
        → EffectAt w R (catch m h)
    EffectAt-catch {B} m h effect keeps = go (m w) effect
      where
        go :
            (r : Result B × World A T)
            → (L.tables r.1.db ≡ L.tables w.db) ⊎ R (L.tables r.1.db)
            → (L.tables (recover r h).1.db ≡ L.tables w.db) ⊎ R (L.tables (recover r h).1.db)
        go (ok b, v) effect' = effect'
        go (err e, v) (inl same) = inl (ap L.tables (keeps e v) ∙ same)
        go (err e, v) (inr done) = inr (subst R (sym (ap L.tables (keeps e v))) done)

    -- a transaction, all of it or nothing
    pub EffectAt-transact :
        (ops : List Operation)
        → ((k at : ℕ) (t' : Tables) → apply_all k at ops (L.tables w.db) ≡ some t' → R t')
        → EffectAt w R (transact A T ops)
    EffectAt-transact ops does = go (A.transaction ops w.db) refl
      where
        go :
            (r : Result (Option User) × A.Db)
            → A.transaction ops w.db ≡ r
            → (L.tables r.1 ≡ L.tables w.db) ⊎ R (L.tables r.1)
        go (ok made, db) h =
            let (k, at, applied, first) = L.transaction_ok ops w.db db made h in
            inr (does k at (L.tables db) applied)
        go (err e, db) h = inl (L.transaction_err ops w.db db e h)

    pub EffectAt-transact_then :
        {C : Type 0} (ops : List Operation) (f : Option User → Exec (World A T) C)
        → ((made : Option User) → Keeps A T (f made))
        → ((k at : ℕ) (t' : Tables) → apply_all k at ops (L.tables w.db) ≡ some t' → R t')
        → EffectAt w R (transact A T ops >>= f)
    EffectAt-transact_then ops f keeps does =
        EffectAt-then (transact A T ops) f (EffectAt-transact ops does) keeps
