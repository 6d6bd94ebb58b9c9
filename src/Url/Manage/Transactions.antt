-- ===== src/Url/Manage/Transactions.antt =====
-- What an interactive transaction of the urls controller leaves in the tables.
use bearlink.Prelude.{[], ◌∷◌, ◌++◌, ◌≡◌, refl, ◌⊎◌, inl, inr, sym, ap, ◌∙◌, arith}
use bearlink.Prelude.Exec.{Result, ok, err, Exec, Failure, continue, recover, pure}
use mathlib.Core.Path.{subst}
use bearlink.Url.Record.{Url, NewEvent}
use bearlink.Url.Platform.{Platform, World}
use bearlink.Url.Tables.{Tables, DbModel}
use bearlink.Url.Manage.{Reply, Services, IsLawful, in_transaction, settle, settle_commit}

module _ (P : Platform) (D : DbModel P) (S : Services P) (L : IsLawful P D S) where
  -- It fails and leaves the rows as they were, or its body did all it does.
  abbrev pub Outcome :
      {A : Type 0} → (A → Tables → Tables → Type 0) → Tables → Result A × World P → Type 0
  Outcome {A} Done t result =
      ((e : Failure) × (result.0 ≡ err e) × (D.tables result.1.db ≡ t))
      ⊎ ((a : A) × (result.0 ≡ ok a) × Done a t (D.tables result.1.db))

  pub in_transaction-Outcome :
      {A : Type 0} (Done : A → Tables → Tables → Type 0) (body : Exec P.Db A) (w : World P)
      → ((a : A) (inside db : P.Db)
          → body w.db ≡ (ok a, inside)
          → D.tables db ≡ D.tables inside
          → Done a (D.tables w.db) (D.tables db))
      → Outcome Done (D.tables w.db) (in_transaction P S body w)
  in_transaction-Outcome {A} Done body w does = go (body w.db) refl
    where
      committed :
          (a : A) (inside : P.Db) (result : Result (Unit {0}) × P.Db)
          → body w.db ≡ (ok a, inside)
          → S.commit w.db inside ≡ result
          → Outcome Done
              (D.tables w.db)
              ((settle_commit P S a result).0, record w { db = (settle_commit P S a result).1 })
      committed a inside (ok tt, db) e c =
          inr (a, refl, does a inside db e (L.commit_ok w.db inside db c))
      committed a inside (err f, db) e c = inl (f, refl, L.commit_err w.db inside db f c)

      go :
          (result : Result A × P.Db)
          → body w.db ≡ result
          → Outcome Done
              (D.tables w.db)
              ((settle P S w.db result).0, record w { db = (settle P S w.db result).1 })
      go (ok a, inside) e = committed a inside (S.commit w.db inside) e refl
      go (err f, inside) e = inl (f, refl, refl)

  -- a change of a row, then the event that tells of it
  pub noted :
      (Done : Url → Tables → Tables → Type 0) (event : Url → NewEvent) (change : Exec P.Db Url)
      (db inside : P.Db) (u : Url)
      → ((v : Url) (mid after : P.Db)
          → change db ≡ (ok v, mid)
          → D.tables after
            ≡ record (D.tables mid) { events = (D.tables mid).events ++ event v ∷ [] }
          → Done v (D.tables db) (D.tables after))
      → continue (change db) (λ url s. continue (S.insert_event (event url) s) (λ _. pure url))
        ≡ (ok u, inside)
      → Done u (D.tables db) (D.tables inside)
  noted Done event change db inside u does h = go (change db) refl h
    where
      wrote :
          (v : Url) (mid : P.Db) (result : Result (Unit {0}) × P.Db)
          → change db ≡ (ok v, mid)
          → S.insert_event (event v) mid ≡ result
          → continue result (λ _. pure v) ≡ (ok u, inside)
          → Done u (D.tables db) (D.tables inside)
      wrote v mid (ok tt, after) made e eq =
          let same_url : v ≡ u = ground arith in
          let same_db : after ≡ inside = ground arith in
          subst (λ (x : Url). Done x (D.tables db) (D.tables inside)) same_url
            (subst (λ (x : P.Db). Done v (D.tables db) (D.tables x)) same_db
              (does v mid after made (L.event_ok (event v) mid after e)))
      wrote v mid (err f, after) made e eq = absurd (ground arith)

      go :
          (result : Result Url × P.Db)
          → change db ≡ result
          → continue result (λ url s. continue (S.insert_event (event url) s) (λ _. pure url))
            ≡ (ok u, inside)
          → Done u (D.tables db) (D.tables inside)
      go (ok v, mid) made eq = wrote v mid (S.insert_event (event v) mid) made refl eq
      go (err f, mid) made eq = absurd (ground arith)

  -- what follows a transaction leaves the tables alone
  pub answered :
      (Done : Url → Tables → Tables → Type 0) (t : Tables) (result : Result Url × World P)
      (after : Url → Exec (World P) Reply) (failed : Failure → Exec (World P) Reply)
      → Outcome Done t result
      → ((u : Url) (v : World P) → (after u v).1.db ≡ v.db)
      → ((e : Failure) (v : World P) → (failed e v).1.db ≡ v.db)
      → (D.tables (recover (continue result after) failed).1.db ≡ t)
        ⊎ ((u : Url) × Done u t (D.tables (recover (continue result after) failed).1.db))
  answered Done t result after failed outcome after_keeps failed_keeps = go result outcome
    where
      caught :
          (v : World P) (replied : Result Reply × World P)
          → replied.1.db ≡ v.db
          → (recover replied failed).1.db ≡ v.db
      caught v (ok reply, x) h = h
      caught v (err e, x) h = failed_keeps e x ∙ h

      go :
          (r : Result Url × World P)
          → Outcome Done t r
          → (D.tables (recover (continue r after) failed).1.db ≡ t)
            ⊎ ((u : Url) × Done u t (D.tables (recover (continue r after) failed).1.db))
      go (ok u, v) (inr (a, is, done)) =
          let kept = ap D.tables (caught v (after u v) (after_keeps u v)) in
          inr (a, subst (Done a t) (sym kept) done)
      go (ok u, v) (inl (e, is, kept)) = absurd (ground arith)
      go (err f, v) (inl (e, is, kept)) = inl (ap D.tables (failed_keeps f v) ∙ kept)
      go (err f, v) (inr (a, is, done)) = absurd (ground arith)
