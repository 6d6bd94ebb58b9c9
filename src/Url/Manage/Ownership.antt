-- ===== src/Url/Manage/Ownership.antt =====
-- What updateUrl and deleteUrl do to the tables, and to whose rows.
use bearlink.Prelude.{
  ℕ, String, Option, none, some, [], ◌∷◌, ◌++◌, ◌≡◌, refl, ◌⊎◌, inl, inr, sym, ap, ◌∙◌, arith,
}
use bearlink.Prelude.Exec.{ok, err, Failure}
use mathlib.Core.Path.{subst}
use mathlib.Core.List.{Memᴰ}
use bearlink.Shared.Json.{Number, nat}
use bearlink.Shared.Numbers.{parse_int}
use bearlink.Url.Record.{Url}
use bearlink.Url.Platform.{Platform, Setup, World, publish_event}
use bearlink.Url.Tables.{Tables, DbModel}
use bearlink.Url.Cache.{invalidate_url_cache}
use bearlink.Url.Manage.{Body, Changes, Config, Services, IsLawful, in_transaction, put, drop}
use bearlink.Url.Manage.Checks.{Check}
use bearlink.Url.Manage.Transactions.{in_transaction-Outcome, noted, answered}
use bearlink.Url.Manage.Change.{
  changes_of, updated_event, deleted_event, update_both, delete_both, update_failed, delete_failed,
  after_update, after_delete, update_checked, update_url, delete_checked, delete_url,
}

module _ (P : Platform) (D : DbModel P) (S : Services P) (L : IsLawful P D S) (config : Config)
    (setup : Setup) where
  -- a row of the user with the given id is replaced, and noted
  abbrev pub Replaced : ℕ → Number → Changes → Url → Tables → Tables → Type 0
  Replaced user id c u t t' =
      (old : Url) × Memᴰ old t.urls
      × (old.user_id ≡ user)
      × (id ≡ nat old.id)
      × (u.id ≡ old.id)
      × (u.short_id ≡ old.short_id)
      × (u.clicks ≡ old.clicks)
      × (u.user_id ≡ old.user_id)
      × (u.original_url ≡ c.original_url)
      × (t' ≡ record {
        urls = put u t.urls;
        events = t.events ++ updated_event P S config setup user u ∷ [];
      })

  -- a row of the user with the given id is dropped, and noted
  abbrev pub Dropped : ℕ → Number → Url → Tables → Tables → Type 0
  Dropped user id u t t' =
      Memᴰ u t.urls
      × (u.user_id ≡ user)
      × (id ≡ nat u.id)
      × (t' ≡ record {
        urls = drop u t.urls;
        events = t.events ++ deleted_event P S config setup user u ∷ [];
      })

  after_update-db : (u : Url) (v : World P) → (after_update P S config setup u v).1.db ≡ v.db
  unfolding invalidate_url_cache publish_event
  after_update-db u v = ground arith

  after_delete-db : (u : Url) (v : World P) → (after_delete P S config setup u v).1.db ≡ v.db
  unfolding invalidate_url_cache publish_event
  after_delete-db u v = ground arith

  update_failed-db : (e : Failure) (v : World P) → (update_failed P S config setup e v).1.db ≡ v.db
  update_failed-db e v = ground arith

  delete_failed-db : (e : Failure) (v : World P) → (delete_failed P S config setup e v).1.db ≡ v.db
  delete_failed-db e v = ground arith

  update_both-Replaced :
      (user : ℕ) (id : Number) (c : Changes) (db inside : P.Db) (u : Url)
      → update_both P S config setup user id c db ≡ (ok u, inside)
      → Replaced user id c u (D.tables db) (D.tables inside)
  update_both-Replaced user id c db inside u h =
      noted P D S L (Replaced user id c) (updated_event P S config setup user)
        (S.update_url user id c) db inside u
        (λ v mid after made wrote.
          let (
            old, found, owner, named, same_id, same_short, same_clicks, same_user, changed, rows,
          ) =
            L.update_ok user id c db mid v made in
          (
            old,
            found,
            owner,
            named,
            same_id,
            same_short,
            same_clicks,
            same_user,
            changed,
            wrote
                ∙ ap
                    (λ (t : Tables). record t {
                      events = t.events ++ updated_event P S config setup user v ∷ [];
                    })
                    rows,
          ))
        h

  delete_both-Dropped :
      (user : ℕ) (id : Number) (db inside : P.Db) (u : Url)
      → delete_both P S config setup user id db ≡ (ok u, inside)
      → Dropped user id u (D.tables db) (D.tables inside)
  delete_both-Dropped user id db inside u h =
      noted P D S L (Dropped user id) (deleted_event P S config setup user) (S.delete_url user id)
        db inside u
        (λ v mid after made wrote.
          let (found, owner, named, rows) = L.delete_ok user id db mid v made in
          (
            found,
            owner,
            named,
            wrote
                ∙ ap
                    (λ (t : Tables). record t {
                      events = t.events ++ deleted_event P S config setup user v ∷ [];
                    })
                    rows,
          ))
        h

  -- `updateUrl` leaves the tables as they were, or it replaces one row and adds one url_updated
  -- event together: a row of the user, with the id of the route, and the new row keeps its id, short
  -- id, clicks and user and has the new URL, in a change that the checks let through.
  pub update_url_of_owner :
      (user : ℕ) (id : String) (body : Body) (w : World P)
      → (D.tables (update_url P S config setup user id body w).1.db ≡ D.tables w.db)
        ⊎ ((n : Number) × (c : Changes) × (u : Url) × (changes_of P S config setup id body
              ≡ ok (inr (n, c)))
            × Replaced user n c u
                (D.tables w.db)
                (D.tables (update_url P S config setup user id body w).1.db))
  unfolding update_url
  update_url_of_owner user id body w = go (changes_of P S config setup id body) refl
    where
      go :
          (checked : Check (Number × Changes))
          → changes_of P S config setup id body ≡ checked
          → (D.tables (update_checked P S config setup user checked w).1.db ≡ D.tables w.db)
            ⊎ ((n : Number) × (c : Changes) × (u : Url) × (changes_of P S config setup id body
                  ≡ ok (inr (n, c)))
                × Replaced user n c u
                    (D.tables w.db)
                    (D.tables (update_checked P S config setup user checked w).1.db))
      go (err e) h = inl refl
      go (ok (inl reply)) h = inl refl
      go (ok (inr (n, c))) h =
          elim (answered P D S L (Replaced user n c) (D.tables w.db)
            (in_transaction P S (update_both P S config setup user n c) w)
            (after_update P S config setup) (update_failed P S config setup)
            (in_transaction-Outcome P D S L (Replaced user n c)
              (update_both P S config setup user n c) w
              (λ u inside db did same.
                subst (Replaced user n c u (D.tables w.db)) (sym same)
                  (update_both-Replaced user n c w.db inside u did)))
            after_update-db update_failed-db) [
              | inl same ↦ inl same
              | inr (u, done) ↦ inr (n, c, u, h, done)
            ]

  -- `deleteUrl` leaves the tables as they were, or it drops the row of the user with the id of the
  -- route and adds one url_deleted event together.
  pub delete_url_of_owner :
      (user : ℕ) (id : String) (w : World P)
      → (D.tables (delete_url P S config setup user id w).1.db ≡ D.tables w.db)
        ⊎ ((n : Number) × (u : Url) × (parse_int id ≡ some n)
            × Dropped user n u
                (D.tables w.db)
                (D.tables (delete_url P S config setup user id w).1.db))
  unfolding delete_url
  delete_url_of_owner user id w = go (parse_int id) refl
    where
      go :
          (read : Option Number)
          → parse_int id ≡ read
          → (D.tables (delete_checked P S config setup user read w).1.db ≡ D.tables w.db)
            ⊎ ((n : Number) × (u : Url) × (parse_int id ≡ some n)
                × Dropped user n u
                    (D.tables w.db)
                    (D.tables (delete_checked P S config setup user read w).1.db))
      go none h = inl refl
      go (some n) h =
          elim (answered P D S L (Dropped user n) (D.tables w.db)
            (in_transaction P S (delete_both P S config setup user n) w)
            (after_delete P S config setup) (delete_failed P S config setup)
            (in_transaction-Outcome P D S L (Dropped user n) (delete_both P S config setup user n) w
              (λ u inside db did same.
                subst (Dropped user n u (D.tables w.db)) (sym same)
                  (delete_both-Dropped user n w.db inside u did)))
            after_delete-db delete_failed-db) [
              | inl same ↦ inl same
              | inr (u, done) ↦ inr (n, u, h, done)
            ]
