-- ===== src/Url/Manage/Created.antt =====
-- What createUrl does to the tables.
use bearlink.Prelude.{
  ℕ, zero, suc, String, ◌+◌, false, Option, none, some, [], ◌∷◌, ◌++◌, ◌≡◌, ◌≢◌, refl, ◌⊎◌, inl,
  inr, sym, ap, ◌∙◌, arith,
}
use bearlink.Prelude.Exec.{
  Result, ok, err, Exec, unique_violation, record_not_found, other, continue, recover, recover-pure,
  pure,
}
use mathlib.Core.Path.{subst}
use mathlib.Core.List.{Memᴰ}
use bearlink.Shared.Json.{Json, bool}
use bearlink.Url.Record.{Url}
use bearlink.Url.Platform.{Platform, Setup, World}
use bearlink.Url.Tables.{Tables, DbModel}
use bearlink.Url.Manage.{Body, Reply, fail, Config, Services, IsLawful}
use bearlink.Url.Manage.Checks.{Check}
use bearlink.Url.Manage.Announcing.{announce-db}
use bearlink.Url.Manage.Transactions.{Outcome, in_transaction-Outcome, noted}
use bearlink.Url.Manage.Create.{
  Draft, draft_of, default_to, new_url, created_event, insert_both, attempt_insert, again, attempts,
  taken_or_throw, insert_link, after_insert, save, create_checked, create_url,
}

-- a new row of a user, with the data of a draft, whether it asks for a signature, and no clicks
pub record IsOf (user : ℕ) (signature : Json) (d : Draft) (u : Url) : Type 0 where
  pub original_url : u.original_url ≡ d.original_url
  pub custom_alias : u.custom_alias ≡ d.custom_alias
  pub user_id : u.user_id ≡ user
  pub redirect_type : u.redirect_type ≡ d.redirect_type
  pub expires_at : u.expires_at ≡ d.expires_at
  pub password_hash : u.password_hash ≡ d.password_hash
  pub tags : u.tags ≡ d.tags
  pub utm_params : u.utm_params ≡ d.utm_params
  pub require_signature : signature ≡ bool u.require_signature
  pub clicks : u.clicks ≡ 0

module _ (P : Platform) (D : DbModel P) (S : Services P) (L : IsLawful P D S) (config : Config)
    (setup : Setup) where
  -- one new row, of a draft and with a short id that no row had, and its url_created event
  abbrev pub Added : ℕ → Json → Draft → Url → Tables → Tables → Type 0
  Added user signature d u t t' =
      IsOf user signature d u
      × ((v : Url) → Memᴰ v t.urls → v.short_id ≢ u.short_id)
      × (t' ≡ record {
        urls = t.urls ++ u ∷ [];
        events = t.events ++ created_event P S config setup user d u ∷ [];
      })

  insert_both_effect :
      (user : ℕ) (signature : Json) (d : Draft) (k : String) (db inside : P.Db) (u : Url)
      → insert_both P S config setup user signature d k db ≡ (ok u, inside)
      → Added user signature d u (D.tables db) (D.tables inside)
  insert_both_effect user signature d k db inside u h =
      noted P D S L (Added user signature d) (created_event P S config setup user d)
        (S.create_url (new_url P S config setup user signature d k)) db inside u
        (λ v mid after made wrote.
          let (holds, rows, fresh) =
            L.create_ok (new_url P S config setup user signature d k) db mid v made in
          (
            record {
              original_url = holds.original_url;
              custom_alias = holds.custom_alias;
              user_id = holds.user_id;
              redirect_type = holds.redirect_type;
              expires_at = holds.expires_at;
              password_hash = holds.password_hash;
              tags = holds.tags;
              utm_params = holds.utm_params;
              require_signature = holds.require_signature;
              clicks = holds.clicks;
            },
            (λ x m e. fresh x m (e ∙ holds.short_id)),
            wrote
                ∙ ap
                    (λ (t : Tables). record t {
                      events = t.events ++ created_event P S config setup user d v ∷ [];
                    })
                    rows,
          ))
        h

  abbrev Made : ℕ → Json → Draft → Tables → Result Url × World P → Type 0
  Made user signature d = Outcome P D S L (Added user signature d)

  attempt_effect :
      (user : ℕ) (signature : Json) (d : Draft) (w : World P)
      → Made user signature d (D.tables w.db) (attempt_insert P S config setup user signature d w)
  attempt_effect user signature d w =
      in_transaction-Outcome P D S L (Added user signature d)
        (insert_both P S config setup user signature d (S.generate_id w.drawn))
        (record w { drawn = w.drawn + 1 })
        (λ u inside db h same.
          subst (Added user signature d u (D.tables w.db)) (sym same)
            (insert_both_effect user signature d (S.generate_id w.drawn) w.db inside u h))

  attempts_effect :
      (left user : ℕ) (signature : Json) (d : Draft) (w : World P) (t : Tables)
      → D.tables w.db ≡ t
      → Made user signature d t (attempts P S config setup left user signature d w)
  attempts_effect zero user signature d w t same = inl (other, refl, same)
  attempts_effect (suc zero) user signature d w t same =
      subst
        (λ (x : Tables).
          Made user signature d x (attempt_insert P S config setup user signature d w))
        same (attempt_effect user signature d w)
  attempts_effect (suc (suc left)) user signature d w t same =
      go (attempt_insert P S config setup user signature d w)
        (subst
          (λ (x : Tables).
            Made user signature d x (attempt_insert P S config setup user signature d w))
          same (attempt_effect user signature d w))
        (λ v kept. attempts_effect (suc left) user signature d v t kept)
    where
      next : Exec (World P) Url
      next = attempts P S config setup (suc left) user signature d

      go :
          (first : Result Url × World P)
          → Made user signature d t first
          → ((v : World P) → D.tables v.db ≡ t → Made user signature d t (next v))
          → Made user signature d t (recover first (again P S config setup next))
      go (ok u, v) made retry = made
      go (err unique_violation, v) (inl (e, is, kept)) retry = retry v kept
      go (err record_not_found, v) (inl (e, is, kept)) retry = inl (record_not_found, refl, kept)
      go (err other, v) (inl (e, is, kept)) retry = inl (other, refl, kept)
      go (err f, v) (inr (u, is, done)) retry = absurd (ground arith)

  -- the tables of a state, from those before: as they were, or with the link
  abbrev pub Grown : ℕ → Json → Draft → Tables → World P → Type 0
  Grown user signature d t v =
      (D.tables v.db ≡ t) ⊎ ((u : Url) × Added user signature d u t (D.tables v.db))

  -- a run that makes a link or not, with the tables it leaves
  abbrev pub Linked : ℕ → Json → Draft → Tables → Result (Reply ⊎ Url) × World P → Type 0
  Linked user signature d t result =
      ((D.tables result.1.db ≡ t) × ((u : Url) → result.0 ≢ ok (inr u)))
      ⊎ ((u : Url) × (result.0 ≡ ok (inr u)) × Added user signature d u t (D.tables result.1.db))

  pub insert_link-Linked :
      (user : ℕ) (signature : Json) (d : Draft) (w : World P)
      → Linked user signature d (D.tables w.db) (insert_link P S config setup user signature d w)
  insert_link-Linked user signature d w = go d.custom_alias
    where
      t : Tables
      t = D.tables w.db

      plain :
          (result : Result Url × World P)
          → Made user signature d t result
          → Linked user signature d t (continue result (λ url. pure {A = Reply ⊎ Url} (inr url)))
      plain (ok u, v) (inl (e, is, kept)) = absurd (ground arith)
      plain (ok u, v) (inr (x, is, done)) = inr (x, ground arith, done)
      plain (err e, v) (inl (f, is, kept)) = inl (kept, λ u h. absurd (ground arith))
      plain (err e, v) (inr (x, is, done)) = absurd (ground arith)

      caught :
          (result : Result Url × World P)
          → Made user signature d t result
          → Linked user signature d t (
              recover
                (continue result (λ url. pure {A = Reply ⊎ Url} (inr url)))
                (taken_or_throw P S config setup))
      caught (ok u, v) (inl (e, is, kept)) = absurd (ground arith)
      caught (ok u, v) (inr (x, is, done)) = inr (x, ground arith, done)
      caught (err unique_violation, v) (inl (f, is, kept)) =
          inl (kept, λ u h. absurd (ground arith))
      caught (err record_not_found, v) (inl (f, is, kept)) =
          inl (kept, λ u h. absurd (ground arith))
      caught (err other, v) (inl (f, is, kept)) = inl (kept, λ u h. absurd (ground arith))
      caught (err e, v) (inr (x, is, done)) = absurd (ground arith)

      go :
          (name : Option String)
          → Linked user signature d t (
              elim name as (λ _. Exec (World P) (Reply ⊎ Url)) [
                | none ↦ λ s.
                    continue
                      (attempts P S config setup 3 user signature d s)
                      (λ url. pure (inr url))
                | some n ↦ λ s.
                    recover
                      (continue
                        (attempt_insert P S config setup user signature d s)
                        (λ url. pure (inr url)))
                      (taken_or_throw P S config setup)
              ]
                w)
      go none =
          plain (attempts P S config setup 3 user signature d w)
            (attempts_effect 3 user signature d w t refl)
      go (some n) =
          caught (attempt_insert P S config setup user signature d w)
            (attempt_effect user signature d w)

  pub Linked-Grown :
      (user : ℕ) (signature : Json) (d : Draft) (t : Tables)
      (result : Result (Reply ⊎ Url) × World P)
      → Linked user signature d t result
      → Grown user signature d t result.1
  Linked-Grown user signature d t result (inl (kept, unmade)) = inl kept
  Linked-Grown user signature d t result (inr (u, is, done)) = inr (u, done)

  save_effect :
      (user : ℕ) (body : Body) (signature : Json) (d : Draft) (w : World P)
      → Grown user signature d (D.tables w.db) (save P S config setup user body signature d w).1
  unfolding save
  save_effect user body signature d w =
      subst (Grown user signature d (D.tables w.db))
        (sym (
          recover-pure
            (continue (insert_link P S config setup user signature d w)
              (after_insert P S config setup body signature d))
            (fail 500 "Failed to shorten URL")))
        (go (insert_link P S config setup user signature d w) (
          Linked-Grown user signature d (D.tables w.db)
            (insert_link P S config setup user signature d w)
            (insert_link-Linked user signature d w)))
    where
      go :
          (made : Result (Reply ⊎ Url) × World P)
          → Grown user signature d (D.tables w.db) made.1
          → Grown user signature d
              (D.tables w.db)
              (continue made (after_insert P S config setup body signature d)).1
      go (ok (inl reply), v) h = h
      go (ok (inr u), v) h =
          let kept = ap D.tables (announce-db P S config setup body signature d u v) in
          elim h [
            | inl same ↦ inl (kept ∙ same)
            | inr (x, added) ↦
                inr (x, subst (Added user signature d x (D.tables w.db)) (sym kept) added)
          ]
      go (err e, v) h = h

  -- `createUrl` leaves the tables as they were, or it adds one row and one url_created event
  -- together. The row is of the user, with all that the checks of the body left (URL, alias,
  -- redirect type, expiry, password hash, tags and UTM parameters), with the requireSignature of the
  -- body or false, no clicks, and a short id that no row had.
  pub create_url_adds_one :
      (user : ℕ) (body : Body) (w : World P)
      → (D.tables (create_url P S config setup user body w).1.db ≡ D.tables w.db)
        ⊎ ((d : Draft) × (u : Url) × (draft_of P S config setup body ≡ ok (inr d))
            × Added user
                (default_to (bool false) body.require_signature)
                d
                u
                (D.tables w.db)
                (D.tables (create_url P S config setup user body w).1.db))
  unfolding create_url
  create_url_adds_one user body w = go (draft_of P S config setup body) refl
    where
      go :
          (checked : Check Draft)
          → draft_of P S config setup body ≡ checked
          → (D.tables (create_checked P S config setup user body checked w).1.db ≡ D.tables w.db)
            ⊎ ((d : Draft) × (u : Url) × (draft_of P S config setup body ≡ ok (inr d))
                × Added user
                    (default_to (bool false) body.require_signature)
                    d
                    u
                    (D.tables w.db)
                    (D.tables (create_checked P S config setup user body checked w).1.db))
      go (err e) c = inl refl
      go (ok (inl reply)) c = inl refl
      go (ok (inr d)) c =
          elim (save_effect user body (default_to (bool false) body.require_signature) d w) [
            | inl same ↦ inl same
            | inr (u, added) ↦ inr (d, u, c, added)
          ]
