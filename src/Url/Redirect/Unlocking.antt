-- ===== src/Url/Redirect/Unlocking.antt =====
-- What the unlock handler does to the database: it opens a link only for the right password.
use bearlink.Prelude.{
  String, Bool, true, false, Option, none, some, [], ◌∷◌, ◌≡◌, refl, sym, ap, ◌∙◌, ◌⊎◌, inl, inr,
  Bool-cases, Option-cases, if◌then◌else◌,
}
use bearlink.Prelude.Exec.{
  Result, ok, err, Exec, catch, continue, pure, run_if_true, recover-pure, continue-pure, ◌>>=◌,
  ◌>>◌,
}
use bearlink.Shared.Json.{Json, given, truthy}
use bearlink.Shared.Validation.{is_safe_redirect_url}
use mathlib.Core.Path.{subst}
use bearlink.Url.Record.{Url}
use bearlink.Url.Platform.{Platform, Setup, World, create_event, transact}
use bearlink.Url.Tables.{Tables, DbModel, apply_all}
use bearlink.Url.Cache.{find_url}
use bearlink.Url.Cache.Laws.{find_url-db}
use bearlink.Url.Page.{build_redirect_url}
use bearlink.Url.Redirect.{
  Reply, fail, moved, expired, failed_event, record_click, unlock, open_link, try_password,
  unlock_failed, unlock_protected, unlock_found, unlock_with,
}
use bearlink.Url.Redirect.Visitor.{Request, ClickMetadata, extract_click_metadata}
use bearlink.Url.Redirect.Clicks.{Clicked, tables, transact_effect, record_click_effect}

module _ (P : Platform) (D : DbModel P) (setup : Setup) where
  -- one more url_unlock_failed event
  abbrev pub Refused : Url → Tables → Tables → Type 0
  Refused url t t' = apply_all (create_event (failed_event P setup url) ∷ []) t ≡ some t'

  unlock_failed_effect :
      (url : Url) (w : World P)
      → (tables P D setup (unlock_failed P setup url w).1 ≡ tables P D setup w)
        ⊎ Refused url (tables P D setup w) (tables P D setup (unlock_failed P setup url w).1)
  unlock_failed_effect url w =
      subst
        (λ (v : World P).
          (tables P D setup v ≡ tables P D setup w)
          ⊎ Refused url (tables P D setup w) (tables P D setup v))
        (sym (recover-pure (transact P (create_event (failed_event P setup url) ∷ []) w) tt))
        (transact_effect P D setup (create_event (failed_event P setup url) ∷ []) w)

  open_link_effect :
      (req : Request) (url : Url) (w : World P)
      → (tables P D setup (open_link P setup req url w).1 ≡ tables P D setup w)
        ⊎ Clicked P D setup url
            (extract_click_metadata P req)
            (tables P D setup w)
            (tables P D setup (open_link P setup req url w).1)
  unfolding open_link
  open_link_effect req url w = go (build_redirect_url P url.original_url url.utm_params)
    where
      visit : ClickMetadata
      visit = extract_click_metadata P req

      rest : String → Exec (World P) Reply
      rest destination = do
        record_click P setup url visit
        pure (moved url.redirect_type destination)

      go :
          (built : Result String)
          → (tables P D setup (continue (built, w) rest).1 ≡ tables P D setup w)
            ⊎ Clicked P D setup url visit
                (tables P D setup w)
                (tables P D setup (continue (built, w) rest).1)
      go (ok destination) =
          subst
            (λ (v : World P).
              (tables P D setup v ≡ tables P D setup w)
              ⊎ Clicked P D setup url visit (tables P D setup w) (tables P D setup v))
            (sym (
              continue-pure (record_click P setup url visit w)
                (moved url.redirect_type destination)))
            (record_click_effect P D setup url visit w)
      go (err f) = inl refl

  -- what an unlock may do to the rows, for a row with a password
  abbrev pub Unlocked : Request → Json → Url → String → Tables → Tables → Type 0
  Unlocked req password url hash t t' =
      (t' ≡ t)
      ⊎ ((P.compare_password password hash ≡ ok true)
          × Clicked P D setup url (extract_click_metadata P req) t t')
      ⊎ ((P.compare_password password hash ≡ ok false) × Refused url t t')

  try_password_effect :
      (req : Request) (password : Json) (url : Url) (hash : String) (w : World P)
      → Unlocked req password url hash
          (tables P D setup w)
          (tables P D setup (try_password P setup req password url hash w).1)
  try_password_effect req password url hash w = go (P.compare_password password hash) refl
    where
      after : Bool → Exec (World P) Reply
      after same =
          if same
          then open_link P setup req url
          else do unlock_failed P setup url; pure (fail 401 "Incorrect password.")

      go :
          (compared : Result Bool)
          → P.compare_password password hash ≡ compared
          → Unlocked req password url hash
              (tables P D setup w)
              (tables P D setup (continue (compared, w) after).1)
      go (ok true) e = elim (open_link_effect req url w) [
        | inl same ↦ inl same
        | inr clicked ↦ inr (inl (e, clicked))
      ]
      go (ok false) e =
          subst
            (λ (v : World P).
              Unlocked req password url hash (tables P D setup w) (tables P D setup v))
            (sym (continue-pure (unlock_failed P setup url w) (fail 401 "Incorrect password.")))
            (elim (unlock_failed_effect url w) [
              | inl same ↦ inl same
              | inr noted ↦ inr (inr (e, noted))
            ])
      go (err f) e = inl refl

  unlock_protected_effect :
      (req : Request) (password : Json) (url : Url) (hash : String) (w : World P)
      → (tables P D setup (unlock_protected P setup req password url (some hash) w).1
          ≡ tables P D setup w)
        ⊎ ((is_safe_redirect_url P.url_protocol url.original_url ≡ true)
            × (expired setup.now url.expires_at ≡ false)
            × Unlocked req password url hash
                (tables P D setup w)
                (tables P D setup (unlock_protected P setup req password url (some hash) w).1))
  unlock_protected_effect req password url hash w =
      elim (Bool-cases (is_safe_redirect_url P.url_protocol url.original_url)) [
        | inr bad ↦ inl (rw (bad, unlock_protected) refl)
        | inl good ↦ elim (Bool-cases (expired setup.now url.expires_at)) [
          | inl old ↦ inl (rw (good, old, unlock_protected) refl)
          | inr young ↦
              let eq : try_password P setup req password url hash w
                  ≡ unlock_protected P setup req password url (some hash) w =
                rw (good, young, unlock_protected) in
              inr (
                good,
                young,
                subst
                    (λ (r : Result Reply × World P).
                      Unlocked req password url hash (tables P D setup w) (tables P D setup r.1))
                    eq (try_password_effect req password url hash w),
              )
        ]
      ]

  -- what a request to unlock a row with a password does to the tables
  abbrev pub UnlockOn : Request → World P → Tables → Type 0
  UnlockOn req w t' =
      (password : Json) × (url : Url) × (hash : String) × (w'' : World P) × (req.password
        ≡ some password)
      × (find_url P setup req.short_id w ≡ (ok (some url), w''))
      × (given url.password_hash ≡ some hash)
      × (is_safe_redirect_url P.url_protocol url.original_url ≡ true)
      × (expired setup.now url.expires_at ≡ false)
      × Unlocked req password url hash (tables P D setup w) t'

  found_effect :
      (req : Request) (password : Json) (w : World P) (found : Result (Option Url) × World P)
      → req.password ≡ some password
      → find_url P setup req.short_id w ≡ found
      → (tables P D setup (continue found (unlock_found P setup req password)).1
          ≡ tables P D setup w)
        ⊎ UnlockOn req w (tables P D setup (continue found (unlock_found P setup req password)).1)
  found_effect req password w (ok (some url), v) p e =
      let same : tables P D setup v ≡ tables P D setup w =
        ap (λ (r : Result (Option Url) × World P). tables P D setup r.1) (sym e)
        ∙ ap D.tables (find_url-db P setup req.short_id w) in
      elim (Option-cases (given url.password_hash)) [
        | inl unlocked ↦ inl (rw (unlocked, unlock_found, unlock_protected) same)
        | inr (hash, locked) ↦
            let eq : unlock_found P setup req password (some url) v
                ≡ unlock_protected P setup req password url (some hash) v =
              rw (locked, unlock_found) refl in
            subst
              (λ (r : Result Reply × World P).
                (tables P D setup r.1 ≡ tables P D setup w) ⊎ UnlockOn req w (tables P D setup r.1))
              (sym eq)
              (elim (unlock_protected_effect req password url hash v) [
                | inl alike ↦ inl (alike ∙ same)
                | inr (good, young, done) ↦ inr (
                  password,
                  url,
                  hash,
                  v,
                  p,
                  e,
                  locked,
                  good,
                  young,
                  subst
                      (λ t. Unlocked req password url hash t (
                        tables P D setup
                          (unlock_protected P setup req password url (some hash) v).1))
                      same done,
                )
              ])
      ]
  found_effect req password w (ok none, v) p e = inl (
      ap (λ (r : Result (Option Url) × World P). tables P D setup r.1) (sym e)
      ∙ ap D.tables (find_url-db P setup req.short_id w))
  found_effect req password w (err f, v) p e = inl (
      ap (λ (r : Result (Option Url) × World P). tables P D setup r.1) (sym e)
      ∙ ap D.tables (find_url-db P setup req.short_id w))

  -- `unlock` leaves the tables as they were, or it acts on the row that it found under the slug, a
  -- row with a password, a safe URL and no past expiry: it counts one click and inserts one
  -- url_clicked event, together, if bcrypt says that the password is the row's, and inserts one
  -- url_unlock_failed event if bcrypt says that it is not.
  pub unlock_needs_password :
      (req : Request) (w : World P)
      → (tables P D setup (unlock P setup req w).1 ≡ tables P D setup w)
        ⊎ UnlockOn req w (tables P D setup (unlock P setup req w).1)
  unfolding unlock
  unlock_needs_password req w = go req.password refl
    where
      go :
          (given_password : Option Json)
          → req.password ≡ given_password
          → (tables P D setup (unlock_with P setup req given_password w).1 ≡ tables P D setup w)
            ⊎ UnlockOn req w (tables P D setup (unlock_with P setup req given_password w).1)
      go none p = inl refl
      go (some password) p = elim (Bool-cases (truthy password)) [
        | inr empty ↦ inl (rw (empty, unlock_with) refl)
        | inl filled ↦
            subst
              (λ (v : World P).
                (tables P D setup v ≡ tables P D setup w) ⊎ UnlockOn req w (tables P D setup v))
              (sym (
                ap (λ (r : Result Reply × World P). r.1)
                  (run_if_true
                    (catch
                      (do
                        found ← find_url P setup req.short_id
                        unlock_found P setup req password found)
                      (λ e. pure (fail 500 "Failed to unlock")))
                    (pure (fail 400 "Password is required.")) w filled)
                ∙ recover-pure
                    (continue (find_url P setup req.short_id w) (unlock_found P setup req password))
                    (fail 500 "Failed to unlock")))
              (found_effect req password w (find_url P setup req.short_id w) p refl)
      ]
