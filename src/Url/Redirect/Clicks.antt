-- ===== src/Url/Redirect/Clicks.antt =====
-- What the redirect handlers do to the database: at most one click, counted and noted together.
use bearlink.Prelude.{
  String, Bool, true, false, Option, none, some, List, [], ◌∷◌, ◌≡◌, refl, sym, ap, ◌∙◌, ◌⊎◌, inl,
  inr, Bool-cases, Option-cases, arith, if◌then◌else◌,
}
use bearlink.Prelude.Exec.{
  Result, ok, err, Exec, continue, pure, run_if_true, run_if_false, recover-pure, continue-pure,
  ◌>>=◌, ◌>>◌,
}
use mathlib.Core.Path.{subst, subst₂}
use bearlink.Url.Record.{Url}
use bearlink.Url.Platform.{
  Platform, Setup, World, Operation, increment_clicks, create_event, transact, publish_event,
}
use bearlink.Url.Tables.{Tables, DbModel, apply_all}
use bearlink.Url.Cache.{find_url, is_unique_click}
use bearlink.Url.Cache.Laws.{find_url-db, is_unique_click-db}
use bearlink.Url.Page.{build_redirect_url, build_preview_page}
use bearlink.Url.Redirect.{
  Reply, fail, page, moved, click_event, record_click, refuse, count_visit, finish, deliver, serve,
  redirect,
}
use bearlink.Url.Redirect.Visitor.{Request, ClickMetadata, extract_click_metadata, is_bot}
use bearlink.Url.Redirect.Guards.{Guarded, refuse-none}

module _ (P : Platform) (D : DbModel P) (setup : Setup) where
  abbrev pub tables : World P → Tables
  tables w = D.tables w.db

  -- the rows after one click on a link by a visitor
  abbrev pub Clicked : Url → ClickMetadata → Tables → Tables → Type 0
  Clicked url visit t t' =
      apply_all (increment_clicks url.short_id ∷ create_event (click_event P setup url visit) ∷ [])
        t
      ≡ some t'

  pub transact_effect :
      (ops : List Operation) (w : World P)
      → (tables (transact P ops w).1 ≡ tables w)
        ⊎ (apply_all ops (tables w) ≡ some (tables (transact P ops w).1))
  transact_effect ops w = go (P.transaction ops w.db) refl
    where
      go :
          (result : Result (Unit {0}) × P.Db)
          → P.transaction ops w.db ≡ result
          → (D.tables result.1 ≡ tables w) ⊎ (apply_all ops (tables w) ≡ some (D.tables result.1))
      go (ok tt, db) e = inr (D.transaction_ok ops w.db db e)
      go (err f, db) e = inl (D.transaction_err ops w.db db f e)

  record_click-db :
      (url : Url) (visit : ClickMetadata) (w : World P)
      → (record_click P setup url visit w).1.db
        ≡ (transact P
            (increment_clicks url.short_id ∷ create_event (click_event P setup url visit) ∷ [])
            w).1.db
  unfolding record_click publish_event
  record_click-db url visit w = ground arith

  pub record_click_effect :
      (url : Url) (visit : ClickMetadata) (w : World P)
      → (tables (record_click P setup url visit w).1 ≡ tables w)
        ⊎ Clicked url visit (tables w) (tables (record_click P setup url visit w).1)
  record_click_effect url visit w =
      subst (λ (db : P.Db). (D.tables db ≡ tables w) ⊎ Clicked url visit (tables w) (D.tables db))
        (sym (record_click-db url visit w)) (transact_effect _ w)

  -- the tables are as they were, or hold one click of a visitor that is no bot
  abbrev pub AtMostOneClick : Request → Url → Tables → Tables → Type 0
  AtMostOneClick req url t t' =
      (t' ≡ t)
      ⊎ ((is_bot (extract_click_metadata P req).user_agent ≡ false)
          × Clicked url (extract_click_metadata P req) t t')

  counted_effect :
      (req : Request) (url : Url) (w : World P) (unique : Result Bool × World P)
      → is_bot (extract_click_metadata P req).user_agent ≡ false
      → unique.1.db ≡ w.db
      → AtMostOneClick req url (tables w) (
          tables
            (continue unique (λ (b : Bool).
              if b then record_click P setup url (extract_click_metadata P req) else pure tt)).1)
  counted_effect req url w (ok true, v) human same =
      elim (record_click_effect url (extract_click_metadata P req) v) [
        | inl e ↦ inl (e ∙ ap D.tables same)
        | inr clicked ↦ inr (
          human,
          subst
              (λ (db : P.Db).
                Clicked url (extract_click_metadata P req) (D.tables db)
                  (tables (record_click P setup url (extract_click_metadata P req) v).1))
              same clicked,
        )
      ]
  counted_effect req url w (ok false, v) human same = inl (ap D.tables same)
  counted_effect req url w (err f, v) human same = inl (ap D.tables same)

  abbrev counted : Request → Url → Exec (World P) (Unit {0})
  counted req url = do
    unique ← is_unique_click P setup url.short_id (extract_click_metadata P req).ip
    if unique then record_click P setup url (extract_click_metadata P req) else pure tt

  count_visit_effect :
      (req : Request) (url : Url) (w : World P)
      → AtMostOneClick req url (tables w) (tables (count_visit P setup req url w).1)
  unfolding count_visit
  count_visit_effect req url w =
      elim (Bool-cases (is_bot (extract_click_metadata P req).user_agent)) [
        | inl robot ↦ inl (
            ap (λ (r : Result (Unit {0}) × World P). tables r.1)
              (run_if_true (pure tt) (counted req url) w robot))
        | inr human ↦
            subst
              (λ (r : Result (Unit {0}) × World P). AtMostOneClick req url (tables w) (tables r.1))
              (sym (run_if_false (pure tt) (counted req url) w human))
              (counted_effect req url w
                (is_unique_click P setup url.short_id (extract_click_metadata P req).ip w) human
                (is_unique_click-db P setup url.short_id (extract_click_metadata P req).ip w))
      ]

  finish_effect :
      (req : Request) (url : Url) (destination : String) (w : World P)
      → AtMostOneClick req url (tables w) (tables (finish P setup req url destination w).1)
  finish_effect req url destination w = elim (Bool-cases req.preview_is_1) [
    | inl preview ↦ inl (ground arith)
    | inr away ↦
        let same : (finish P setup req url destination w).1 ≡ (count_visit P setup req url w).1 =
          ap (λ (r : Result Reply × World P). r.1)
            (run_if_false (pure (page (build_preview_page url destination)))
              (do count_visit P setup req url; pure (moved url.redirect_type destination)) w away)
          ∙ continue-pure (count_visit P setup req url w) (moved url.redirect_type destination) in
        subst (λ (v : World P). AtMostOneClick req url (tables w) (tables v)) (sym same)
          (count_visit_effect req url w)
  ]

  deliver_effect :
      (req : Request) (url : Url) (w : World P)
      → AtMostOneClick req url (tables w) (tables (deliver P setup req url w).1)
  unfolding deliver
  deliver_effect req url w = go (build_redirect_url P url.original_url url.utm_params)
    where
      go :
          (built : Result String)
          → AtMostOneClick req url
              (tables w)
              (tables (continue (built, w) (finish P setup req url)).1)
      go (ok destination) = finish_effect req url destination w
      go (err f) = inl refl

  -- what a request for a row that was found does
  abbrev pub ClickOn : Request → World P → Tables → Type 0
  ClickOn req w t' =
      (url : Url) × (w'' : World P) × (find_url P setup req.short_id w ≡ (ok (some url), w''))
      × Guarded P setup req url
      × (is_bot (extract_click_metadata P req).user_agent ≡ false)
      × Clicked url (extract_click_metadata P req) (tables w) t'

  -- `redirect` leaves the tables as they were, or it counts one click and inserts one url_clicked
  -- event, together, on the row that it found under the slug: a row that passed the checks of the
  -- handler, for a visitor that is no bot.
  pub redirect_counts_once :
      (req : Request) (w : World P)
      → (tables (redirect P setup req w).1 ≡ tables w)
        ⊎ ClickOn req w (tables (redirect P setup req w).1)
  unfolding redirect
  redirect_counts_once req w =
      subst (λ (v : World P). (tables v ≡ tables w) ⊎ ClickOn req w (tables v))
        (sym (
          recover-pure (continue (find_url P setup req.short_id w) (serve P setup req))
            (fail 500 "Failed to redirect")))
        (go (find_url P setup req.short_id w) refl)
    where
      found_effect :
          (url : Url) (v : World P)
          → find_url P setup req.short_id w ≡ (ok (some url), v)
          → tables v ≡ tables w
          → (tables (serve P setup req (some url) v).1 ≡ tables w)
            ⊎ ClickOn req w (tables (serve P setup req (some url) v).1)
      found_effect url v e same = elim (Option-cases (refuse P setup req url)) [
        | inl passed ↦
            let eq : (serve P setup req (some url) v) ≡ deliver P setup req url v =
              rw (passed, serve) in
            elim (deliver_effect req url v) [
              | inl alike ↦ inl (ap (λ (r : Result Reply × World P). tables r.1) eq ∙ alike ∙ same)
              | inr (human, clicked) ↦ inr (
                url,
                v,
                e,
                refuse-none P setup req url passed,
                human,
                subst₂
                    (λ t (r : Result Reply × World P).
                      Clicked url (extract_click_metadata P req) t (tables r.1))
                    same (sym eq) clicked,
              )
            ]
        | inr (reply, refused) ↦
            let eq : (serve P setup req (some url) v) ≡ (ok reply, v) = rw (refused, serve) in
            inl (ap (λ (r : Result Reply × World P). tables r.1) eq ∙ same)
      ]

      go :
          (found : Result (Option Url) × World P)
          → find_url P setup req.short_id w ≡ found
          → (tables (continue found (serve P setup req)).1 ≡ tables w)
            ⊎ ClickOn req w (tables (continue found (serve P setup req)).1)
      go (ok (some url), v) e = found_effect url v e (
          ap (λ (r : Result (Option Url) × World P). tables r.1) (sym e)
          ∙ ap D.tables (find_url-db P setup req.short_id w))
      go (ok none, v) e = inl (
          ap (λ (r : Result (Option Url) × World P). tables r.1) (sym e)
          ∙ ap D.tables (find_url-db P setup req.short_id w))
      go (err f, v) e = inl (
          ap (λ (r : Result (Option Url) × World P). tables r.1) (sym e)
          ∙ ap D.tables (find_url-db P setup req.short_id w))
