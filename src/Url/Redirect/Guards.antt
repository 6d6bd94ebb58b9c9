-- ===== src/Url/Redirect/Guards.antt =====
-- When the redirect handlers give a visitor the destination of a link.
use bearlink.Prelude.{
  ℕ, String, Bool, true, false, Option, none, some, ◌≡◌, refl, sym, ap, ◌∙◌, inl, inr, Bool-cases,
  Option-cases, arith,
}
use mathlib.Core.Path.{subst}
use mathlib.Core.Option.{some-injective}
use bearlink.Prelude.Exec.{Result, ok, err, continue, recover, pure}
use bearlink.Shared.Json.{Json, given, truthy}
use bearlink.Shared.Validation.{is_safe_redirect_url}
use bearlink.Url.Record.{Url}
use bearlink.Url.Platform.{Platform, Setup, World}
use bearlink.Url.Cache.{find_url}
use bearlink.Url.Page.{build_redirect_url}
use bearlink.Url.Signed.{Verdict, valid, invalid, verify_url}
use bearlink.Url.Redirect.{
  Reply, fail, page, moved, expired, has_password, short_url, refuse, refuse_verdict,
  check_signature, finish, deliver, serve, redirect, unlock, unlock_with, qr,
}
use bearlink.Url.Redirect.Visitor.{Request}

-- The replies that show the destination.
abbrev pub shows_destination : Reply → Bool
shows_destination (moved code url) = true
shows_destination (page html) = true
shows_destination _ = false

module _ (P : Platform) (setup : Setup) where
  -- what `redirect` has checked of a link before it shows its destination
  pub record Guarded (req : Request) (url : Url) : Type 0 where
    pub safe : is_safe_redirect_url P.url_protocol url.original_url ≡ true
    pub unexpired : expired setup.now url.expires_at ≡ false
    pub unprotected : has_password url ≡ false
    pub signed :
        url.require_signature ≡ true
        → (secret : String) × (given setup.url_signing_secret ≡ some secret)
          × (verify_url P setup.now (short_url P setup url) req.sig req.exp secret ≡ valid)

  verdict_none : (v : Verdict) → refuse_verdict P setup v ≡ none → v ≡ valid
  verdict_none valid h = refl
  verdict_none (invalid reason) h = cc

  signature_none :
      (req : Request) (url : Url)
      → check_signature P setup req url ≡ none
      → url.require_signature ≡ true
      → (secret : String) × (given setup.url_signing_secret ≡ some secret)
        × (verify_url P setup.now (short_url P setup url) req.sig req.exp secret ≡ valid)
  signature_none req url h required = elim (Option-cases (given setup.url_signing_secret)) [
    | inl missing ↦ absurd (ground arith)
    | inr (secret, given_secret) ↦ (secret, given_secret, verdict_none _ (ground arith))
  ]

  pub refuse-none : (req : Request) (url : Url) → refuse P setup req url ≡ none → Guarded req url
  unfolding refuse
  refuse-none req url h = record {
    safe = ground arith;
    unexpired = ground arith;
    unprotected = ground arith;
    signed = signature_none req url (ground arith);
  }

  refuse_hides :
      (req : Request) (url : Url) (reply : Reply)
      → refuse P setup req url ≡ some reply
      → shows_destination reply ≡ false
  unfolding refuse
  refuse_hides req url reply h = ground arith

  -- What a reply to a request about a row says of the row.
  record Answers (req : Request) (url : Url) (reply : Reply) : Type 0 where
    guarded : Guarded req url
    built :
        (code : ℕ) (destination : String)
        → reply ≡ moved code destination
        → (code ≡ url.redirect_type)
          × (build_redirect_url P url.original_url url.utm_params ≡ ok destination)

  finish_moved :
      (req : Request) (url : Url) (destination : String) (w w' : World P) (reply : Reply) (code : ℕ)
      (to : String)
      → finish P setup req url destination w ≡ (ok reply, w')
      → reply ≡ moved code to
      → (code ≡ url.redirect_type) × (destination ≡ to)
  finish_moved req url destination w w' reply code to h e = ground arith

  deliver_moved :
      (req : Request) (url : Url) (w w' : World P) (reply : Reply) (code : ℕ) (to : String)
      → deliver P setup req url w ≡ (ok reply, w')
      → reply ≡ moved code to
      → (code ≡ url.redirect_type) × (build_redirect_url P url.original_url url.utm_params ≡ ok to)
  unfolding deliver
  deliver_moved req url w w' reply code to h e =
      go (build_redirect_url P url.original_url url.utm_params) refl h
    where
      go :
          (built : Result String)
          → build_redirect_url P url.original_url url.utm_params ≡ built
          → continue (built, w) (finish P setup req url) ≡ (ok reply, w')
          → (code ≡ url.redirect_type)
            × (build_redirect_url P url.original_url url.utm_params ≡ ok to)
      go (ok destination) same eq =
          let (c, d) = finish_moved req url destination w w' reply code to eq e in
          (c, same ∙ ap ok d)
      go (err f) same eq = absurd (ground arith)

  serve-Answers :
      (req : Request) (found : Option Url) (w w' : World P) (reply : Reply)
      → serve P setup req found w ≡ (ok reply, w')
      → shows_destination reply ≡ true
      → (url : Url) × (found ≡ some url) × Answers req url reply
  serve-Answers req none w w' reply h shown = ground arith
  serve-Answers req (some url) w w' reply h shown = elim (Option-cases (refuse P setup req url)) [
    | inl none_refused ↦ (
      url,
      refl,
      record {
        guarded = refuse-none req url none_refused;
        built =
            λ code to e. deliver_moved req url w w' reply code to (rw (none_refused, serve) at h) e;
      },
    )
    | inr (refusal, refused) ↦
        let hidden = refuse_hides req url refusal refused in absurd (ground arith)
  ]

  -- `redirect` shows a destination (a redirect or the preview page) only for a row that it found
  -- under the slug, whose URL is http or https, which has not expired and has no password, and
  -- whose signature is valid if the row requires one. A redirect has the row's status code and
  -- goes to the row's URL with its UTM parameters.
  pub redirect-Guarded :
      (req : Request) (w w' : World P) (reply : Reply)
      → redirect P setup req w ≡ (ok reply, w')
      → shows_destination reply ≡ true
      → (url : Url) × (w'' : World P) × (find_url P setup req.short_id w ≡ (ok (some url), w''))
        × Guarded req url
        × ((code : ℕ) (destination : String)
            → reply ≡ moved code destination
            → (code ≡ url.redirect_type)
              × (build_redirect_url P url.original_url url.utm_params ≡ ok destination))
  unfolding redirect
  redirect-Guarded req w w' reply h shown = go (find_url P setup req.short_id w) refl h
    where
      served :
          (url : Url) (w'' : World P)
          → find_url P setup req.short_id w ≡ (ok (some url), w'')
          → (result : Result Reply × World P) → serve P setup req (some url) w'' ≡ result
          → recover result (λ e. pure (fail 500 "Failed to redirect")) ≡ (ok reply, w')
          → Answers req url reply
      served url w'' found (ok r, v) same eq =
          let (u, e, answers) = serve-Answers req (some url) w'' w' reply (same ∙ eq) shown in
          subst (λ (x : Url). Answers req x reply) (sym (some-injective url u e)) answers
      served url w'' found (err f, v) same eq = absurd (ground arith)

      go :
          (found : Result (Option Url) × World P)
          → find_url P setup req.short_id w ≡ found
          → recover (continue found (serve P setup req)) (λ e. pure (fail 500 "Failed to redirect"))
            ≡ (ok reply, w')
          → (url : Url) × (w'' : World P) × (find_url P setup req.short_id w ≡ (ok (some url), w''))
            × Guarded req url
            × ((code : ℕ) (destination : String)
                → reply ≡ moved code destination
                → (code ≡ url.redirect_type)
                  × (build_redirect_url P url.original_url url.utm_params ≡ ok destination))
      go (ok (some url), w'') same eq =
          let answers = served url w'' same (serve P setup req (some url) w'') refl eq in
          (url, w'', same, answers.guarded, answers.built)
      go (ok none, w'') same eq = absurd (ground arith)
      go (err f, w'') same eq = absurd (ground arith)

  -- Every request is answered: no exception leaves one of the three handlers, whatever fails.
  pub handlers_answer :
      (req : Request) (w : World P)
      → ((reply : Reply) × ((redirect P setup req w).0 ≡ ok reply))
        × ((reply : Reply) × ((unlock P setup req w).0 ≡ ok reply))
        × ((reply : Reply) × ((qr P setup req w).0 ≡ ok reply))
  unfolding redirect unlock qr
  handlers_answer req w = (
    caught _ 500 "Failed to redirect",
    unlocked req.password,
    caught _ 500 "Failed to generate QR code",
  )
    where
      caught :
          (result : Result Reply × World P) (code : ℕ) (text : String)
          → (reply : Reply) × ((recover result (λ e. pure (fail code text))).0 ≡ ok reply)
      caught (ok reply, v) code text = (reply, refl)
      caught (err e, v) code text = (fail code text, refl)

      unlocked :
          (password : Option Json)
          → (reply : Reply) × ((unlock_with P setup req password w).0 ≡ ok reply)
      unlocked none = (fail 400 "Password is required.", refl)
      unlocked (some password) = elim (Bool-cases (truthy password)) [
        | inl filled ↦ rw filled (caught _ 500 "Failed to unlock")
        | inr empty ↦ rw empty (fail 400 "Password is required.", refl)
      ]
