-- ===== src/Url/Manage/Checked.antt =====
-- What the checks of createUrl let through.
use bearlink.Prelude.{
  ℕ, String, true, false, Option, none, some, ◌≡◌, refl, ◌⊎◌, inl, inr, ap, ◌∙◌, ◌<◌, arith,
}
use bearlink.Prelude.Exec.{ok, err}
use mathlib.Core.Path.{subst}
use bearlink.Shared.Json.{Json, num, nat, arr, nil}
use bearlink.Shared.Validation.{is_valid_url}
use bearlink.Url.Platform.{Platform, Setup}
use bearlink.Url.Domain.{check_domain}
use bearlink.Url.Manage.{Body, Config, Services}
use bearlink.Url.Manage.Checks.{
  Check, ◌>>=◌, go_on, check_url, check_allowed, check_safe, check_url_safety, check_redirect_type,
  check_new_alias, check_alias, if_given, check_expires_at, check_tags, check_utm, hash,
  matches_alias, is_reserved,
}
use bearlink.Url.Manage.Create.{Draft, draft_of, required, default_to, flat}

module _ {A B : Type 0} where
  -- a check that went on, from one that it goes on to
  then_inv :
      (m : Check A) (f : A → Check B) (b : B)
      → m >>= f ≡ ok (inr b)
      → (a : A) × (m ≡ ok (inr a)) × (f a ≡ ok (inr b))
  then_inv (ok (inr a)) f b h = (a, refl, h)
  then_inv (ok (inl reply)) f b h = absurd (ground arith)
  then_inv (err e) f b h = absurd (ground arith)

module _ (P : Platform) (S : Services P) (config : Config) (setup : Setup) where
  -- what the checks of createUrl let through
  pub record IsAdmissible (d : Draft) : Type 0 where
    pub valid_url : is_valid_url P.url_protocol d.original_url ≡ true
    pub allowed :
        check_domain config.domain_allowlist config.domain_blocklist (S.hostname_of d.original_url)
        ≡ none
    pub safe : check_url_safety P S config setup.now config.safe_browsing_key d.original_url ≡ true
    pub redirects : (d.redirect_type ≡ 301) ⊎ (d.redirect_type ≡ 302)
    pub aliased :
        (name : String)
        → d.custom_alias ≡ some name
        → (matches_alias name ≡ true) × (is_reserved name ≡ false)
    pub in_future : (t : ℕ) → d.expires_at ≡ some t → setup.now < t

  check_url_inv :
      (value : Json) (text : String)
      → check_url P S config setup.now value ≡ ok (inr text)
      → is_valid_url P.url_protocol text ≡ true
  check_url_inv value text h = ground arith

  check_allowed_inv :
      (text other : String)
      → check_allowed P S config setup.now text ≡ ok (inr other)
      → check_domain config.domain_allowlist config.domain_blocklist (S.hostname_of text) ≡ none
  check_allowed_inv text other h = ground arith

  check_safe_inv :
      (text other : String)
      → check_safe P S config setup.now text ≡ ok (inr other)
      → check_url_safety P S config setup.now config.safe_browsing_key text ≡ true
  check_safe_inv text other h = ground arith

  check_redirect_type_inv :
      (value : Json) (code : ℕ)
      → check_redirect_type value ≡ ok (inr code)
      → (code ≡ 301) ⊎ (code ≡ 302)
  check_redirect_type_inv value code h = ground arith

  check_alias_inv :
      (value : Json) (name : String)
      → check_alias value ≡ ok (inr name)
      → (matches_alias name ≡ true) × (is_reserved name ≡ false)
  check_alias_inv value name h = ground arith

  check_new_alias_inv :
      (value : Option Json) (found : Option String) (name : String)
      → check_new_alias value ≡ ok (inr found)
      → found ≡ some name
      → (matches_alias name ≡ true) × (is_reserved name ≡ false)
  check_new_alias_inv none found name h e = absurd (ground arith)
  check_new_alias_inv (some value) found name h e =
      let (n, checked, went) = then_inv (check_alias value) (λ x. go_on (some x)) found h in
      let same : n ≡ name = ground arith in
      check_alias_inv value name (checked ∙ ap (λ x. ok (inr x)) same)

  check_expires_at_inv :
      (value : Json) (date : Option ℕ) (t : ℕ)
      → check_expires_at P S config setup.now value ≡ ok (inr date)
      → date ≡ some t
      → setup.now < t
  check_expires_at_inv value date t h e = ground arith

  given_date_inv :
      (value : Option Json) (date : Option (Option ℕ)) (t : ℕ)
      → if_given (check_expires_at P S config setup.now) value ≡ ok (inr date)
      → flat date ≡ some t
      → setup.now < t
  given_date_inv none date t h e = absurd (ground arith)
  given_date_inv (some value) date t h e =
      let (found, checked, went) =
        then_inv (check_expires_at P S config setup.now value) (λ x. go_on (some x)) date h in
      check_expires_at_inv value found t checked (ground arith)

  -- Every draft that passes the checks of `createUrl` has an http or https URL whose domain the
  -- lists permit and that the Safe Browsing check lets through, the status 301 or 302, no alias or
  -- one that matches the pattern and is not reserved, and no expiry or one in the future.
  pub draft_of-IsAdmissible :
      (body : Body) (d : Draft) → draft_of P S config setup body ≡ ok (inr d) → IsAdmissible d
  unfolding draft_of
  draft_of-IsAdmissible body d h0 =
      let (value, e0, h1) = then_inv (required body.original_url) _ d h0 in
      let (text, e1, h2) = then_inv (check_url P S config setup.now value) _ d h1 in
      let (t2, e2, h3) = then_inv (check_allowed P S config setup.now text) _ d h2 in
      let (t3, e3, h4) = then_inv (check_safe P S config setup.now text) _ d h3 in
      let (code, e4, h5) =
        then_inv (check_redirect_type (default_to (num (nat 302)) body.redirect_type)) _ d h4 in
      let (name, e5, h6) = then_inv (check_new_alias body.custom_alias) _ d h5 in
      let (date, e6, h7) =
        then_inv (if_given (check_expires_at P S config setup.now) body.expires_at) _ d h6 in
      let (tags, e7, h8) = then_inv (check_tags (default_to (arr nil) body.tags)) _ d h7 in
      let (utm, e8, h9) = then_inv (if_given check_utm body.utm_params) _ d h8 in
      let (hashed, e9, h10) =
        then_inv (if_given (hash P S config setup.now) body.password) _ d h9 in
      subst IsAdmissible (went h10) (record {
        valid_url = check_url_inv value text e1;
        allowed = check_allowed_inv text t2 e2;
        safe = check_safe_inv text t3 e3;
        redirects = check_redirect_type_inv (default_to (num (nat 302)) body.redirect_type) code e4;
        aliased = λ n same. check_new_alias_inv body.custom_alias name n e5 same;
        in_future = λ t same. given_date_inv body.expires_at date t e6 same;
      })
    where
      went : {a b : Draft} → go_on a ≡ ok (inr b) → a ≡ b
      went h = ground arith
