-- ===== src/Url/Signed/Laws.antt =====
-- What a signed URL proves, and for how long.
use bearlink.Prelude.{
  ℕ, zero, suc, ◌/◌, ◌<◌, ◌≤◌, ◌^◌, String, false, Option, some, List, [], ◌∷◌, ap, ◌∙◌, leb,
  if◌then◌else◌, ◌≡◌, ◌↔◌, refl, arith, str_eq, eq_iff, Bool-cases, inl, inr,
}
use Prim.Native.String.{◌++◌ as ◌<>◌}
use bearlink.Prelude.Exec.{ok}
use bearlink.Prelude.Text.Decimal.{show, show-ne-empty}
use bearlink.Shared.Json.{Number, nat, negative, fraction, given}
use bearlink.Shared.Hex.{hex_bytes, same_codes_sound, same_codes_refl}
use bearlink.Url.Platform.{Platform}
use bearlink.Url.Signed.{
  valid, invalid, positive, expiry, signature, expected_signature, sign_url, compare_signature,
  check_expiry, check_given, ttl_or_default, verify_url,
}

module _ (P : Platform) where
  compare_signature_iff :
      (sig expected : List ℕ) → (compare_signature P sig expected ≡ valid) ↔ (sig ≡ expected)
  compare_signature_iff sig expected = (
    λ h. ground (arith, same_codes_sound sig expected),
    λ e. rw e (ground (arith, same_codes_refl expected)),
  )

  -- what the expiry and the signature have to be, for the number that the expiry reads as
  Accepts : ℕ → String → String → String → String → Number → Type 0
  Accepts now short_url sig exp secret number =
      ((n : ℕ) × (number ≡ nat (suc n)) × (now / 1000 ≤ suc n))
      × (hex_bytes sig ≡ hex_bytes (P.hmac_hex secret (short_url <> ":" <> exp)))

  check_expiry_iff :
      (now : ℕ) (short_url sig exp secret : String) (number : Number)
      → (check_expiry P now short_url sig exp secret (positive number) ≡ valid)
        ↔ Accepts now short_url sig exp secret number
  unfolding Accepts
  check_expiry_iff now short_url sig exp secret (nat zero) = (λ h. cc, λ h. let e = h.0.1 in cc)
  check_expiry_iff now short_url sig exp secret (nat (suc n)) =
      let same =
        compare_signature_iff (hex_bytes sig)
          (hex_bytes (expected_signature P short_url secret exp)) in
      (
        λ h. ((n, refl, ground arith), same.0 (ground arith)),
        λ h.
            let equal = same.1 h.1 in
            let in_time : now / 1000 ≤ suc n = in_time_of n (h.0) in ground arith,
      )
    where
      in_time_of :
          (n : ℕ)
          → (m : ℕ) × (nat (suc n) ≡ nat (suc m)) × (now / 1000 ≤ suc m)
          → now / 1000 ≤ suc n
      in_time_of n (m, e, le) = ground arith
  check_expiry_iff now short_url sig exp secret (negative n) = (λ h. cc, λ h. let e = h.0.1 in cc)
  check_expiry_iff now short_url sig exp secret (fraction text) =
      (λ h. cc, λ h. let e = h.0.1 in cc)

  -- A signature and an expiry are accepted exactly when both are not empty, the expiry reads as a
  -- positive integer that does not lie before the current second, and the signature's bytes are
  -- those of the HMAC of the short URL with that expiry.
  pub verify_url_iff :
      (now : ℕ) (short_url sig exp secret : String)
      → (verify_url P now short_url (some sig) (some exp) secret ≡ valid) ↔ (
          (str_eq sig "" ≡ false)
          × (str_eq exp "" ≡ false)
          × ((n : ℕ) × (P.to_number exp ≡ nat (suc n)) × (now / 1000 ≤ suc n))
          × (hex_bytes sig ≡ hex_bytes (P.hmac_hex secret (short_url <> ":" <> exp))))
  unfolding verify_url Accepts
  verify_url_iff now short_url sig exp secret =
      let accepts = check_expiry_iff now short_url sig exp secret (P.to_number exp) in
      elim (Bool-cases (str_eq sig "")) [
        | inl no_sig ↦ (λ h. let h' = rw no_sig at h in cc, λ h. cc (h.0))
        | inr has_sig ↦ elim (Bool-cases (str_eq exp "")) [
          | inl no_exp ↦ (λ h. let h' = rw (has_sig, no_exp) at h in cc, λ h. cc (h.1))
          | inr has_exp ↦ (
            λ h.
                let (n, same) = accepts.0 (rw (has_sig, has_exp) at h) in
                (has_sig, has_exp, n, same),
            λ h. rw (has_sig, has_exp) (accepts.1 (h.2, h.3)),
          )
        ]
      ]

  signed_expiry :
      (later n : ℕ) (short_url secret : String)
      → P.to_number (show (suc n)) ≡ nat (suc n)
      → check_expiry P later short_url
          (signature P short_url secret (suc n))
          (show (suc n))
          secret
          (positive (P.to_number (show (suc n))))
        ≡ (if leb (later / 1000) (suc n) then valid else invalid "Signed URL has expired.")
  signed_expiry later n short_url secret reads = rw reads (
      ground (
        arith,
        (compare_signature_iff (hex_bytes (signature P short_url secret (suc n)))
              (hex_bytes (expected_signature P short_url secret (show (suc n))))).1
            refl,
      ))

  signed_given :
      (later n : ℕ) (short_url secret : String)
      → P.to_number (show n) ≡ nat n
      → str_eq (signature P short_url secret n) "" ≡ false
      → 0 < n
      → check_given P later short_url
          (given (some (signature P short_url secret n)))
          (given (some (show n)))
          secret
        ≡ (if leb (later / 1000) n then valid else invalid "Signed URL has expired.")
  signed_given later zero short_url secret reads nonempty pos = absurd (omega (arith, pos))
  signed_given later (suc n) short_url secret reads nonempty pos =
      let printed : str_eq (show (suc n)) "" ≡ false =
        ground (arith, eq_iff (show (suc n)) "", show-ne-empty (suc n) pos) in
      rw (nonempty, printed) (signed_expiry later n short_url secret reads)

  -- The `exp` and `sig` that are read from the query of a URL that `signUrl` returned are accepted
  -- for its short URL and secret as long as the expiry, the second of the signing plus the time to
  -- live, does not lie before the current second, and are refused as expired after that. It is
  -- assumed that two different parameters set in a URL are read back from it, that Number reads back
  -- a printed positive integer below 2^53, and that no HMAC is the empty text.
  pub verify-sign :
      (read : String → String → Option String) (now later : ℕ) (short_url secret link : String)
      (ttl : Option ℕ)
      → ((text url key key' v v' : String)
          → str_eq key key' ≡ false
          → P.url_with_params text ((key, v) ∷ (key', v') ∷ []) ≡ ok url
          → (read key url ≡ some v) × (read key' url ≡ some v'))
      → ((n : ℕ) → n < 2 ^ 53 → P.to_number (show n) ≡ nat n)
      → ((key text : String) → str_eq (P.hmac_hex key text) "" ≡ false)
      → 0 < expiry P now (ttl_or_default P ttl)
      → expiry P now (ttl_or_default P ttl) < 2 ^ 53
      → sign_url P now short_url secret ttl ≡ ok link
      → verify_url P later short_url (read "sig" link) (read "exp" link) secret ≡ (
          if leb (later / 1000) (expiry P now (ttl_or_default P ttl))
          then valid
          else invalid "Signed URL has expired.")
  unfolding verify_url sign_url
  verify-sign read now later short_url secret link ttl sets reads nonempty pos small made =
      let n = expiry P now (ttl_or_default P ttl) in
      let (exp_read, sig_read) =
        sets short_url link "exp" "sig" (show n) (signature P short_url secret n) refl made in
      ap
        (λ (s : Option String).
          check_given P later short_url (given s) (given (read "exp" link)) secret)
        sig_read
      ∙ ap
          (λ (e : Option String).
            check_given P later short_url (given (some (signature P short_url secret n))) (given e)
              secret)
          exp_read
      ∙ signed_given later n short_url secret (reads n small) (nonempty _ _) pos
