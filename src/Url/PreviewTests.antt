-- ===== src/Url/PreviewTests.antt =====
-- Runs of the consumer of the preview results.
use bearlink.Prelude.{ℕ, none, some, ◌≡◌, refl}
use bearlink.Prelude.Exec.{ok, err, other}
use bearlink.Shared.Json.{obj, end}
use bearlink.Url.Preview.{acked, dropped, consume_preview_result}

-- a text that is no JSON is dropped, and so is a result whose row is gone
preview_tests :
    (consume_preview_result {Db = ℕ} (λ text. none) (λ id change db. (ok tt, db)) 5 "{" 7
      ≡ (dropped, 7))
    × (consume_preview_result {Db = ℕ}
          (λ text. some (obj end))
          (λ id change db. (err other, db))
          5
          "{}"
          7
        ≡ (dropped, 7))
    × (consume_preview_result {Db = ℕ}
          (λ text. some (obj end))
          (λ id change db. (ok tt, 8))
          5
          "{}"
          7
        ≡ (acked, 8))
unfolding consume_preview_result
preview_tests = (refl, refl, refl)
