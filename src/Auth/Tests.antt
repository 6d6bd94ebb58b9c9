-- ===== src/Auth/Tests.antt =====
-- Runs of the store of failed logins.
use bearlink.Prelude.{String, some, ◌↔◌}
use bearlink.Shared.Hex.{hex_bytes}
use bearlink.Auth.Csrf.{Request, csrf_middleware, verify_csrf_token, csrf_middleware_iff}
use bearlink.Prelude.{ℕ, ◌≤◌, Bool, true, false, none, List, [], ◌∷◌, ◌≡◌, refl}
use bearlink.Auth.LoginAttempts.{Store, is_locked, record_failed_attempt}
use bearlink.Auth.LoginAttempts.Lockout.{failures, is_locked-failures}

abbrev empty : Store
empty = λ email. none

abbrev times : List ℕ
times = 50 ∷ 40 ∷ 30 ∷ 20 ∷ 10 ∷ []

lock_tests :
    ((is_locked 60 "a@b.c" (failures "a@b.c" times empty)).0 ≡ true)
    × ((is_locked 900050 "a@b.c" (failures "a@b.c" times empty)).0 ≡ false)
    × ((is_locked 60 "a@b.c" (failures "a@b.c" (40 ∷ 30 ∷ 20 ∷ 10 ∷ []) empty)).0 ≡ false)
unfolding is_locked record_failed_attempt
lock_tests = (refl, refl, refl)

is_locked-failures_example :
    ((is_locked 900050 "a@b.c" (failures "a@b.c" times empty)).0 ≡ false)
    × (◌≤◌ 5 5
        → ◌≡◌ {A = Bool} false false
        → (is_locked 900050 "a@b.c" (failures "a@b.c" times empty)).1 "a@b.c" ≡ none)
is_locked-failures_example = is_locked-failures "a@b.c" times empty 900050 refl

abbrev post : Request
post = record { method = "POST"; token = some "jwt"; csrf_token = some "AB12" }

csrf_tests :
    (csrf_middleware (λ key text. "ab12") "k" post ≡ none)
    × (csrf_middleware (λ key text. "ab13") "k" post ≡ some "Invalid CSRF token.")
    × (csrf_middleware (λ key text. "ab12") "k" (record post { csrf_token = none })
        ≡ some "CSRF token missing.")
unfolding csrf_middleware verify_csrf_token hex_bytes
csrf_tests = (refl, refl, refl)

csrf_middleware_iff_example :
    (csrf_middleware (λ key text. "ab12") "k" post ≡ none)
    ↔ ((csrf : String) × (some "AB12" ≡ some csrf) × (hex_bytes csrf ≡ hex_bytes "ab12"))
csrf_middleware_iff_example = csrf_middleware_iff (λ key text. "ab12") "k" post "jwt" refl refl
