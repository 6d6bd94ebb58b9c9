-- ===== src/Auth/AccountTests.antt =====
-- Runs of the accounts' handlers.
use bearlink.Shared.Json.{str}
use bearlink.Prelude.{
  String, none, some, List, [], ◌∷◌, map, length, first, arith, ap, ◌≡◌, refl, ◌⊎◌, inr,
}
use bearlink.Prelude.Exec.{ok}
use bearlink.Shared.Events.{get_message_options}
use bearlink.Auth.Record.{User, sanitize_user, fail, missing_fields, session, message, csrf_token}
use bearlink.Auth.Platform.{World}
use bearlink.Auth.Tables.{has_email}
use bearlink.Auth.Session.{
  set_token_cookie, registered_event, login_event, register, login, get_csrf_token,
}
use bearlink.Auth.Reset.{
  reset_requested_event, reset_completed_event, forgot_password, reset_password,
}
use bearlink.Prelude.Text.Decimal.{show}
use bearlink.Auth.LoginAttempts.{is_locked, clear_attempts, record_failed_attempt}
use bearlink.Auth.Attempts.{
  memory_store, Attempt, AreWrong, with_password, logins, five_failures_lock,
}
use bearlink.Auth.Memory.{memory_accounts, memory_laws}
use bearlink.Auth.Effects.{EffectAt}
use bearlink.Auth.Register.{Registered, register_adds_one}
use bearlink.Auth.Granted.{IsGranted, login_grants}
use bearlink.Auth.Resetting.{WasReset, reset_password_effect}
use bearlink.Auth.Resetting.Once.{reset_password_once}
use bearlink.Auth.Forgotten.{Requested, forgot_password_uniform, forgot_password_effect}
use bearlink.Auth.Sample.{setup, root, ann, rows, world, text, bob, right, new_text}

register_tests :
    ((register memory_accounts memory_store
        (setup 50)
        (record bob { password = text "bob12345" })
        world).0
      ≡ ok (
          fail 400
            "Password must be at least 8 characters and contain uppercase, lowercase, and a number"))
    × ((register memory_accounts memory_store (setup 50) (record bob { name = none }) world).0
        ≡ ok (missing_fields ("name" ∷ [])))
    × ((register memory_accounts memory_store
          (setup 50)
          (record bob { email = text "a@b.c" })
          world).0
        ≡ ok (fail 400 "User registration failed."))
    × (length (register memory_accounts memory_store (setup 50) bob world).1.db.users ≡ 3)
    × ((register memory_accounts memory_store (setup 50) bob world).1.db.events
        ≡ registered_event (text "bob@b.c") ∷ [])
unfolding register
register_tests = (refl, refl, refl, refl, refl)

register_adds_one_example :
    EffectAt memory_accounts memory_store memory_laws world
      (Registered memory_accounts memory_store memory_laws (setup 50) bob world.db)
      (register memory_accounts memory_store (setup 50) bob)
register_adds_one_example =
    register_adds_one memory_accounts memory_store memory_laws (setup 50) bob world

login_tests :
    ((login memory_accounts memory_store (setup 50) right world).0
      ≡ ok (session (sanitize_user ann) (set_token_cookie (setup 50) "jwt:2")))
    × ((login memory_accounts memory_store
          (setup 50)
          (record right { password = text "x" })
          world).0
        ≡ ok (fail 400 "Invalid email or password."))
    × ((login memory_accounts memory_store (setup 50) (record right { email = none }) world).0
        ≡ ok (fail 400 "User login failed."))
    × ((login memory_accounts memory_store (setup 50) right world).1.db.events
        ≡ login_event ann ∷ [])
    × (get_csrf_token memory_accounts memory_store (setup 50) (some "jwt:2") ≡ csrf_token "ab12")
unfolding login is_locked clear_attempts record_failed_attempt show
login_tests = (refl, refl, refl, refl, refl)

login_ok :
    (login memory_accounts memory_store (setup 50) right world).0
    ≡ ok (session (sanitize_user ann) (set_token_cookie (setup 50) "jwt:2"))
unfolding login is_locked clear_attempts show
login_ok = refl

login_grants_example :
    (u : User) × (token : String) × IsGranted memory_accounts memory_store memory_laws
      (setup 50)
      right
      world
      (sanitize_user ann)
      (set_token_cookie (setup 50) "jwt:2")
      u
      token
      (login memory_accounts memory_store (setup 50) right world).1
login_grants_example =
    login_grants memory_accounts memory_store memory_laws (setup 50) right world (sanitize_user ann)
      (set_token_cookie (setup 50) "jwt:2") login_ok

-- five guesses with different passwords
abbrev last_guess : Attempt memory_accounts memory_laws "a@b.c"
last_guess = (setup 50, text "x")

abbrev four : List (Attempt memory_accounts memory_laws "a@b.c")
four =
    (setup 40, text "y")
    ∷ (setup 30, text "z")
    ∷ (setup 20, text "x")
    ∷ (setup 10, text "old12345")
    ∷ []

all_wrong : AreWrong memory_accounts memory_laws "a@b.c" (root ∷ ann ∷ []) (last_guess ∷ four)
all_wrong = (
  λ db same. inr (ann, found db same, refl),
  (
    λ db same. inr (ann, found db same, refl),
    (
      λ db same. inr (ann, found db same, refl),
      (λ db same. inr (ann, found db same, refl), (λ db same. inr (ann, found db same, refl), tt)),
    ),
  ),
)
  where
    found :
        (db : memory_accounts.Db)
        → (memory_laws.tables db).users ≡ root ∷ ann ∷ []
        → memory_accounts.find_by_email (some (str "a@b.c")) db ≡ ok (some ann)
    found db same = ap (λ (us : List User). ok (first (has_email "a@b.c") us)) same

five_failures_lock_example :
    ((login memory_accounts memory_store
        (setup 60)
        (with_password memory_accounts memory_laws "a@b.c" (text "Old12345"))
        (logins memory_accounts memory_laws "a@b.c" (last_guess ∷ four) world)).0
      ≡ ok (fail 429 "Too many failed login attempts. Try again in 15 minutes."))
    × ((login memory_accounts memory_store
          (setup 60)
          (with_password memory_accounts memory_laws "a@b.c" (text "Old12345"))
          (logins memory_accounts memory_laws "a@b.c" (last_guess ∷ four) world)).1.db
        ≡ (logins memory_accounts memory_laws "a@b.c" (last_guess ∷ four) world).db)
five_failures_lock_example =
    five_failures_lock memory_accounts memory_laws "a@b.c" (text "Old12345") last_guess four
      (setup 60) world all_wrong refl refl (omega arith)

reset_tests :
    ((reset_password memory_accounts memory_store (setup 50) "beef" new_text world).0
      ≡ ok (message "Password reset successful."))
    × ((reset_password memory_accounts memory_store (setup 91) "beef" new_text world).0
        ≡ ok (fail 400 "Invalid or expired reset token."))
    × (map
          (λ (u : User). u.password)
          (reset_password memory_accounts memory_store (setup 50) "beef" new_text world).1.db.users
        ≡ "hash:Root1234" ∷ "hash:New12345" ∷ [])
    × ((reset_password memory_accounts memory_store (setup 50) "beef" new_text world).1.db.events
        ≡ reset_completed_event 2 ∷ [])
unfolding reset_password get_message_options
reset_tests = (refl, refl, refl, refl)

reset_password_effect_example :
    EffectAt memory_accounts memory_store memory_laws world
      (WasReset memory_accounts memory_store memory_laws (setup 50) "beef" new_text world.db)
      (reset_password memory_accounts memory_store (setup 50) "beef" new_text)
reset_password_effect_example =
    reset_password_effect memory_accounts memory_store memory_laws (setup 50) "beef" new_text world

abbrev after_reset : World memory_accounts memory_store
after_reset = (reset_password memory_accounts memory_store (setup 50) "beef" new_text world).1

reset_password_once_example :
    (after_reset.db ≡ world.db)
    ⊎ (((reason : String) × ((reset_password memory_accounts memory_store
              (setup 60)
              "beef"
              (text "Bob12345")
              after_reset).0
            ≡ ok (fail 400 reason)))
        × ((reset_password memory_accounts memory_store
              (setup 60)
              "beef"
              (text "Bob12345")
              after_reset).1.db
            ≡ after_reset.db))
reset_password_once_example =
    reset_password_once memory_accounts memory_store memory_laws (setup 50) (setup 60) "beef"
      new_text (text "Bob12345") world after_reset refl

forgot_tests :
    (length
        (forgot_password memory_accounts memory_store (setup 50) (text "a@b.c") world).1.db.tokens
      ≡ 2)
    × ((forgot_password memory_accounts memory_store (setup 50) (text "a@b.c") world).1.db.events
        ≡ reset_requested_event ann ∷ [])
    × ((forgot_password memory_accounts memory_store (setup 50) (text "no@b.c") world).1.db.events
        ≡ [])
unfolding forgot_password get_message_options
forgot_tests = (refl, refl, refl)

forgot_password_uniform_example :
    (forgot_password memory_accounts memory_store (setup 50) (text "a@b.c") world).0
    ≡ (forgot_password memory_accounts memory_store
        (setup 60)
        (text "a@b.c")
        (record world { db = rows [] none })).0
forgot_password_uniform_example =
    forgot_password_uniform memory_accounts memory_store (setup 50) (setup 60) (text "a@b.c") world
      (record world { db = rows [] none })

forgot_password_effect_example :
    EffectAt memory_accounts memory_store memory_laws world
      (Requested memory_accounts memory_store memory_laws (setup 50) (text "a@b.c") world.db)
      (forgot_password memory_accounts memory_store (setup 50) (text "a@b.c"))
forgot_password_effect_example =
    forgot_password_effect memory_accounts memory_store memory_laws (setup 50) (text "a@b.c") world
