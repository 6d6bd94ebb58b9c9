-- ===== src/Auth/Permissions/Others.antt =====
-- The accounts that a change of one account leaves as they are.
use bearlink.Prelude.{
  Bool, true, false, not, Option, List, [], ◌∷◌, map, select, ◌≡◌, refl, if◌then◌else◌,
}
use mathlib.Core.Path.{subst}
use mathlib.Core.List.{Memᴰ}
use bearlink.Prelude.Members.{Memᴰ-map}
use bearlink.Shared.Json.{Number}
use bearlink.Auth.Record.{User}
use bearlink.Auth.Platform.{UserChanges}
use bearlink.Auth.Tables.{is_id, change_user}

-- the rows of other ids stay
abbrev pub OthersStay : Option Number → List User → List User → Type 0
OthersStay id us us' = (v : User) → Memᴰ v us → is_id id v.id ≡ false → Memᴰ v us'

pub change_user-other :
    (id : Option Number) (c : UserChanges) (v : User)
    → is_id id v.id ≡ false
    → change_user id c v ≡ v
change_user-other id c v h = rw h refl

pub map-OthersStay :
    (id : Option Number) (c : UserChanges) (us : List User)
    → OthersStay id us (map (change_user id c) us)
map-OthersStay id c us v m h =
    subst (λ (x : User). Memᴰ x (map (change_user id c) us)) (change_user-other id c v h)
      (Memᴰ-map (change_user id c) m)

pub select-OthersStay :
    (id : Option Number) (us : List User)
    → OthersStay id us (select (λ (u : User). not (is_id id u.id)) us)
select-OthersStay id [] v m h = elim m [ ]
select-OthersStay id (x ∷ us) v (Memᴰ.head e) h =
    let kept : is_id id x.id ≡ false = subst (λ (y : User). is_id id y.id ≡ false) e h in
    rw kept (Memᴰ.head e)
select-OthersStay id (x ∷ us) v (Memᴰ.tail m) h = go (is_id id x.id) (select-OthersStay id us v m h)
  where
    go :
        (b : Bool)
        → Memᴰ v (select (λ (u : User). not (is_id id u.id)) us)
        → Memᴰ v (
            if not b
            then x ∷ select (λ (u : User). not (is_id id u.id)) us
            else select (λ (u : User). not (is_id id u.id)) us)
    go true rest = rest
    go false rest = Memᴰ.tail rest
