-- ===== src/Prelude/Members.antt =====
-- Membership in a list, as a position that can be matched, through `map` and `++`.
use bearlink.Prelude.Lists.{All}
use mathlib.Core.Path.{◌≡◌, refl, sym, ap, subst}
use mathlib.Core.List.{List, [], ◌∷◌, map, Memᴰ}

pub Memᴰ-map {ℓ κ} :
    {A : Type ℓ} {B : Type κ} (f : A → B) {a : A} {l : List A} → Memᴰ a l → Memᴰ (f a) (map f l)
Memᴰ-map f (Memᴰ.head e) = Memᴰ.head (ap f e)
Memᴰ-map f (Memᴰ.tail m) = Memᴰ.tail (Memᴰ-map f m)

pub Memᴰ-map_origin {ℓ κ} :
    {A : Type ℓ} {B : Type κ} (f : A → B) {b : B} (l : List A)
    → Memᴰ b (map f l)
    → (a : A) × Memᴰ a l × (b ≡ f a)
Memᴰ-map_origin f [] m = elim m [ ]
Memᴰ-map_origin f (x ∷ l) (Memᴰ.head e) = (x, Memᴰ.head refl, e)
Memᴰ-map_origin f (x ∷ l) (Memᴰ.tail m) =
    let (a, found, e) = Memᴰ-map_origin f l m in (a, Memᴰ.tail found, e)

pub All-Memᴰ {ℓ κ} : {A : Type ℓ} (P : A → Type κ) {a : A} (l : List A) → All P l → Memᴰ a l → P a
All-Memᴰ P [] h m = elim m [ ]
All-Memᴰ P (x ∷ l) (p, h) (Memᴰ.head e) = subst P (sym e) p
All-Memᴰ P (x ∷ l) (p, h) (Memᴰ.tail m) = All-Memᴰ P l h m
