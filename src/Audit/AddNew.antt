-- ===== src/Audit/AddNew.antt =====
-- Inserting rows with skipDuplicates: nothing stored is lost, every new event id is there
-- afterwards, nothing else is, and no event id stands twice.
use bearlink.Prelude.{String, true, false, List, [], ◌∷◌, ◌++◌, ◌≡◌, refl, sym, ap, ◌∙◌}
use bearlink.Prelude.{◌⊎◌, inl, inr, ◌||◌, str_eq, eq_iff, if_true, if_false, Bool-cases, arith}
use bearlink.Audit.{Entry, has_event, add_one, add_new}
use mathlib.Core.Path.{subst}
use mathlib.Core.List.Memᴰ
use mathlib.Core.List.{Memᴰ}

-- A stored row with a given event id.
abbrev pub Holds : String → List Entry → Type 0
Holds id stored = (e : Entry) × Memᴰ e stored × (e.event_id ≡ id)

has_event-Holds : (id : String) (stored : List Entry) → has_event id stored ≡ true → Holds id stored
has_event-Holds id [] h = cc
has_event-Holds id (e ∷ stored) h = elim (Bool-cases (str_eq e.event_id id)) [
  | inl here ↦ (e, Memᴰ.head refl, (eq_iff e.event_id id).0 here)
  | inr away ↦ let (q, m, same) = has_event-Holds id stored (ground arith) in (q, Memᴰ.tail m, same)
]

add_one-keeps :
    (q : Entry) (stored : List Entry) {e : Entry} → Memᴰ e stored → Memᴰ e (add_one q stored)
add_one-keeps q stored m = elim (Bool-cases (has_event q.event_id stored)) [
  | inl old ↦ subst (Memᴰ _) (sym (if_true _ _ old)) m
  | inr new ↦ subst (Memᴰ _) (sym (if_false _ _ new)) (Memᴰ.append_left (q ∷ []) m)
]

pub add_new-keeps :
    (new stored : List Entry) {e : Entry} → Memᴰ e stored → Memᴰ e (add_new new stored)
unfolding add_new
add_new-keeps [] stored m = m
add_new-keeps (q ∷ new) stored m = add_new-keeps new (add_one q stored) (add_one-keeps q stored m)

add_one-Holds : (e : Entry) (stored : List Entry) → Holds e.event_id (add_one e stored)
add_one-Holds e stored = elim (Bool-cases (has_event e.event_id stored)) [
  | inl old ↦
      subst (Holds e.event_id) (sym (if_true _ _ old)) (has_event-Holds e.event_id stored old)
  | inr new ↦
      subst (Holds e.event_id) (sym (if_false _ _ new))
        (e, Memᴰ.append_right stored (Memᴰ.head refl), refl)
]

pub add_new-Holds :
    (new stored : List Entry) {e : Entry} → Memᴰ e new → Holds e.event_id (add_new new stored)
unfolding add_new
add_new-Holds [] stored m = elim m [ ]
add_new-Holds (q ∷ new) stored (Memᴰ.head same) =
    let (e, m, id) = add_one-Holds q stored in
    (e, add_new-keeps new (add_one q stored) m, id ∙ ap (λ (x : Entry). x.event_id) (sym same))
add_new-Holds (q ∷ new) stored (Memᴰ.tail m) = add_new-Holds new (add_one q stored) m

add_one-origin :
    (q : Entry) (stored : List Entry) {e : Entry}
    → Memᴰ e (add_one q stored)
    → Memᴰ e stored ⊎ (e ≡ q)
add_one-origin q stored {e} m = elim (Bool-cases (has_event q.event_id stored)) [
  | inl old ↦ inl (subst (Memᴰ e) (if_true _ _ old) m)
  | inr new ↦ elim (Memᴰ.append_cases stored (subst (Memᴰ e) (if_false _ _ new) m)) [
    | inl earlier ↦ inl earlier
    | inr last ↦ elim (Memᴰ.cases_cons last) [
      | inl same ↦ inr same
      | inr beyond ↦ absurd (Memᴰ.not-nil beyond)
    ]
  ]
]

pub add_new-origin :
    (new stored : List Entry) {e : Entry} → Memᴰ e (add_new new stored) → Memᴰ e stored ⊎ Memᴰ e new
unfolding add_new
add_new-origin [] stored m = inl m
add_new-origin (q ∷ new) stored m = elim (add_new-origin new (add_one q stored) m) [
  | inl before ↦ elim (add_one-origin q stored before) [
    | inl earlier ↦ inl earlier
    | inr same ↦ inr (Memᴰ.head same)
  ]
  | inr later ↦ inr (Memᴰ.tail later)
]

-- No event id stands twice.
abbrev pub DistinctIds : List Entry → Type 0
DistinctIds [] = Unit
DistinctIds (e ∷ es) = (has_event e.event_id es ≡ false) × DistinctIds es

has_event-append :
    (id : String) (stored : List Entry) (q : Entry)
    → has_event id (stored ++ q ∷ []) ≡ (has_event id stored || str_eq q.event_id id)
has_event-append id [] q = ground arith
has_event-append id (e ∷ stored) q = ground (arith, has_event-append id stored q)

str_eq_comm : (s t : String) → str_eq s t ≡ str_eq t s
str_eq_comm s t = ground (arith, eq_iff s t, eq_iff t s)

append-DistinctIds :
    (stored : List Entry) (q : Entry)
    → DistinctIds stored
    → has_event q.event_id stored ≡ false
    → DistinctIds (stored ++ q ∷ [])
append-DistinctIds [] q d h = (refl, tt)
append-DistinctIds (e ∷ stored) q (fresh, d) h = (
  ground (arith, has_event-append e.event_id stored q, str_eq_comm q.event_id e.event_id),
  append-DistinctIds stored q d (ground arith),
)

pub add_new-DistinctIds :
    (new stored : List Entry) → DistinctIds stored → DistinctIds (add_new new stored)
unfolding add_new
add_new-DistinctIds [] stored d = d
add_new-DistinctIds (q ∷ new) stored d =
    add_new-DistinctIds new (add_one q stored) (elim (Bool-cases (has_event q.event_id stored)) [
      | inl old ↦ subst DistinctIds (sym (if_true _ _ old)) d
      | inr fresh ↦
          subst DistinctIds (sym (if_false _ _ fresh)) (append-DistinctIds stored q d fresh)
    ])

add_one-of-has_event :
    (q : Entry) (stored : List Entry)
    → has_event q.event_id stored ≡ true
    → add_one q stored ≡ stored
add_one-of-has_event q stored h = if_true _ _ h

Holds-has_event : (id : String) (stored : List Entry) → Holds id stored → has_event id stored ≡ true
Holds-has_event id [] (e, m, same) = elim m [ ]
Holds-has_event id (q ∷ stored) (e, m, same) = elim (Memᴰ.cases_cons m) [
  | inl here ↦
      let q_same = (eq_iff q.event_id id).1 (ap (λ (x : Entry). x.event_id) (sym here) ∙ same) in
      ground arith
  | inr later ↦ let rest = Holds-has_event id stored (e, later, same) in ground arith
]

add_new_of_held :
    (new stored : List Entry)
    → ((e : Entry) → Memᴰ e new → Holds e.event_id stored)
    → add_new new stored ≡ stored
unfolding add_new
add_new_of_held [] stored h = refl
add_new_of_held (q ∷ new) stored h =
    let old =
      add_one-of-has_event q stored (Holds-has_event q.event_id stored (h q (Memᴰ.head refl))) in
    ap (add_new new) old ∙ add_new_of_held new stored (λ e m. h e (Memᴰ.tail m))

-- Inserting the same rows a second time changes nothing.
pub add_new_idempotent :
    (new stored : List Entry) → add_new new (add_new new stored) ≡ add_new new stored
add_new_idempotent new stored =
    add_new_of_held new (add_new new stored) (λ e m. add_new-Holds new stored m)
