-- ===== src/Osal/EventPool/Handles.antt =====
-- Which slots the pool hands out, and that an event starts without a signal.
use stm32f407vgt.Base.{
  ◌≡◌, ◌≢◌, ℕ, zero, suc, ◌+◌, refl, sym, ap, ◌∙◌, inl, inr, Bool, true, false, not, ◌||◌, Option,
  none, some, [], ◌∷◌, length, get_elem?, arith, Bool-cases, Option-cases, if◌then◌else◌,
}
use stm32f407vgt.Osal.EventPool.{
  Event, Pool, first_unused, modify, taken, with_semaphore, finish_create, claim_slot, event_create,
  event_set, event_reset, event_wait, is_given, given, drained,
}

-- How many slots are in use.
abbrev pub used : Pool → ℕ
used [] = 0
used (e ∷ es) = (if e.in_use then 1 else 0) + used es

abbrev pub is_unused : Option Event → Bool
is_unused none = false
is_unused (some e) = not e.in_use

length-modify : (i : ℕ) (f : Event → Event) (p : Pool) → length (modify i f p) ≡ length p
unfolding modify
length-modify i f [] = refl
length-modify zero f (e ∷ es) = refl
length-modify (suc i) f (e ∷ es) = ap suc (length-modify i f es)

get_elem?-modify_ne :
    (i j : ℕ) (f : Event → Event) (p : Pool) → i ≢ j → get_elem? (modify i f p) j ≡ get_elem? p j
unfolding modify
get_elem?-modify_ne i j f [] h = refl
get_elem?-modify_ne zero zero f (e ∷ es) h = absurd (h refl)
get_elem?-modify_ne zero (suc j) f (e ∷ es) h = refl
get_elem?-modify_ne (suc i) zero f (e ∷ es) h = refl
get_elem?-modify_ne (suc i) (suc j) f (e ∷ es) h =
    get_elem?-modify_ne i j f es (λ eq. h (ap suc eq))

get_elem?-modify_self :
    (i : ℕ) (f : Event → Event) (p : Pool) (e : Event)
    → get_elem? p i ≡ some e
    → get_elem? (modify i f p) i ≡ some (f e)
unfolding modify
get_elem?-modify_self i f [] e h = absurd (cc)
get_elem?-modify_self zero f (x ∷ es) e h = let same : x ≡ e = cc in ap (λ y. some (f y)) same
get_elem?-modify_self (suc i) f (x ∷ es) e h = get_elem?-modify_self i f es e h

first_unused_lem :
    (p : Pool) (i : ℕ)
    → first_unused p ≡ some i
    → (e : Event) × (get_elem? p i ≡ some e) × (e.in_use ≡ false)
unfolding first_unused
first_unused_lem [] i h = absurd (cc)
first_unused_lem (e ∷ es) i h = elim (Bool-cases e.in_use) [
  | inr free ↦
      let here : some 0 ≡ some i = rw free at h in
      let index : 0 ≡ i = cc in (e, ap (get_elem? (e ∷ es)) (sym index), free)
  | inl busy ↦ elim (Option-cases (first_unused es)) [
    | inl full ↦ let z : none ≡ some i = rw (busy, full) at h in absurd (cc)
    | inr (k, found) ↦
        let here : some (suc k) ≡ some i = rw (busy, found) at h in
        let index : suc k ≡ i = cc in
        let (e', at_k, free) = first_unused_lem es k found in
        (e', ap (get_elem? (e ∷ es)) (sym index) ∙ at_k, free)
  ]
]

first_unused-none : (p : Pool) → first_unused p ≡ none → used p ≡ length p
unfolding first_unused
first_unused-none [] h = refl
first_unused-none (e ∷ es) h = elim (Bool-cases e.in_use) [
  | inr free ↦ let z : ◌≡◌ {A = Option ℕ} (some 0) none = rw free at h in absurd (cc)
  | inl busy ↦ elim (Option-cases (first_unused es)) [
    | inl full ↦ rw busy (omega (arith, first_unused-none es full))
    | inr (k, found) ↦
        let z : ◌≡◌ {A = Option ℕ} (some (suc k)) none = rw (busy, found) at h in absurd (cc)
  ]
]

event_create_full : (p : Pool) → first_unused p ≡ none → event_create true p ≡ (none, p)
unfolding event_create claim_slot
event_create_full p full =
    let refused : claim_slot p ≡ (none, p) = rw (full, claim_slot) refl in
    ap (finish_create true) refused

event_create_found :
    (p : Pool) (k : ℕ)
    → first_unused p ≡ some k
    → event_create true p ≡ (some k, modify k with_semaphore (modify k taken p))
unfolding event_create claim_slot
event_create_found p k found = ap (finish_create true) (claimed p k found)
  where
    claimed :
        (p : Pool) (k : ℕ) → first_unused p ≡ some k → claim_slot p ≡ (some k, modify k taken p)
    claimed p k found = rw (found, claim_slot) refl

-- Where the semaphore can be made, the pool refuses an event only if all its slots are in use. An
-- event that it hands out had a slot that was not in use; its slot is then in use, with a semaphore
-- that is not given, and every other slot is as it was.
pub event_create_lem :
    (p p' : Pool) (i : ℕ)
    → ((event_create true p).0 ≡ none → used p ≡ length p)
      × (event_create true p ≡ (some i, p')
          → (is_unused (get_elem? p i) ≡ true)
            × (get_elem? p' i ≡ some (record { handle = some false; in_use = true }))
            × ((j : ℕ) → i ≢ j → get_elem? p' j ≡ get_elem? p j))
event_create_lem p p' i = elim (Option-cases (first_unused p)) [
  | inl full ↦ (
    λ e. first_unused-none p full,
    λ e.
        let z : ◌≡◌ {A = Option ℕ} none (some i) =
          ap (λ r. r.0) (sym (event_create_full p full) ∙ e) in
        absurd (cc),
  )
  | inr (k, found) ↦
      let (e0, at_k, free) = first_unused_lem p k found in
      (
        λ e.
            let z : ◌≡◌ {A = Option ℕ} (some k) none =
              ap (λ r. r.0) (sym (event_create_found p k found)) ∙ e in
            absurd (cc),
        λ e.
            let made : ◌≡◌ {A = Option ℕ × Pool}
                (some k, modify k with_semaphore (modify k taken p)) (some i, p') =
              sym (event_create_found p k found) ∙ e in
            let answer : ◌≡◌ {A = Option ℕ} (some k) (some i) = ap (λ r. r.0) made in
            let index : k ≡ i = cc in
            let pool : modify k with_semaphore (modify k taken p) ≡ p' = ap (λ r. r.1) made in
            rw (sym index, sym pool)
              (
                rw (at_k, free) refl,
                get_elem?-modify_self k with_semaphore (modify k taken p) (taken e0)
                    (get_elem?-modify_self k taken p e0 at_k),
                λ j apart.
                    get_elem?-modify_ne k j with_semaphore (modify k taken p) apart
                    ∙ get_elem?-modify_ne k j taken p apart,
              ),
      )
]

-- A signal that a slot's last user left behind does not reach the next: an event that was set and then
-- reset keeps its waiter waiting until it is set again; without the reset the wait ends at once.
pub event_wait-event_reset :
    (p : Pool) (i : ℕ) (b : Bool) (arrives : Bool)
    → get_elem? p i ≡ some (record { handle = some b; in_use = true })
    → ((event_wait (some i) arrives (event_reset (some i) (event_set (some i) p))).0 ≡ arrives)
      × ((event_wait (some i) arrives (event_set (some i) p)).0 ≡ true)
unfolding event_wait event_reset event_set
event_wait-event_reset p i b arrives h =
    let set_it = λ (e : Event). record e { handle = given e.handle } in
    let reset_it = λ (e : Event). record e { handle = drained e.handle } in
    let once : get_elem? (modify i set_it p) i
        ≡ some (record { handle = some true; in_use = true }) =
      get_elem?-modify_self i set_it p (record { handle = some b; in_use = true }) h in
    let twice : get_elem? (modify i reset_it (modify i set_it p)) i
        ≡ some (record { handle = some false; in_use = true }) =
      get_elem?-modify_self i reset_it (modify i set_it p)
        (record { handle = some true; in_use = true }) once in
    (ap (λ o. is_given o || arrives) twice, ap (λ o. is_given o || arrives) once)
