-- ===== src/Osal/ThreadxQueue/Slots.antt =====
-- Each slot number is in exactly one place, and a slot keeps its item until its receiver releases it.
use stm32f407vgt.Base.{
  ◌≡◌, ◌≢◌, ℕ, ◌+◌, ◌<◌, refl, ap, ◌∙◌, inl, inr, true, false, Option, some, List, [], ◌∷◌, ◌++◌,
  length, get_elem?, set, ◌==◌, arith, get_elem?-set_self, get_elem?-set_ne, Bool-cases,
  if◌then◌else◌,
}
use stm32f407vgt.Osal.ThreadxQueue.{Sender, claimed, stored}

-- How often slot `k` occurs.
abbrev pub occ : ℕ → List ℕ → ℕ
occ k [] = 0
occ k (s ∷ ss) = (if s == k then 1 else 0) + occ k ss

pub occ-append : (k : ℕ) (xs ys : List ℕ) → occ k (xs ++ ys) ≡ occ k xs + occ k ys
occ-append k [] ys = omega arith
occ-append k (x ∷ xs) ys = omega (arith, occ-append k xs ys)

pub occ_self : (k : ℕ) (xs : List ℕ) → occ k (k ∷ xs) ≡ 1 + occ k xs
occ_self k xs = let same : (k == k) ≡ true = ground arith in rw same refl

differs : (s slot : ℕ) (ss : List ℕ) → occ slot (s ∷ ss) ≡ 0 → (slot ≢ s) × (occ slot ss ≡ 0)
differs s slot ss e = elim (Bool-cases (s == slot)) [
  | inl same ↦ let z : 1 + occ slot ss ≡ 0 = rw same at e in absurd (omega (arith, z))
  | inr other ↦
      let rest : 0 + occ slot ss ≡ 0 = rw other at e in
      (λ eq. apart s slot other eq, omega (arith, rest))
]
  where
    apart : (s slot : ℕ) → (s == slot) ≡ false → slot ≡ s → ⊥
    apart s slot other eq = ground arith

module _ {ℓ} {A : Type ℓ} where
  abbrev pub slot_of : Sender A → ℕ
  slot_of (claimed slot x) = slot
  slot_of (stored slot x) = slot

  abbrev pub sender_slots : List (Sender A) → List ℕ
  sender_slots [] = []
  sender_slots (s ∷ ss) = slot_of s ∷ sender_slots ss

  pub occ-sender_slots :
      (k : ℕ) (before after : List (Sender A))
      → occ k (sender_slots (before ++ after))
        ≡ occ k (sender_slots before) + occ k (sender_slots after)
  occ-sender_slots k [] after = omega arith
  occ-sender_slots k (s ∷ before) after = omega (arith, occ-sender_slots k before after)

  -- The items behind slots, which the storage holds in its elements.
  abbrev pub items : List A → List ℕ → List (Option A)
  items storage [] = []
  items storage (s ∷ ss) = get_elem? storage s ∷ items storage ss

  pub items-append :
      (storage : List A) (xs ys : List ℕ)
      → items storage (xs ++ ys) ≡ items storage xs ++ items storage ys
  items-append storage [] ys = refl
  items-append storage (x ∷ xs) ys = ap (λ l. get_elem? storage x ∷ l) (items-append storage xs ys)

  -- A store to a slot that is not among them changes none of them.
  pub items-set :
      (storage : List A) (slot : ℕ) (x : A) (ss : List ℕ)
      → occ slot ss ≡ 0
      → items (set storage slot x) ss ≡ items storage ss
  items-set storage slot x [] e = refl
  items-set storage slot x (s ∷ ss) e =
      let (apart, rest) = differs s slot ss e in
      rw (get_elem?-set_ne storage slot s x apart, items-set storage slot x ss rest) refl

  -- The slot of each sender that has stored its item holds that item.
  pub data Kept (storage : List A) : List (Sender A) → Type ℓ where
    kept_none : Kept storage []
    kept_claimed :
        {slot : ℕ} {x : A} {ss : List (Sender A)}
        → Kept storage ss
        → Kept storage (claimed slot x ∷ ss)
    kept_stored :
        {slot : ℕ} {x : A} {ss : List (Sender A)}
        → get_elem? storage slot ≡ some x
        → Kept storage ss
        → Kept storage (stored slot x ∷ ss)

  pub Kept-drop :
      (storage : List A) (before after : List (Sender A)) (s : Sender A)
      → Kept storage (before ++ (s ∷ after))
      → Kept storage (before ++ after)
  Kept-drop storage [] after s (kept_claimed k) = k
  Kept-drop storage [] after s (kept_stored e k) = k
  Kept-drop storage (claimed slot x ∷ before) after s (kept_claimed k) =
      kept_claimed (Kept-drop storage before after s k)
  Kept-drop storage (stored slot x ∷ before) after s (kept_stored e k) =
      kept_stored e (Kept-drop storage before after s k)

  pub Kept-here :
      (storage : List A) (before after : List (Sender A)) (slot : ℕ) (x : A)
      → Kept storage (before ++ (stored slot x ∷ after))
      → get_elem? storage slot ≡ some x
  Kept-here storage [] after slot x (kept_stored e k) = e
  Kept-here storage (claimed s y ∷ before) after slot x (kept_claimed k) =
      Kept-here storage before after slot x k
  Kept-here storage (stored s y ∷ before) after slot x (kept_stored e k) =
      Kept-here storage before after slot x k

  Kept-set :
      (storage : List A) (slot : ℕ) (x : A) (ss : List (Sender A))
      → occ slot (sender_slots ss) ≡ 0
      → Kept storage ss
      → Kept (set storage slot x) ss
  Kept-set storage slot x [] e kept_none = kept_none
  Kept-set storage slot x (claimed s y ∷ ss) e (kept_claimed k) =
      kept_claimed (Kept-set storage slot x ss (differs s slot (sender_slots ss) e).1 k)
  Kept-set storage slot x (stored s y ∷ ss) e (kept_stored here k) =
      let (apart, rest) = differs s slot (sender_slots ss) e in
      kept_stored (get_elem?-set_ne storage slot s x apart ∙ here)
        (Kept-set storage slot x ss rest k)

  pub Kept-store :
      (storage : List A) (before after : List (Sender A)) (slot : ℕ) (x : A)
      → slot < length storage
      → occ slot (sender_slots before) + occ slot (sender_slots after) ≡ 0
      → Kept storage (before ++ (claimed slot x ∷ after))
      → Kept (set storage slot x) (before ++ (stored slot x ∷ after))
  Kept-store storage [] after slot x inside e (kept_claimed k) =
      kept_stored (get_elem?-set_self storage slot x inside)
        (Kept-set storage slot x after (omega (arith, e)) k)
  Kept-store storage (claimed s y ∷ before) after slot x inside e (kept_claimed k) =
      let (apart, rest) = differs s slot (sender_slots before) (omega (arith, e)) in
      kept_claimed (Kept-store storage before after slot x inside (omega (arith, e, rest)) k)
  Kept-store storage (stored s y ∷ before) after slot x inside e (kept_stored here k) =
      let (apart, rest) = differs s slot (sender_slots before) (omega (arith, e)) in
      kept_stored (get_elem?-set_ne storage slot s x apart ∙ here)
        (Kept-store storage before after slot x inside (omega (arith, e, rest)) k)
