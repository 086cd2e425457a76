-- ===== src/Osal/EventFlags/Independent.antt =====
-- The events of ThreadX are flags of their own.
use stm32f407vgt.Base.{
  ℕ, zero, suc, leb, Option, some, sym, ◌^◌, ◌≤◌, ◌<◌, ◌≡◌, refl, ap, ◌∙◌, Bool, true, false, not,
  ◌&&◌, ◌||◌, ◌==◌, if◌then◌else◌, arith, inl, inr, Bool-cases, ==-refl,
}
use native.Mathlib.Nat.{pow-le-pow_right}
use stm32f407vgt.Osal.ThreadxQueue.{Ticks, no_wait, ms_to_ticks}
use stm32f407vgt.Osal.EventFlags.{bit, complement, event_create}
use stm32f407vgt.Osal.EventFlags.Masks.{bit_pow, bit-complement}
use stm32f407vgt.Osal.EventFlags.Threadx.{ThreadxFlags, event_set, event_wait, event_reset}

-- The documented behaviour of the group, on the flags that are up. A wait for flags of which one is up
-- succeeds and lowers what it waited for, and one without patience fails where they are down.
pub record FlagLaws {G : Type 0} (kernel : ThreadxFlags G) (is_up : G → ℕ → Bool) : Type 0 where
  pub ors :
      (mask j : ℕ) (g : G)
      → j < 32
      → is_up (kernel.flags_set_or mask g) j ≡ (is_up g j || bit mask j)
  pub ands :
      (mask j : ℕ) (g : G)
      → j < 32
      → is_up (kernel.flags_set_and mask g) j ≡ (is_up g j && bit mask j)
  pub takes :
      (mask i : ℕ) (ticks : Ticks) (g : G)
      → i < 32
      → bit mask i ≡ true
      → is_up g i ≡ true
      → ((kernel.flags_get mask ticks g).0 ≡ true)
        × ((j : ℕ)
            → j < 32
            → is_up (kernel.flags_get mask ticks g).1 j ≡ (is_up g j && not (bit mask j)))
  pub polls :
      (mask : ℕ) (g : G)
      → ((j : ℕ) → j < 32 → (is_up g j && bit mask j) ≡ false)
      → ((kernel.flags_get mask no_wait g).0 ≡ false)
        × ((j : ℕ) → j < 32 → is_up (kernel.flags_get mask no_wait g).1 j ≡ is_up g j)

pow_bound : (i : ℕ) → i < 32 → 2 ^ i < 2 ^ 32
pow_bound i h =
    let le : i ≤ 31 = omega arith in
    let below : 2 ^ i ≤ 2 ^ 31 = pow-le-pow_right {n = 2} (omega arith) le in omega arith

or_bit : (a b : Bool) → (a || b) ≡ (if b then true else a)
or_bit a true = ground arith
or_bit a false = ground arith

and_not_bit : (a b : Bool) → (a && not b) ≡ (if b then false else a)
and_not_bit a true = ground arith
and_not_bit a false = ground arith

-- The mask meets no flag that is up, where its own is down.
misses : (i j : ℕ) (up : ℕ → Bool) → up i ≡ false → (up j && (i == j)) ≡ false
misses i j up down = elim (Bool-cases (i == j)) [
  | inl same ↦ let e : i ≡ j = ground arith in rw (same, ← e, down) refl
  | inr other ↦ rw other (ground arith)
]

and_false : (a : Bool) → (a && false) ≡ false
and_false a = ground arith

and_true : (a : Bool) → (a && true) ≡ a
and_true a = ground arith

abbrev pub any : ℕ → (ℕ → Bool) → Bool
any zero p = false
any (suc n) p = p n || any n p

pub any-false : (n : ℕ) (p : ℕ → Bool) → ((j : ℕ) → j < n → p j ≡ false) → any n p ≡ false
any-false zero p h = refl
any-false (suc n) p h = rw (h n (omega arith), any-false n p (λ j g. h j (omega arith))) refl

any-only :
    (n j : ℕ) (p : ℕ → Bool)
    → j < n
    → ((k : ℕ) → k < n → (j == k) ≡ false → p k ≡ false)
    → any n p ≡ p j
any-only zero j p h others = absurd (omega arith)
any-only (suc n) j p h others = elim (Bool-cases (j == n)) [
  | inl last ↦
      let same : j ≡ n = ground arith in
      let below : any n p ≡ false =
        any-false n p
          (λ k hk. others k (omega arith) (let apart : (j == k) ≡ false = ground arith in apart)) in
      rw (below, same) (ground arith)
  | inr before ↦
      rw (others n (omega arith) before)
        (any-only n j p (ground arith) (λ k hk apart. others k (omega arith) apart))
]

-- The counter of the bits behind `n` calls of `event_create`, and what the next call answers.
abbrev pub next_bit : ℕ → ℕ
next_bit zero = 0
next_bit (suc n) = (event_create (next_bit n)).1

abbrev pub created : ℕ → Option ℕ
created n = (event_create (next_bit n)).0

fresh : (n : ℕ) → n < 32 → event_create n ≡ (some (2 ^ n), suc n)
unfolding event_create
fresh n h = let free : leb 32 n ≡ false = ground arith in rw free refl

next_bit_lem : (n : ℕ) → n ≤ 32 → next_bit n ≡ n
next_bit_lem zero h = refl
next_bit_lem (suc n) h =
    ap (λ k. (event_create k).1) (next_bit_lem n (omega arith))
    ∙ ap (λ (r : Option ℕ × ℕ). r.1) (fresh n (omega arith))

created_lem : (n : ℕ) → n < 32 → created n ≡ some (2 ^ n)
created_lem n h =
    ap (λ k. (event_create k).0) (next_bit_lem n (omega arith))
    ∙ ap (λ (r : Option ℕ × ℕ). r.0) (fresh n h)

module _ {G : Type 0} (kernel : ThreadxFlags G) (is_up : G → ℕ → Bool)
    (laws : FlagLaws kernel is_up) where
  set_raises :
      (i j : ℕ) (g : G)
      → j < 32
      → is_up (event_set kernel (2 ^ i) g) j ≡ (if i == j then true else is_up g j)
  unfolding event_set
  set_raises i j g hj =
      laws.ors (2 ^ i) j g hj ∙ ap (λ b. is_up g j || b) (bit_pow i j) ∙ or_bit (is_up g j) (i == j)

  reset_lowers :
      (i j : ℕ) (g : G)
      → i < 32
      → j < 32
      → is_up (event_reset kernel (2 ^ i) g) j ≡ (if i == j then false else is_up g j)
  unfolding event_reset
  reset_lowers i j g hi hj =
      laws.ands (complement (2 ^ i)) j g hj
      ∙ ap (λ b. is_up g j && b)
          (bit-complement j (2 ^ i) hj (pow_bound i hi) ∙ ap not (bit_pow i j))
      ∙ and_not_bit (is_up g j) (i == j)

  -- Whether a flag of the mask is up.
  abbrev pub raised : G → ℕ → Bool
  raised g mask = any 32 (λ k. is_up g k && bit mask k)

  raised-pow : (j : ℕ) (g : G) → j < 32 → raised g (2 ^ j) ≡ is_up g j
  raised-pow j g h =
      any-only 32 j (λ k. is_up g k && bit (2 ^ j) k) h
        (λ k hk apart. ap (λ b. is_up g k && b) (bit_pow j k ∙ apart) ∙ and_false (is_up g k))
      ∙ ap (λ b. is_up g j && b) (bit_pow j j ∙ ==-refl j)
      ∙ and_true (is_up g j)

  -- What an operation makes of the flag of every event, as a function of the bit.
  abbrev OnFlags : G → (ℕ → Bool) → Type 0
  OnFlags g flags = (j : ℕ) → j < 32 → is_up g j ≡ flags j

  event_wait-up :
      (i timeout : ℕ) (g : G)
      → i < 32
      → is_up g i ≡ true
      → ((event_wait kernel (2 ^ i) timeout g).0 ≡ true)
        × OnFlags (event_wait kernel (2 ^ i) timeout g).1 (λ j. if i == j then false else is_up g j)
  unfolding event_wait
  event_wait-up i timeout g hi up =
      let (got, rest) =
        laws.takes (2 ^ i) i (ms_to_ticks timeout) g hi (bit_pow i i ∙ ==-refl i) up in
      (
        got,
        λ j hj.
            rest j hj
            ∙ ap (λ b. is_up g j && not b) (bit_pow i j)
            ∙ and_not_bit (is_up g j) (i == j),
      )

  event_wait-down :
      (i : ℕ) (g : G)
      → is_up g i ≡ false
      → ((event_wait kernel (2 ^ i) 0 g).0 ≡ false)
        × OnFlags (event_wait kernel (2 ^ i) 0 g).1 (is_up g)
  unfolding event_wait ms_to_ticks
  event_wait-down i g down =
      laws.polls (2 ^ i) g
        (λ k hk. ap (λ b. is_up g k && b) (bit_pow i k) ∙ misses i k (is_up g) down)

  -- The `i`th and the `j`th event that `event_create` hands out from the start on are there, for the
  -- first 32, and each is a flag of its own: setting an event raises its flag and resetting it lowers
  -- it, and a wait for it succeeds at once where it is up, for any timeout, and lowers it, while a poll
  -- fails and changes nothing where it is down; and none of these changes the flag of another event.
  pub events_are_flags :
      (i j timeout : ℕ) (g : G)
      → i < 32
      → j < 32
      → (e : ℕ) × (f : ℕ) × (created i ≡ some e)
        × (created j ≡ some f)
        × (raised (event_set kernel e g) f ≡ (if i == j then true else raised g f))
        × (raised (event_reset kernel e g) f ≡ (if i == j then false else raised g f))
        × (raised g e ≡ true
            → ((event_wait kernel e timeout g).0 ≡ true)
              × (raised (event_wait kernel e timeout g).1 f
                  ≡ (if i == j then false else raised g f)))
        × (raised g e ≡ false
            → ((event_wait kernel e 0 g).0 ≡ false)
              × (raised (event_wait kernel e 0 g).1 f ≡ raised g f))
  events_are_flags i j timeout g hi hj =
      let of = λ (x : G). raised-pow j x hj in
      let here = raised-pow i g hi in
      (
        2 ^ i,
        2 ^ j,
        created_lem i hi,
        created_lem j hj,
        of (event_set kernel (2 ^ i) g) ∙ rw (of g) (set_raises i j g hj),
        of (event_reset kernel (2 ^ i) g) ∙ rw (of g) (reset_lowers i j g hi hj),
        λ up.
            let (got, rest) = event_wait-up i timeout g hi (sym here ∙ up) in
            (got, of (event_wait kernel (2 ^ i) timeout g).1 ∙ rw (of g) (rest j hj)),
        λ down.
            let (late, rest) = event_wait-down i g (sym here ∙ down) in
            (late, of (event_wait kernel (2 ^ i) 0 g).1 ∙ rw (of g) (rest j hj)),
      )
