-- ===== src/Osal/EventPool.antt =====
-- targets/freertos/osal/src/cfuture_sync_ops.c: the pool of events for the promise library. An event
-- handle is the index of its slot, and NULL is `none`. A FreeRTOS binary semaphore is the flag whether
-- it is given; no handle is `none`.
pub mod Handles
mod Tests
use stm32f407vgt.Base.{
  ℕ, zero, suc, Bool, true, false, not, ◌||◌, Option, none, some, List, [], ◌∷◌, get_elem?, set,
  replicate, if◌then◌else◌,
}

abbrev pub event_pool_size : ℕ
event_pool_size = 16

pub record Event : Type 0 where
  pub handle : Option Bool
  pub in_use : Bool

abbrev pub Pool : Type 0
Pool = List Event

-- `ensure_pool_initialized`.
abbrev pub fresh_pool : Pool
fresh_pool = replicate event_pool_size (record { handle = none; in_use = false })

-- The index of the first slot that is not in use.
unfoldable pub first_unused : Pool → Option ℕ
first_unused [] = none
first_unused (e ∷ es) =
    let rest = first_unused es in
    if not e.in_use then some 0 else elim rest [ none ↦ none | some i ↦ some (suc i) ]

-- Changes the event at slot `i`.
unfoldable pub modify : ℕ → (Event → Event) → Pool → Pool
modify i f [] = []
modify zero f (e ∷ es) = f e ∷ es
modify (suc i) f (e ∷ es) = e ∷ modify i f es

abbrev pub taken : Event → Event
taken e = record e { in_use = true }

abbrev pub released : Event → Event
released e = record e { in_use = false }

abbrev pub with_semaphore : Event → Event
with_semaphore e = record e { handle = some false }

abbrev pub without_semaphore : Event → Event
without_semaphore e = record e { handle = none }

unfoldable pub claim_slot : Pool → Option ℕ × Pool
claim_slot p = elim (first_unused p) [ none ↦ (none, p) | some i ↦ (some i, modify i taken p) ]

abbrev pub release_slot : ℕ → Pool → Pool
release_slot i p = modify i released p

-- Behind the claim; `created` tells whether xSemaphoreCreateBinaryStatic succeeds.
abbrev pub finish_create : Bool → Option ℕ × Pool → Option ℕ × Pool
finish_create created (none, p) = (none, p)
finish_create created (some i, p) =
    if not created
    then (none, release_slot i (modify i without_semaphore p))
    else (some i, modify i with_semaphore p)

unfoldable pub event_create : Bool → Pool → Option ℕ × Pool
event_create created p = finish_create created (claim_slot p)

unfoldable pub event_destroy : Option ℕ → Pool → Pool
event_destroy none p = p
event_destroy (some i) p = release_slot i (modify i without_semaphore p)

abbrev pub given : Option Bool → Option Bool
given none = none
given (some b) = some true

abbrev pub drained : Option Bool → Option Bool
drained none = none
drained (some b) = some false

-- `event_set`, and `event_set_from_isr`.
unfoldable pub event_set : Option ℕ → Pool → Pool
event_set none p = p
event_set (some i) p = modify i (λ e. record e { handle = given e.handle }) p

unfoldable pub event_reset : Option ℕ → Pool → Pool
event_reset none p = p
event_reset (some i) p = modify i (λ e. record e { handle = drained e.handle }) p

abbrev pub is_given : Option Event → Bool
is_given none = false
is_given (some e) = elim e.handle [ none ↦ false | some b ↦ b ]

-- `arrives` tells whether another task gives the semaphore before the timeout.
unfoldable pub event_wait : Option ℕ → Bool → Pool → Bool × Pool
event_wait none arrives p = (false, p)
event_wait (some i) arrives p =
    (is_given (get_elem? p i) || arrives, modify i (λ e. record e { handle = drained e.handle }) p)
