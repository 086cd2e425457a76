-- ===== src/Osal/Fifo.antt =====
-- The contract of the queue of app/include/osal/osal.h: a first-in first-out list of at most
-- `capacity` items, copied in and out by value.
use stm32f407vgt.Base.{
  ℕ, Bool, true, false, Option, none, some, List, [], ◌∷◌, ◌++◌, length, ltb, if◌then◌else◌,
}

-- What a task does to the queue while it holds the lock: an item is put in if there is room, and
-- the oldest one taken out if there is one.
pub data Access {ℓ} (A : Type ℓ) : Type ℓ where
  put : A → Access A
  get : Access A

module _ {ℓ} {A : Type ℓ} where
  unfoldable pub send : ℕ → List A → A → Bool × List A
  send capacity q x = if ltb (length q) capacity then (true, q ++ (x ∷ [])) else (false, q)

  unfoldable pub receive : List A → Option A × List A
  receive [] = (none, [])
  receive (x ∷ q) = (some x, q)

  unfoldable pub access : ℕ → List A → Access A → Option A × List A
  unfolding send receive
  access capacity q (put x) = (none, (send capacity q x).1)
  access capacity q get = receive q

  unfoldable pub run : ℕ → List A → List (Access A) → List A
  run capacity q [] = q
  run capacity q (o ∷ os) = run capacity (access capacity q o).1 os
