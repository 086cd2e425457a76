-- ===== src/Osal/EventFlags/Resets.antt =====
-- What a wait on the Zephyr target does to events that have been set before it.
use stm32f407vgt.Base.{
  ℕ, ◌^◌, ◌<◌, ◌≡◌, refl, ap, ◌∙◌, Bool, true, false, ◌&&◌, ◌||◌, ==-refl, arith,
}
use stm32f407vgt.Osal.EventFlags.{bit}
use stm32f407vgt.Osal.EventFlags.Masks.{bit_pow}
use stm32f407vgt.Osal.EventFlags.Zephyr.{ZephyrEvents, no_wait, event_set, event_wait}

-- The documented behaviour of the event object, on the events that are tracked. A wait with `reset`
-- clears all of them before it waits, and a wait without patience meets only those that are tracked.
pub record EventLaws {G : Type 0} (kernel : ZephyrEvents G) (tracked : G → ℕ → Bool)
    (cleared : G → G) : Type 0 where
  pub posts :
      (mask j : ℕ) (g : G) → j < 32 → tracked (kernel.post mask g) j ≡ (tracked g j || bit mask j)
  pub clears_all : (g : G) (j : ℕ) → tracked (cleared g) j ≡ false
  pub resets_first :
      (mask : ℕ) (g : G)
      → kernel.wait mask true no_wait g ≡ kernel.wait mask false no_wait (cleared g)
  pub polls :
      (mask : ℕ) (g : G)
      → ((j : ℕ) → j < 32 → (tracked g j && bit mask j) ≡ false)
      → ((kernel.wait mask false no_wait g).0 ≡ 0)
        × ((j : ℕ) → j < 32 → tracked (kernel.wait mask false no_wait g).1 j ≡ tracked g j)

module _ {G : Type 0} (kernel : ZephyrEvents G) (tracked : G → ℕ → Bool) (cleared : G → G)
    (laws : EventLaws kernel tracked cleared) where
  -- On the Zephyr target a poll of an event that has just been set answers false, although its flag is
  -- up, and leaves the flag of every event down, also those of the other events.
  pub event_wait-event_set :
      (i j : ℕ) (g : G)
      → i < 32
      → j < 32
      → (tracked (event_set kernel (2 ^ i) g) i ≡ true)
        × ((event_wait kernel (2 ^ i) 0 (event_set kernel (2 ^ i) g)).0 ≡ false)
        × (tracked (event_wait kernel (2 ^ i) 0 (event_set kernel (2 ^ i) g)).1 j ≡ false)
  unfolding event_set event_wait
  event_wait-event_set i j g hi hj =
      let g1 = kernel.post (2 ^ i) g in
      let (none_met, rest) =
        laws.polls (2 ^ i) (cleared g1)
          (λ k hk. ap (λ b. b && bit (2 ^ i) k) (laws.clears_all g1 k)) in
      (
        laws.posts (2 ^ i) i g hi
            ∙ ap (λ b. tracked g i || b) (bit_pow i i ∙ ==-refl i)
            ∙ ground arith,
        rw (laws.resets_first (2 ^ i) g1, none_met) refl,
        rw (laws.resets_first (2 ^ i) g1) (rest j hj ∙ laws.clears_all g1 j),
      )
