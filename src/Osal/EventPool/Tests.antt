-- ===== src/Osal/EventPool/Tests.antt =====
-- The event pool at concrete inputs: two slots, of which the first is in use.
use stm32f407vgt.Base.{◌≡◌, ◌≢◌, ℕ, refl, true, false, none, some, [], ◌∷◌, get_elem?, length}
use stm32f407vgt.Osal.EventPool.{Event, Pool, event_create, event_set, event_reset, event_wait}
use stm32f407vgt.Osal.EventPool.Handles.{used, is_unused, event_create_lem, event_wait-event_reset}

abbrev busy : Event
busy = record { handle = some true; in_use = true }

abbrev ready : Event
ready = record { handle = some false; in_use = true }

abbrev before : Pool
before = busy ∷ record { handle = none; in_use = false } ∷ []

event_create_lem_case :
    ((event_create true before).0 ≡ none → used before ≡ length before)
    × (event_create true before ≡ (some 1, busy ∷ ready ∷ [])
        → (is_unused (get_elem? before 1) ≡ true)
          × (get_elem? (busy ∷ ready ∷ []) 1 ≡ some (record { handle = some false; in_use = true }))
          × ((j : ℕ) → 1 ≢ j → get_elem? (busy ∷ ready ∷ []) j ≡ get_elem? before j))
event_create_lem_case = event_create_lem before (busy ∷ ready ∷ []) 1

event_wait-event_reset_case :
    ((event_wait (some 0) false (event_reset (some 0) (event_set (some 0) before))).0 ≡ false)
    × ((event_wait (some 0) false (event_set (some 0) before)).0 ≡ true)
event_wait-event_reset_case = event_wait-event_reset before 0 true false refl
