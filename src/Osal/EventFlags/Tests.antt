-- ===== src/Osal/EventFlags/Tests.antt =====
-- Two groups of flags, each a function from the bits.
use stm32f407vgt.Base.{
  ℕ, zero, suc, ◌^◌, ◌<◌, ◌≡◌, refl, inl, inr, Bool, true, false, not, ◌&&◌, ◌||◌, ◌==◌, Bool-cases,
  none, some, if◌then◌else◌, arith,
}
use stm32f407vgt.Osal.EventFlags.{bit, event_create}
use stm32f407vgt.Osal.EventFlags.Threadx.{ThreadxFlags, event_set, event_wait, event_reset}
use stm32f407vgt.Osal.EventFlags.Zephyr
use stm32f407vgt.Osal.EventFlags.Zephyr.{ZephyrEvents, Timeout}
use stm32f407vgt.Osal.EventFlags.Independent.{any, any-false, created, FlagLaws, events_are_flags}
use stm32f407vgt.Osal.EventFlags.Resets.{EventLaws, event_wait-event_set}

abbrev Flags : Type 0
Flags = ℕ → Bool

any-true : (n i : ℕ) (p : Flags) → i < n → p i ≡ true → any n p ≡ true
any-true zero i p h e = absurd (omega arith)
any-true (suc n) i p h e = elim (Bool-cases (i == n)) [
  | inl last ↦ let same : i ≡ n = ground arith in rw (← same, e) refl
  | inr before ↦ rw (any-true n i p (ground arith) e) (ground arith)
]

abbrev got : Bool → ℕ → Flags → Bool × Flags
got found mask g = if found then (true, λ j. g j && not (bit mask j)) else (false, g)

abbrev group : ThreadxFlags Flags
group = record {
  flags_create = λ g. (true, g);
  flags_set_or = λ mask g j. g j || bit mask j;
  flags_set_and = λ mask g j. g j && bit mask j;
  flags_get = λ mask ticks g. got (any 32 (λ j. g j && bit mask j)) mask g;
}

group_laws : FlagLaws group (λ g j. g j)
group_laws = record {
  ors = λ mask j g h. refl;
  ands = λ mask j g h. refl;
  takes = λ mask i ticks g h has up.
      let found = any-true 32 i (λ j. g j && bit mask j) h (rw (up, has) refl) in
      (rw found refl, λ j hj. rw found refl);
  polls = λ mask g misses.
      let found = any-false 32 (λ j. g j && bit mask j) misses in
      (rw found refl, λ j hj. rw found refl);
}

abbrev started : Bool → Flags → Flags
started reset g = if reset then (λ j. false) else g

abbrev object : ZephyrEvents Flags
object = record {
  init = λ g j. false;
  post = λ mask g j. g j || bit mask j;
  clear = λ mask g j. g j && not (bit mask j);
  wait = λ mask reset timeout g.
      (if any 32 (λ j. started reset g j && bit mask j) then 1 else 0, started reset g);
}

object_laws : EventLaws object (λ g j. g j) (λ g j. false)
object_laws = record {
  posts = λ mask j g h. refl;
  clears_all = λ g j. refl;
  resets_first = λ mask g. refl;
  polls = λ mask g misses.
      let found = any-false 32 (λ j. g j && bit mask j) misses in (rw found refl, λ j hj. refl);
}

-- Only the event 3 is up.
abbrev third : Flags
third j = j == 3

abbrev up : Flags → ℕ → Bool
up g mask = any 32 (λ k. g k && bit mask k)

events_are_flags_example :
    (e : ℕ) × (f : ℕ) × (created 3 ≡ some e)
    × (created 4 ≡ some f)
    × (up (event_set group e third) f ≡ up third f)
    × (up (event_reset group e third) f ≡ up third f)
    × (up third e ≡ true
        → ((event_wait group e 500 third).0 ≡ true)
          × (up (event_wait group e 500 third).1 f ≡ up third f))
    × (up third e ≡ false
        → ((event_wait group e 0 third).0 ≡ false)
          × (up (event_wait group e 0 third).1 f ≡ up third f))
events_are_flags_example =
    events_are_flags group (λ g j. g j) group_laws 3 4 500 third (omega arith) (omega arith)

event_wait-event_set_example :
    (Zephyr.event_set object (2 ^ 3) third 3 ≡ true)
    × ((Zephyr.event_wait object (2 ^ 3) 0 (Zephyr.event_set object (2 ^ 3) third)).0 ≡ false)
    × ((Zephyr.event_wait object (2 ^ 3) 0 (Zephyr.event_set object (2 ^ 3) third)).1 5 ≡ false)
event_wait-event_set_example =
    event_wait-event_set object (λ g j. g j) (λ g j. false) object_laws 3 5 third (omega arith)
      (omega arith)

thirty_two : event_create 32 ≡ (none, 32)
unfolding event_create
thirty_two = refl
