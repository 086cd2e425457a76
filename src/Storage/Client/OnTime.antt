-- ===== src/Storage/Client/OnTime.antt =====
-- The four tasks check in often enough for the watchdog, and the wait for the media ends by itself.
use Prim.Native.String.{String}
use stm32f407vgt.Base.{
  ℕ, zero, suc, ◌+◌, ◌*◌, ◌≤◌, ◌≡◌, refl, inl, inr, Bool-cases, true, arith, ltb, lt→ltb, le→ltb,
}
use stm32f407vgt.Base.Programs.{Rules, Follows, each_bool}
use stm32f407vgt.Storage.Client.{Op, Ans, Client}
use stm32f407vgt.Storage.Client.Entry.{
  media_wait_ms, media_rounds, wait_from, wait_for_media, turns, entry, happy_path_entry,
  queue_timeout_entry, late_completion_entry, aba_isolation_entry,
}
use stm32f407vgt.Storage.Client.Timing.{most_ms, EndsBy, EndsBy-bind}
use stm32f407vgt.Storage.Client.Durations.{
  run_happy_path_scenario-EndsBy, run_queue_timeout_scenario-EndsBy,
  run_late_completion_scenario-EndsBy, run_aba_isolation_scenario-EndsBy,
}

wait_from-EndsBy :
    (fuel elapsed : ℕ) (name : String) (waited : ℕ)
    → waited ≤ 300
    → EndsBy (wait_from fuel elapsed name) waited 300
unfolding wait_from
wait_from-EndsBy zero elapsed name waited h = h
wait_from-EndsBy (suc fuel) elapsed name waited h = elim (Bool-cases (ltb elapsed media_wait_ms)) [
  | inr over ↦ rw (over, wait_from) h
  | inl more ↦
      rw (more, wait_from)
        (
          omega arith,
          each_bool _
              (
                omega arith,
                each_bool _
                    (
                      omega arith,
                      λ _. (omega arith, λ _. wait_from-EndsBy fuel _ name _ (omega arith)),
                    )
                    (omega arith),
              )
              (omega arith),
        )
]

turns-EndsBy :
    (fuel : ℕ) (name : String) (scenario : Client (Unit {0})) (waited : ℕ)
    → EndsBy scenario 0 22250
    → waited ≤ 3000
    → EndsBy (turns fuel name scenario) waited 3000
unfolding turns
turns-EndsBy zero name scenario waited s h = h
turns-EndsBy (suc fuel) name scenario waited s h = (
  omega arith,
  λ _. (
    omega arith,
    each_bool _
        (EndsBy-bind scenario _ 0 22250 3000 s (λ _ later le. (
          omega arith,
          λ _. (omega arith, λ _. turns-EndsBy fuel name scenario 3000 s (omega arith)),
        )))
        (omega arith, λ _. (omega arith, λ _. omega arith)),
  ),
)

entry-EndsBy :
    (fuel place : ℕ) (name : String) (scenario : Client (Unit {0}))
    → place ≤ 3
    → EndsBy scenario 0 22250
    → EndsBy (entry fuel place name scenario) 0 3000
unfolding entry wait_for_media
entry-EndsBy fuel place name scenario p s = (
  omega arith,
  λ _.
      EndsBy-bind (wait_from media_rounds 0 name) (λ _. turns fuel name scenario) (0 + place * 100)
        300 3000 (wait_from-EndsBy media_rounds 0 name (0 + place * 100) (omega arith))
        (λ _ later le. turns-EndsBy fuel name scenario later s (omega arith)),
)

-- From the start of any of the four tasks on, for any number of turns, whatever its calls answer and
-- even if each of them takes its whole timeout: no call ends later than the watchdog's 25 s after the
-- task's last check-in.
pub tasks_check_in :
    (fuel : ℕ)
    → EndsBy (happy_path_entry fuel) 0 3000
      × EndsBy (queue_timeout_entry fuel) 0 3000
      × EndsBy (late_completion_entry fuel) 0 3000
      × EndsBy (aba_isolation_entry fuel) 0 3000
unfolding happy_path_entry queue_timeout_entry late_completion_entry aba_isolation_entry
tasks_check_in fuel = (
  entry-EndsBy fuel 0 _ _ (omega arith) run_happy_path_scenario-EndsBy,
  entry-EndsBy fuel 1 _ _ (omega arith) (run_queue_timeout_scenario-EndsBy _),
  entry-EndsBy fuel 2 _ _ (omega arith) run_late_completion_scenario-EndsBy,
  entry-EndsBy fuel 3 _ _ (omega arith) (run_aba_isolation_scenario-EndsBy _),
)

-- All the time that a program blocks.
abbrev pub blocking : Rules Op Ans ℕ
blocking = record { allowed = λ op total. Unit {0}; after = λ op _ total. total + most_ms op }

wait_from-ends :
    (rounds elapsed total : ℕ) (name : String)
    → elapsed + rounds * 50 ≡ media_wait_ms
    → total ≡ elapsed
    → Follows blocking
        (wait_from (suc rounds) elapsed name)
        total
        (λ ended total. (ended ≡ true) × (total ≤ media_wait_ms))
unfolding wait_from
wait_from-ends zero elapsed total name h g =
    rw (le→ltb elapsed media_wait_ms (omega arith), wait_from) (refl, omega arith)
wait_from-ends (suc n) elapsed total name h g =
    rw (lt→ltb elapsed media_wait_ms (omega arith), wait_from)
      (
        tt,
        each_bool _
            (
              tt,
              each_bool _
                  (
                    tt,
                    λ _. (
                      tt,
                      λ _.
                          wait_from-ends n (elapsed + 50) (total + 0 + 0 + 0 + 50) name
                            (omega arith) (omega arith),
                    ),
                  )
                  (refl, omega arith),
            )
            (refl, omega arith),
      )

-- The wait for the media ends by itself, whatever the service and the task table answer: its loop does
-- not run out of its 201 rounds, and all that it sleeps is 10 s at most.
pub wait_for_media_ends :
    (name : String)
    → Follows blocking
        (wait_for_media name)
        0
        (λ ended total. (ended ≡ true) × (total ≤ media_wait_ms))
unfolding wait_for_media
wait_for_media_ends name = wait_from-ends 200 0 0 name refl refl
