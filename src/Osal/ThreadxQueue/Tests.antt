-- ===== src/Osal/ThreadxQueue/Tests.antt =====
-- A queue of one slot through a send and a receive.
use stm32f407vgt.Base.{
  ◌⊎◌, none, some, false, ◌≡◌, ℕ, ◌+◌, ◌*◌, ◌^◌, ◌-◌, ◌≤◌, ◌<◌, refl, true, List, [], ◌∷◌, ◌++◌,
  get_elem?, arith,
}
use stm32f407vgt.Osal.ThreadxQueue.{
  OsalQueueImpl, claimed, stored, System, Step, claims, stores, posts, takes, copies, releases,
  release, claim, post, take_slot, ms_to_ticks, ticks, prefilled,
}
use stm32f407vgt.Osal.ThreadxQueue.Create.{Answers, max_osal_queues, create, held, create_lem}
use stm32f407vgt.Osal.ThreadxQueue.Interleaved.{IsValid, contents, system}
use stm32f407vgt.Osal.ThreadxQueue.Runs.{
  event, Follows, step_refines, post_never_fails, Run, stop, go, all_sent, all_received, fresh,
  first_in_first_out,
}
use stm32f407vgt.Osal.ThreadxQueue.Held.{receiver_keeps, tick_count, ms_to_ticks_lem}

abbrev queue : List ℕ → List ℕ → ℕ → OsalQueueImpl ℕ
queue free filled item = record {
  filled = filled;
  free = free;
  storage = item ∷ [];
  item_count = 1;
}

abbrev start : System ℕ
start = system (queue (0 ∷ []) [] 5) [] []

abbrev claiming : System ℕ
claiming = system (queue [] [] 5) (claimed 0 7 ∷ []) []

abbrev storing : System ℕ
storing = system (queue [] [] 7) (stored 0 7 ∷ []) []

abbrev posted : System ℕ
posted = system (queue [] (0 ∷ []) 7) [] []

abbrev taken : System ℕ
taken = system (queue [] [] 7) [] (0 ∷ [])

first : Step start claiming
unfolding claim
first = claims 7 refl

second : Step claiming storing
second = stores [] [] 0 7

posting : (post 0 (queue [] [] 7)).1 ≡ queue [] (0 ∷ []) 7
unfolding post
posting = refl

third : Step storing posted
unfolding post
third = posts {q = queue [] [] 7} [] [] 0 7

fourth : Step posted taken
unfolding take_slot
fourth = takes refl

abbrev sent : Run (fresh 1 (5 ∷ [])) posted
sent = go first (go second (go third stop))

first_in_first_out_example :
    IsValid posted × (all_sent sent ≡ all_received sent ++ contents posted.queue)
first_in_first_out_example = first_in_first_out 1 (5 ∷ []) sent refl

storing-IsValid : IsValid storing
storing-IsValid = (first_in_first_out 1 (5 ∷ []) (go first (go second stop)) refl).0

step_refines_case :
    IsValid posted × Follows (event third) (contents storing.queue) (contents posted.queue)
step_refines_case = step_refines third storing-IsValid

post_never_fails_case : (post 0 (queue [] [] 7)).0 ≡ true
post_never_fails_case = post_never_fails (queue [] [] 7) [] [] [] 0 7 storing-IsValid

taken-IsValid : IsValid taken
taken-IsValid =
    (first_in_first_out 1 (5 ∷ []) (go first (go second (go third (go fourth stop)))) refl).0

copying : Step taken taken
copying = copies [] [] 0 7 refl

abbrev released : System ℕ
released = system (queue (0 ∷ []) [] 7) [] []

fifth : Step taken released
unfolding release
fifth = releases {q = queue [] [] 7} {ss = []} [] [] 0

receiver_keeps_example : get_elem? released.queue.storage 0 ≡ get_elem? taken.queue.storage 0
receiver_keeps_example = receiver_keeps fifth 0 taken-IsValid (omega arith)

ms_to_ticks_lem_example :
    (ms_to_ticks 25 ≡ ticks (tick_count (ms_to_ticks 25)))
    × (25 ≤ 2 ^ 32 - 10
        → (25 ≤ 10 * tick_count (ms_to_ticks 25)) × (10 * tick_count (ms_to_ticks 25) < 25 + 10))
    × (2 ^ 32 - 10 < 25 → tick_count (ms_to_ticks 25) ≡ 1)
ms_to_ticks_lem_example = ms_to_ticks_lem 25 (omega arith) (omega arith)

abbrev no_free_buffer : Answers ℕ
no_free_buffer = record {
  storage = some (5 ∷ 5 ∷ []);
  filled_buffer = true;
  filled_queue = true;
  free_buffer = false;
  free_queue = true;
}

create_lem_case :
    (((create 2 532 true 1 no_free_buffer).0 ≡ none)
      × (held [] (create 2 532 true 1 no_free_buffer).1 ≡ []))
    ⊎ ((bytes : List ℕ) × (no_free_buffer.storage ≡ some bytes)
        × (1 < max_osal_queues)
        × ((create 2 532 true 1 no_free_buffer).0 ≡ some (prefilled 2 bytes, 2))
        × (held [] (create 2 532 true 1 no_free_buffer).1 ≡ 4 ∷ 3 ∷ 2 ∷ 1 ∷ 0 ∷ []))
create_lem_case = create_lem 2 532 1 true no_free_buffer
