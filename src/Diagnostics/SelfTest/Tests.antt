-- ===== src/Diagnostics/SelfTest/Tests.antt =====
-- The self-test over a small pool, whose state is the number of free slots and the claims that are held.
use stm32f407vgt.Base.{
  ℕ, zero, suc, ◌+◌, ◌<◌, ◌≤◌, ◌↔◌, ◌≡◌, refl, Bool, true, false, Option, none, some, List, [], ◌∷◌,
  ◌++◌, arith, add32, sub32,
}
use stm32f407vgt.Base.Programs.{World, run}
use stm32f407vgt.Diagnostics.SelfTest.{
  Claim, err_timeout, Waited, Cancelled, Target, Op, Ans, create, event_create, cancel_unset, time,
  pal_time, resolved_at, receive, event_wait, wait_for, cancel, is_active, send, should_stop,
  report_line,
}
use stm32f407vgt.Diagnostics.SelfTest.Checks.{
  check_cancel_and_leaks, timed_out_well, cancel_first, claim_and_report, claim_all, cancel_all,
}
use stm32f407vgt.Diagnostics.SelfTest.Leaks.{CountsSlots, leak_report, check_cancel_and_leaks_lem}
use stm32f407vgt.Diagnostics.SelfTest.Verdicts.{timed_out_well_lem}

record Pool : Type 0 where
  free : ℕ
  held : List Claim
  passes : List Bool

abbrev slot : ℕ → Claim
slot n = record { slot_id = n; generation = 1 }

abbrev take_slot : ℕ → Pool → Option Claim × Pool
take_slot zero s = (none, s)
take_slot (suc n) s = (some (slot n), record s { free = n; held = s.held ++ (slot n ∷ []) })

abbrev give_back : List Claim → Pool → Pool
give_back [] s = s
give_back (c ∷ cs) s = record s { free = s.free + 1; held = cs }

abbrev all_done : Cancelled
all_done = record { success = true; promise_cleared = true; future_cleared = true }

-- A cancel is of the oldest claim.
abbrev slots : World Op Ans Pool
slots create s = take_slot s.free s
slots (cancel c) s = (all_done, give_back s.held s)
slots cancel_unset s = (all_done, s)
slots time s = (7, s)
slots pal_time s = (7, s)
slots resolved_at s = (7, s)
slots event_create s = (none, s)
slots (event_wait e timeout) s = (false, s)
slots (receive timeout) s = (none, s)
slots (wait_for c timeout v status) s =
    (record { completed = false; status = err_timeout; value = 0 }, s)
slots (is_active c) s = (true, s)
slots (send r timeout) s = (false, s)
slots (should_stop name) s = (true, s)
slots (report_line test passed detail a b) s = (tt, record s { passes = passed ∷ s.passes })
slots op s = (tt, s)

counted :
    (n : ℕ) (s : Pool)
    → s.free ≡ n
    → 0 < n
    → (c : Claim) × ((take_slot s.free s).0 ≡ some c)
      × ((take_slot s.free s).1.free + 1 ≡ s.free)
      × ((take_slot s.free s).1.held ≡ s.held ++ (c ∷ []))
counted zero s e h = absurd (omega arith)
counted (suc n) s e h = (slot n, rw e refl, rw e (omega arith), rw e refl)

empty : (s : Pool) → s.free ≡ 0 → take_slot s.free s ≡ (none, s)
empty s e = rw e refl

slots_counted : CountsSlots slots (λ s. s.free) (λ s. s.held)
slots_counted = record {
  creates = λ s h. counted s.free s refl h;
  exhausted = λ s e. rw (empty s e) (refl, e, refl);
  cancels = λ s c later e. (refl, rw e refl, rw e refl);
}

abbrev full : Pool
full = record { free = 2; held = []; passes = [] }

abbrev leaked : Pool
leaked = record { free = 1; held = []; passes = [] }

passes_when_full : (run slots check_cancel_and_leaks full).1.passes ≡ true ∷ []
unfolding check_cancel_and_leaks cancel_first claim_and_report claim_all cancel_all
passes_when_full = refl

fails_when_leaked : (run slots check_cancel_and_leaks leaked).1.passes ≡ false ∷ []
unfolding check_cancel_and_leaks cancel_first claim_and_report claim_all cancel_all
fails_when_leaked = refl

check_cancel_and_leaks_lem_example :
    (s1 : Pool) × ((run slots check_cancel_and_leaks leaked ≡ run slots (leak_report 1) s1)
      × ((s1.free ≡ 1) × (s1.held ≡ [])))
check_cancel_and_leaks_lem_example =
    check_cancel_and_leaks_lem slots (λ s. s.free) (λ s. s.held) slots_counted leaked refl

abbrev board : Target
board = record { raises_irq = true; has_events = true; destroys_events = true }

abbrev late : Waited
late = record { completed = false; status = err_timeout; value = 0 }

timed_out_well_lem_case :
    timed_out_well 200 late (sub32 (add32 4294967290 210) 4294967290) ≡ true
    ↔ ((◌≡◌ {A = Bool} false false) × (◌≡◌ {A = Bool} true true) × (200 ≤ 210) × (210 ≤ 250))
timed_out_well_lem_case =
    timed_out_well_lem 200 4294967290 210 late (omega arith) (omega arith) (omega arith)
