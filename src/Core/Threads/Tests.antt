-- ===== src/Core/Threads/Tests.antt =====
-- The start of two threads, of which the OS cannot create the first.
use stm32f407vgt.Base.{ℕ, zero, suc, ◌≡◌, refl, Bool, true, false, [], ◌∷◌, arith}
use stm32f407vgt.Diagnostics.TaskTrace.Lookup.{lookup}
use stm32f407vgt.Core.Threads.{OsalTaskConfig, start_all, given, low, normal}
use stm32f407vgt.Core.Threads.Started.{has, start_all-has}

abbrev blinky : OsalTaskConfig
blinky = record { name = "Blinky"; entry = given 1; stack_size_bytes = 2048; priority = normal }

abbrev logger : OsalTaskConfig
logger = record { name = "Logger"; entry = given 2; stack_size_bytes = 1024; priority = low }

abbrev second_only : ℕ → Bool
second_only zero = false
second_only (suc i) = true

abbrev clock : ℕ → ℕ
clock i = i

start_all-has_case :
    has (lookup "Logger" (start_all second_only clock 0 (blinky ∷ logger ∷ []) []).1) ≡ true
start_all-has_case =
    start_all-has second_only clock 0 1 (blinky ∷ logger ∷ []) [] logger (omega arith) refl refl
