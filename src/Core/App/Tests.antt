-- ===== src/Core/App/Tests.antt =====
-- The start of the application on a target with every thread.
use stm32f407vgt.Base.{ℕ, ◌≡◌, refl, Bool, true, some, []}
use stm32f407vgt.Diagnostics.TaskTrace.Lookup.{lookup}
use stm32f407vgt.Core.Threads.{OsalTaskConfig, add, start_all, given, high}
use stm32f407vgt.Core.Threads.Started.{has}
use stm32f407vgt.Core.App.{
  AppDependencies, Answers, storage_demo_register, cfuture_selftest_register, register_all, app_run,
}
use stm32f407vgt.Core.App.Complete.{threads, register_all_lem, app_run-supervises}

abbrev board : AppDependencies
board = record {
  usb_host_process = record { entry = some 100; stack_bytes = 4096 };
  watchdog = record { entry = some 200; stack_bytes = 2048 };
}

abbrev answers : Answers
answers = record {
  storage_queue_created = true;
  storage_pool_init = true;
  selftest_queue_created = true;
  selftest_pool_init = true;
}

abbrev every : ℕ → Bool
every i = true

abbrev clock : ℕ → ℕ
clock i = 3

abbrev watchdog_thread : OsalTaskConfig
watchdog_thread = record {
  name = "Watchdog";
  entry = given 200;
  stack_size_bytes = 2048;
  priority = high;
}

starts : (app_run board answers every clock []).0 ≡ true
unfolding app_run register_all storage_demo_register cfuture_selftest_register add start_all
starts = refl

register_all_lem_example :
    ((register_all board answers).0 ≡ true)
    × (true ≡ true → (register_all board answers).1 ≡ threads board)
register_all_lem_example = register_all_lem board answers

app_run-supervises_example :
    (every 2 ≡ true) × (has (lookup "Watchdog" (app_run board answers every clock []).1) ≡ true)
app_run-supervises_example =
    app_run-supervises board answers every clock 2 watchdog_thread starts refl
