-- ===== src/Core/App.antt =====
-- app/src/core/app.c with the registrations of app/src/storage/storage_demo.c and
-- app/src/diagnostics/cfuture_selftest.c: the start of the application. What the OS and the promise
-- library answer to the creation of a queue and of a pool is a record.
pub mod Complete
mod Tests
use Prim.Native.String.{String}
use stm32f407vgt.Base.{
  ℕ, ◌*◌, Bool, true, false, not, ◌&&◌, Option, none, some, List, [], ◌∷◌, ◌++◌, if◌then◌else◌,
}
use stm32f407vgt.Diagnostics.TaskTrace.{Table}
use stm32f407vgt.Core.Threads.{
  OsalTaskPriority, Entry, OsalTaskConfig, Registry, init, add, start_all, low, normal, high,
  blinky_task_entry, storage_service_task_entry, client_task_happy_path_entry,
  client_task_queue_timeout_entry, client_task_late_completion_entry,
  client_task_aba_isolation_entry, producer_task_entry, waiter_task_entry, given,
}

pub data Line : Type 0 where
  event error : String → Line

-- A task of AppDependencies: its entry point, none for NULL, and its stack.
pub record GivenTask : Type 0 where
  pub entry : Option ℕ
  pub stack_bytes : ℕ

pub record AppDependencies : Type 0 where
  pub usb_host_process : GivenTask
  pub watchdog : GivenTask

pub record Answers : Type 0 where
  pub storage_queue_created : Bool
  pub storage_pool_init : Bool
  pub selftest_queue_created : Bool
  pub selftest_pool_init : Bool

-- `return registered` with the registry, and the lines that were logged.
abbrev pub Outcome : Type 0
Outcome = Bool × Registry × List Line

abbrev pub register_task : Registry → String → Entry → ℕ → OsalTaskPriority → Bool × Registry
register_task registry name entry stack priority =
    add registry
      (record { name = name; entry = entry; stack_size_bytes = stack; priority = priority })

abbrev pub register_blinky : Registry → Bool × Registry
register_blinky registry = register_task registry "Blinky" blinky_task_entry (128 * 4 * 4) normal

abbrev pub register_given : Registry → String → GivenTask → Bool × Registry
register_given registry name task = elim task.entry [
  | none ↦ (true, registry)
  | some entry ↦ register_task registry name (given entry) task.stack_bytes high
]

-- Each further call is made even if one before it failed.
abbrev pub and_then : Bool × Registry → (Registry → Bool × Registry) → Bool × Registry
and_then (ok, registry) call = let (ok', registry') = call registry in (ok' && ok, registry')

abbrev pub register_client : String → Entry → Registry → Bool × Registry
register_client name entry registry = register_task registry name entry 6144 normal

abbrev pub register_storage_tasks : Registry → Bool × Registry
register_storage_tasks registry =
    and_then
      (and_then
        (and_then
          (and_then (register_task registry "StorageSvc" storage_service_task_entry 8192 high)
            (register_client "StorageDemoHappy" client_task_happy_path_entry))
          (register_client "StorageDemoQTimeout" client_task_queue_timeout_entry))
        (register_client "StorageDemoLateDone" client_task_late_completion_entry))
      (register_client "StorageDemoAbaIso" client_task_aba_isolation_entry)

unfoldable pub storage_demo_register : Answers → Registry → Outcome
storage_demo_register answers registry =
    let (registered, registry1) = register_storage_tasks registry in
    if not answers.storage_queue_created
    then (false, registry, error "storageDemo: queue create failed" ∷ [])
    else if not answers.storage_pool_init
    then (false, registry, error "storageDemo: promise pool init failed" ∷ [])
    else if not registered
    then (false, registry1, error "storageDemo: task registration failed" ∷ [])
    else (true, registry1, event "storageDemo: registered" ∷ [])

unfoldable pub cfuture_selftest_register : Answers → Registry → Outcome
cfuture_selftest_register answers registry =
    let (registered, registry1) =
      and_then (register_task registry "CfstProducer" producer_task_entry 3072 high)
        (λ r. register_task r "CfstWaiter" waiter_task_entry 3072 normal) in
    if not answers.selftest_queue_created
    then (false, registry, error "cfst: queue create failed" ∷ [])
    else if not answers.selftest_pool_init
    then (false, registry, error "cfst: pool init failed" ∷ [])
    else (registered, registry1, [])

abbrev pub register_first : AppDependencies → Bool × Registry
register_first deps =
    and_then
      (and_then (register_blinky init)
        (λ r. register_given r "UsbHostProcess" deps.usb_host_process))
      (λ r. register_given r "Watchdog" deps.watchdog)

-- The registrations of `appRun`, in order.
unfoldable pub register_all : AppDependencies → Answers → Outcome
register_all deps answers =
    let (ok1, registry1) = register_first deps in
    let (ok2, registry2, lines2) = storage_demo_register answers registry1 in
    let (ok3, registry3, lines3) = cfuture_selftest_register answers registry2 in
    (ok3 && (ok2 && ok1), registry3, lines2 ++ lines3)

-- The result, the task table, and the lines.
unfoldable pub app_run :
    AppDependencies → Answers → (ℕ → Bool) → (ℕ → ℕ) → Table → Bool × Table × List Line
app_run deps answers created clock ts =
    let (registered, registry, lines) = register_all deps answers in
    let (started, ts1) = start_all created clock 0 registry ts in
    let begun = event "System start" ∷ lines in
    if not registered
    then (false, ts, begun ++ (error "appRun: thread registration failed" ∷ []))
    else if not started
    then (false, ts1, begun ++ (error "appRun: thread start failed" ∷ []))
    else (true, ts1, begun)
