-- ===== src/Core/App/Complete.antt =====
-- The start of the application registers every thread, and each that starts is supervised.
use Prim.Native.String.{String}
use stm32f407vgt.Base.{
  ℕ, zero, suc, ◌+◌, ◌≤◌, ◌<◌, ◌≡◌, refl, sym, ap, ◌∙◌, inl, inr, Bool, true, false, ◌&&◌, Option,
  none, some, [], ◌∷◌, ◌++◌, length, get_elem?, arith, Bool-cases,
}
use stm32f407vgt.Diagnostics.TaskTrace.{Table}
use stm32f407vgt.Diagnostics.TaskTrace.Lookup.{lookup}
use stm32f407vgt.Core.Threads.{
  OsalTaskPriority, Entry, OsalTaskConfig, Registry, add, start_all, normal, high,
  blinky_task_entry, storage_service_task_entry, client_task_happy_path_entry,
  client_task_queue_timeout_entry, client_task_late_completion_entry,
  client_task_aba_isolation_entry, producer_task_entry, waiter_task_entry, given,
}
use stm32f407vgt.Core.Threads.Started.{has, start_all-has, start_all-all}
use stm32f407vgt.Core.App.{
  event, GivenTask, AppDependencies, Answers, storage_demo_register, cfuture_selftest_register,
  register_first, register_all, app_run,
}

abbrev thread : String → Entry → ℕ → OsalTaskPriority → OsalTaskConfig
thread name entry stack priority = record {
  name = name;
  entry = entry;
  stack_size_bytes = stack;
  priority = priority;
}

abbrev given_threads : String → GivenTask → Registry
given_threads name task = elim task.entry [
  | none ↦ []
  | some entry ↦ thread name (given entry) task.stack_bytes high ∷ []
]

-- The threads of the application on a target with these dependencies, in order.
abbrev pub threads : AppDependencies → Registry
threads deps =
    (thread "Blinky" blinky_task_entry 2048 normal ∷ [])
    ++ (given_threads "UsbHostProcess" deps.usb_host_process
        ++ (given_threads "Watchdog" deps.watchdog
            ++ (thread "StorageSvc" storage_service_task_entry 8192 high
                ∷ thread "StorageDemoHappy" client_task_happy_path_entry 6144 normal
                ∷ thread "StorageDemoQTimeout" client_task_queue_timeout_entry 6144 normal
                ∷ thread "StorageDemoLateDone" client_task_late_completion_entry 6144 normal
                ∷ thread "StorageDemoAbaIso" client_task_aba_isolation_entry 6144 normal
                ∷ thread "CfstProducer" producer_task_entry 3072 high
                ∷ thread "CfstWaiter" waiter_task_entry 3072 normal
                ∷ [])))

abbrev pub resources : Answers → Bool
resources a =
    a.storage_queue_created
    && (a.storage_pool_init && (a.selftest_queue_created && a.selftest_pool_init))

abbrev all_there : Answers
all_there = record {
  storage_queue_created = true;
  storage_pool_init = true;
  selftest_queue_created = true;
  selftest_pool_init = true;
}

module _ (usb_stack watchdog_stack : ℕ) where
  abbrev deps : Option ℕ → Option ℕ → AppDependencies
  deps usb watchdog = record {
    usb_host_process = record { entry = usb; stack_bytes = usb_stack };
    watchdog = record { entry = watchdog; stack_bytes = watchdog_stack };
  }

  registers :
      (usb watchdog : Option ℕ)
      → register_all (deps usb watchdog) all_there
        ≡ (true, threads (deps usb watchdog), event "storageDemo: registered" ∷ [])
  unfolding register_all storage_demo_register cfuture_selftest_register add
  registers none none = refl
  registers none (some w) = refl
  registers (some u) none = refl
  registers (some u) (some w) = refl

  fits : (usb watchdog : Option ℕ) → length (threads (deps usb watchdog)) ≤ 10
  fits none none = omega arith
  fits none (some w) = omega arith
  fits (some u) none = omega arith
  fits (some u) (some w) = omega arith

get_elem?-lt :
    (xs : Registry) (i : ℕ) {x : OsalTaskConfig} → get_elem? xs i ≡ some x → i < length xs
get_elem?-lt [] i e = absurd (cc)
get_elem?-lt (y ∷ xs) zero e = omega arith
get_elem?-lt (y ∷ xs) (suc i) e = omega (arith, get_elem?-lt xs i e)

both : (x y : Bool) → (x && y) ≡ true → (x ≡ true) × (y ≡ true)
both true y e = (refl, e)
both false y e = absurd (cc)

storage_needs :
    (a : Answers) (r : Registry)
    → (storage_demo_register a r).0 ≡ true
    → (a.storage_queue_created ≡ true) × (a.storage_pool_init ≡ true)
unfolding storage_demo_register
storage_needs a r e = elim (Bool-cases a.storage_queue_created) [
  | inr no_queue ↦ let z : false ≡ true = rw no_queue at e in absurd (cc)
  | inl queue ↦ elim (Bool-cases a.storage_pool_init) [
    | inr no_pool ↦ let z : false ≡ true = rw (queue, no_pool) at e in absurd (cc)
    | inl pool ↦ (queue, pool)
  ]
]

selftest_needs :
    (a : Answers) (r : Registry)
    → (cfuture_selftest_register a r).0 ≡ true
    → (a.selftest_queue_created ≡ true) × (a.selftest_pool_init ≡ true)
unfolding cfuture_selftest_register
selftest_needs a r e = elim (Bool-cases a.selftest_queue_created) [
  | inr no_queue ↦ let z : false ≡ true = rw no_queue at e in absurd (cc)
  | inl queue ↦ elim (Bool-cases a.selftest_pool_init) [
    | inr no_pool ↦ let z : false ≡ true = rw (queue, no_pool) at e in absurd (cc)
    | inl pool ↦ (queue, pool)
  ]
]

registered_needs :
    (d : AppDependencies) (a : Answers) → (register_all d a).0 ≡ true → resources a ≡ true
unfolding register_all
registered_needs d a e =
    let first = register_first d in
    let second = storage_demo_register a first.1 in
    let third = cfuture_selftest_register a second.1 in
    let (ok3, others) = both third.0 (second.0 && first.0) e in
    let (ok2, ok1) = both second.0 first.0 others in
    let (q, p) = storage_needs a first.1 ok2 in
    let (q', p') = selftest_needs a second.1 ok3 in rw (q, p, q', p') refl

with_resources : (a : Answers) → resources a ≡ true → a ≡ all_there
with_resources a e =
    let (q, more) =
      both a.storage_queue_created
        (a.storage_pool_init && (a.selftest_queue_created && a.selftest_pool_init)) e in
    let (p, last) =
      both a.storage_pool_init (a.selftest_queue_created && a.selftest_pool_init) more in
    let (q', p') = both a.selftest_queue_created a.selftest_pool_init last in
    λ i. record {
      storage_queue_created = q i;
      storage_pool_init = p i;
      selftest_queue_created = q' i;
      selftest_pool_init = p' i;
    }

registered :
    (d : AppDependencies)
    → register_all d all_there ≡ (true, threads d, event "storageDemo: registered" ∷ [])
registered d =
    registers d.usb_host_process.stack_bytes d.watchdog.stack_bytes d.usb_host_process.entry
      d.watchdog.entry

-- On every target the registrations of `appRun` succeed exactly if the queues and the pools of the
-- storage demo and of the self-test can be made: the registry is never full. It then holds the
-- threads of the application in order.
pub register_all_lem :
    (d : AppDependencies) (a : Answers)
    → ((register_all d a).0 ≡ resources a) × (resources a ≡ true → (register_all d a).1 ≡ threads d)
register_all_lem d a = (
  elim (Bool-cases (resources a)) [
    | inl there ↦
        ap (λ r. (register_all d r).0) (with_resources a there)
        ∙ ap (λ o. o.0) (registered d)
        ∙ sym there
    | inr missing ↦ elim (Bool-cases (register_all d a).0) [
      | inl fine ↦ let z = registered_needs d a fine in absurd (cc)
      | inr failed ↦ failed ∙ sym missing
    ]
  ],
  λ there. ap (λ r. (register_all d r).1) (with_resources a there) ∙ ap (λ o. o.1) (registered d),
)

app_run_inv :
    (d : AppDependencies) (a : Answers) (created : ℕ → Bool) (clock : ℕ → ℕ) (ts : Table)
    → (app_run d a created clock ts).0 ≡ true
    → ((register_all d a).0 ≡ true)
      × ((start_all created clock 0 (register_all d a).1 ts).0 ≡ true)
      × ((app_run d a created clock ts).1 ≡ (start_all created clock 0 (register_all d a).1 ts).1)
unfolding app_run
app_run_inv d a created clock ts e = elim (Bool-cases (register_all d a).0) [
  | inr failed ↦ let z : false ≡ true = rw failed at e in absurd (cc)
  | inl fine ↦ elim (Bool-cases (start_all created clock 0 (register_all d a).1 ts).0) [
    | inr failed ↦ let z : false ≡ true = rw (fine, failed) at e in absurd (cc)
    | inl started ↦ (fine, started, rw (fine, started) refl)
  ]
]

-- If `appRun` reports success at boot, with the task table empty, then every thread of the
-- application has been created and has a record in the task table, so that the watchdog sees it.
pub app_run-supervises :
    (d : AppDependencies) (a : Answers) (created : ℕ → Bool) (clock : ℕ → ℕ) (k : ℕ)
    (config : OsalTaskConfig)
    → (app_run d a created clock []).0 ≡ true
    → get_elem? (threads d) k ≡ some config
    → (created k ≡ true) × (has (lookup config.name (app_run d a created clock []).1) ≡ true)
app_run-supervises d a created clock k config e at_k =
    let (fine, started, table) = app_run_inv d a created clock [] e in
    let there = registered_needs d a fine in
    let same : (register_all d a).1 ≡ threads d = (register_all_lem d a).1 there in
    let started' : (start_all created clock 0 (threads d) []).0 ≡ true =
      ap (λ r. (start_all created clock 0 r []).0) (sym same) ∙ started in
    let index : 0 + k ≡ k = omega arith in
    let made : created (0 + k) ≡ true =
      start_all-all created clock 0 (threads d) [] started' k (get_elem?-lt (threads d) k at_k) in
    let small =
      fits d.usb_host_process.stack_bytes d.watchdog.stack_bytes d.usb_host_process.entry
        d.watchdog.entry in
    (
      rw index at made,
      ap (λ t. has (lookup config.name t))
            (table ∙ ap (λ r. (start_all created clock 0 r []).1) same)
          ∙ start_all-has created clock 0 k (threads d) [] config (omega (arith, small)) at_k made,
    )
