-- ===== src/Osal/HostTasks/Creation.antt =====
-- What a creation of a host task allocates, it keeps or frees.
use stm32f407vgt.Base.{
  ℕ, suc, ◌≤◌, ◌≡◌, refl, ◌⊎◌, inl, inr, arith, if◌then◌else◌, Bool, true, false, Option, none,
  some,
}
use stm32f407vgt.Base.Programs.{done, ◌>>=◌, Rules, Follows, Follows-bind, each_option, each_bool}
use stm32f407vgt.Core.Threads.{OsalTaskConfig}
use stm32f407vgt.Osal.HostTasks.{
  Op, Ans, attr_init, attr_destroy, inherit_explicit, malloc_task, thread_create, set_stack_size,
  free, detach, set_policy_rr, set_param, stack_size, osal_posix_sched_priority, prefer_round_robin,
  create_again, finish_create, create_thread, osal_task_create,
}

-- The struct of the task, whether a thread runs on it and has been detached, whether attributes are initialised,
-- and how often memory or a thread has been refused.
pub record Making : Type 0 where
  pub task : Option ℕ
  pub running : Bool
  pub detached : Bool
  pub attrs : Bool
  pub starved : Bool
  pub failures : ℕ

-- Attributes are initialised and destroyed in turn and set only between; a thread is created only under
-- them and while none runs; the struct is freed only while no thread runs, and a thread is detached
-- once, while it runs.
abbrev pub making : Rules Op Ans Making
making = record { allowed = allowed; after = after }
  where
    allowed : Op → Making → Type 0
    allowed attr_init m = m.attrs ≡ false
    allowed attr_destroy m = m.attrs ≡ true
    allowed (set_stack_size n) m = m.attrs ≡ true
    allowed set_policy_rr m = m.attrs ≡ true
    allowed (set_param p) m = m.attrs ≡ true
    allowed inherit_explicit m = m.attrs ≡ true
    allowed thread_create m = (m.attrs ≡ true) × (m.running ≡ false)
    allowed (free t) m = (m.task ≡ some t) × (m.running ≡ false)
    allowed (detach t) m = (m.task ≡ some t) × (m.running ≡ true) × (m.detached ≡ false)
    allowed _ m = Unit {0}

    after : (op : Op) → Ans op → Making → Making
    after attr_init x m = record m { attrs = true }
    after attr_destroy x m = record m { attrs = false }
    after malloc_task none m = record m { starved = true }
    after malloc_task (some t) m = record m { task = some t }
    after thread_create true m = record m { running = true }
    after thread_create false m = record m { failures = suc m.failures }
    after (free t) x m = record m { task = none }
    after (detach t) x m = record m { detached = true }
    after op x m = m

-- Not detached, and with memory.
abbrev pub at : Option ℕ → Bool → Bool → ℕ → Making
at task running attrs failures = record {
  task = task;
  running = running;
  detached = false;
  attrs = attrs;
  starved = false;
  failures = failures;
}

abbrev pub none_yet : Making
none_yet = at none false false 0

-- A handle is answered exactly for a task whose thread runs detached. Otherwise nothing is kept, and
-- there was no configuration or no memory, or both attempts at a thread have failed.
abbrev pub Made : Option OsalTaskConfig → Option ℕ → Making → Type 0
Made config none m =
    ((config ≡ none) × (m ≡ none_yet))
    ⊎ (m ≡ record none_yet { starved = true })
    ⊎ (m ≡ at none false false 2)
Made config (some t) m =
    (n : ℕ) × (n ≤ 1) × (m ≡ record (at (some t) true false n) { detached = true })

-- After `n` attempts that failed, the last of them `made`.
abbrev failed : Bool → ℕ → ℕ
failed made n = if made then n else suc n

finish_create-fails :
    (config : Option OsalTaskConfig) (task : ℕ)
    → Follows making (finish_create task false) (at (some task) false false 2) (Made config)
unfolding finish_create
finish_create-fails config task = ((refl, refl), λ _. inr (inr refl))

finish_create-runs :
    (config : Option OsalTaskConfig) (task n : ℕ)
    → n ≤ 1
    → Follows making (finish_create task true) (at (some task) true false n) (Made config)
unfolding finish_create
finish_create-runs config task n le = ((refl, refl, refl), λ _. (n, le, refl))

prefer_round_robin-keeps :
    (priority task : ℕ)
    → Follows making
        (prefer_round_robin priority)
        (at (some task) false true 0)
        (λ _ m. m ≡ at (some task) false true 0)
unfolding prefer_round_robin
prefer_round_robin-keeps priority task =
    (refl, each_bool _ refl (refl, each_bool _ refl (refl, λ _. refl)))

create_again-makes :
    (size task : ℕ)
    → Follows making
        (create_again size)
        (at (some task) false false 1)
        (λ made m. m ≡ at (some task) made false (failed made 1))
unfolding create_again
create_again-makes size task =
    (refl, λ _. (refl, λ _. ((refl, refl), each_bool _ (refl, λ _. refl) (refl, λ _. refl))))

after_again :
    (config : Option OsalTaskConfig) (task : ℕ) (made : Bool)
    → Follows making
        (finish_create task made)
        (at (some task) made false (failed made 1))
        (Made config)
after_again config task true = finish_create-runs config task 1 (omega arith)
after_again config task false = finish_create-fails config task

again-then :
    (config : Option OsalTaskConfig) (size task : ℕ) (first : Bool)
    → Follows making {A = Option ℕ}
        (elim first [ true ↦ done true | false ↦ create_again size ]
          >>= (λ made. finish_create task made))
        (at (some task) first false (failed first 0))
        (Made config)
again-then config size task true = finish_create-runs config task 0 (omega arith)
again-then config size task false =
    Follows-bind making (create_again size) (λ made. finish_create task made) _ _ (Made config)
      (create_again-makes size task) (λ made m same. rw same (after_again config task made))

create_thread-Made :
    (config : OsalTaskConfig) (task : ℕ)
    → Follows making (create_thread config task) (at (some task) false false 0) (Made (some config))
unfolding create_thread
create_thread-Made config task = (
  refl,
  λ _. (
    refl,
    λ _.
        Follows-bind making (prefer_round_robin (osal_posix_sched_priority config.priority)) _ _ _
          (Made (some config))
          (prefer_round_robin-keeps (osal_posix_sched_priority config.priority) task)
          (λ _ m same. rw same (
            (refl, refl),
            each_bool _ (refl, λ _. again-then (some config) (stack_size config) task false)
                (refl, λ _. again-then (some config) (stack_size config) task true),
          )),
  ),
)

-- Whatever POSIX answers: the attributes of each attempt are destroyed; a handle is answered exactly for
-- a task whose thread runs, after one refused attempt at most, and that thread has been detached; and
-- where none is answered the struct is freed while no thread runs on it, and there was no configuration,
-- no memory for the struct, or two attempts that failed.
pub osal_task_create-Made :
    (config : Option OsalTaskConfig)
    → Follows making (osal_task_create config) none_yet (Made config)
unfolding osal_task_create
osal_task_create-Made none = inl (refl, refl)
osal_task_create-Made (some config) =
    (tt, λ _. (tt, each_option _ (inr (inl refl)) (λ task. create_thread-Made config task)))
