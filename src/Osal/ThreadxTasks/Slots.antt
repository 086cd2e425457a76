-- ===== src/Osal/ThreadxTasks/Slots.antt =====
-- Memory and slots of tasks that are created: a failure keeps nothing, and the slots are enough for
-- the registry of threads.
use stm32f407vgt.Base.{
  ℕ, suc, ◌+◌, ◌≤◌, ◌<◌, ◌≡◌, refl, ◌⊎◌, inl, inr, Bool-cases, Bool, true, false, ◌&&◌, Option,
  none, some, List, [], ◌∷◌, length, leb, arith,
}
use stm32f407vgt.Base.Programs.{
  done, ◌>>=◌, World, run, run-bind, Rules, Follows, each_option, each_bool,
}
use stm32f407vgt.Core.Threads.{OsalTaskConfig, Registry, app_thread_registry_capacity}
use stm32f407vgt.Osal.ThreadxTasks.{
  max_osal_tasks, trampoline_args_size, Op, Ans, Threadx, Created, byte_allocate, byte_release,
  thread_create, osal_priority_to_threadx_priority, start_thread, allocate_and_start,
  osal_task_create,
}

abbrev pub top : List ℕ → Option ℕ
top [] = none
top (a ∷ as_) = some a

abbrev pub below : List ℕ → List ℕ
below [] = []
below (a ∷ as_) = as_

-- A thread that ThreadX runs: its slot, and the blocks of its entry argument and of its stack.
pub record Thread : Type 0 where
  pub slot : ℕ
  pub args : ℕ
  pub stack : ℕ

-- The blocks that are allocated, latest first, the threads that have been created, and how often ThreadX
-- has refused an allocation or a thread.
pub record Pool : Type 0 where
  pub held : List ℕ
  pub threads : List Thread
  pub refusals : ℕ

-- Only the latest block is released, and a thread is created over the two latest, in a slot that there
-- is; it is there if ThreadX has answered TX_SUCCESS.
abbrev pub allocation : Rules Op Ans Pool
allocation = record { allowed = allowed; after = after }
  where
    allowed : Op → Pool → Type 0
    allowed (byte_release a) p = top p.held ≡ some a
    allowed (thread_create slot args stack size priority) p =
        (top p.held ≡ some args) × (top (below p.held) ≡ some stack) × (slot < max_osal_tasks)
    allowed _ p = Unit {0}

    after : (op : Op) → Ans op → Pool → Pool
    after (byte_allocate size) (some a) p = record p { held = a ∷ p.held }
    after (byte_allocate size) none p = record p { refusals = suc p.refusals }
    after (byte_release a) x p = record p { held = below p.held }
    after (thread_create slot args stack size priority) true p = record p {
      threads = record { slot = slot; args = args; stack = stack } ∷ p.threads;
    }
    after (thread_create slot args stack size priority) false p = record p {
      refusals = suc p.refusals;
    }
    after op x p = p

-- What a call that began with `used` slots in the pool `p` leaves: the answered slot is the one of the
-- thread that is new, and its two blocks are the ones that are. Without a slot nothing is new, and
-- ThreadX has refused something or nothing was asked of it.
abbrev pub Leaves : ℕ → Option OsalTaskConfig → Pool → Created → Pool → Type 0
Leaves used config p (none, after_used) after =
    (after_used ≡ used)
    × ((after ≡ record p { refusals = suc p.refusals })
        ⊎ ((after ≡ p) × ((config ≡ none) ⊎ (max_osal_tasks ≤ used))))
Leaves used config p (some slot, after_used) after =
    (slot ≡ used)
    × (after_used ≡ suc used)
    × (used < max_osal_tasks)
    × ((args : ℕ) × (stack : ℕ) × (after ≡ record {
      held = args ∷ stack ∷ p.held;
      threads = record { slot = used; args = args; stack = stack } ∷ p.threads;
      refusals = p.refusals;
    }))

start_thread-Leaves :
    (used : ℕ) (config : OsalTaskConfig) (stack args : ℕ) (p : Pool)
    → used < max_osal_tasks
    → Follows allocation
        (start_thread used config stack args)
        (record p { held = args ∷ stack ∷ p.held })
        (Leaves used (some config) p)
unfolding start_thread
start_thread-Leaves used config stack args p h = (
  (refl, refl, h),
  each_bool _ (refl, λ _. (refl, λ _. (refl, inl refl))) (refl, refl, h, (args, stack, refl)),
)

-- Whatever ThreadX answers: a task is created exactly where ThreadX has created its thread. That thread
-- has the next slot, which is one of the ten, and keeps its stack and its entry argument; and a creation
-- that fails creates no thread, takes no slot and gives back every block that it allocated, and ThreadX
-- has refused it a block or the thread, or there was no configuration or no slot left.
pub osal_task_create-Leaves :
    (used : ℕ) (config : Option OsalTaskConfig) (p : Pool)
    → Follows allocation (osal_task_create used config) p (Leaves used config p)
unfolding osal_task_create allocate_and_start
osal_task_create-Leaves used none p = (refl, inr (refl, inl refl))
osal_task_create-Leaves used (some config) p = elim (Bool-cases (leb max_osal_tasks used)) [
  | inl full ↦ rw full (refl, inr (refl, inr (ground arith)))
  | inr free ↦ rw free (
    tt,
    each_option _ (refl, inl refl)
        (λ stack. (
          tt,
          each_option _ (refl, λ _. (refl, inl refl))
              (λ args. start_thread-Leaves used config stack args p (ground arith)),
        )),
  )
]

-- The registry's loop over its entries: whether every creation has succeeded.
abbrev pub is_some : Option ℕ → Bool
is_some none = false
is_some (some slot) = true

unfoldable pub create_all : ℕ → Registry → Threadx Bool
create_all used [] = done true
create_all used (config ∷ configs) = do
  made ← osal_task_create used (some config)
  rest ← create_all made.1 configs
  done (is_some made.0 && rest)

-- A ThreadX that has memory left, and creates what it is asked to.
pub record Provides {S : Type 0} (world : World Op Ans S) : Type 0 where
  pub allocates : (size : ℕ) (s : S) → (a : ℕ) × ((world (byte_allocate size) s).0 ≡ some a)
  pub creates :
      (slot args stack size priority : ℕ) (s : S)
      → (world (thread_create slot args stack size priority) s).0 ≡ true

module _ {S : Type 0} (world : World Op Ans S) (provides : Provides world) where
  created :
      (used : ℕ) (config : OsalTaskConfig) (s : S)
      → used < max_osal_tasks
      → (run world (osal_task_create used (some config)) s).0 ≡ (some used, suc used)
  unfolding osal_task_create allocate_and_start start_thread
  created used config s h =
      let free : leb max_osal_tasks used ≡ false = ground arith in
      let (stack, e) = provides.allocates config.stack_size_bytes s in
      let s1 = (world (byte_allocate config.stack_size_bytes) s).1 in
      let (args, f) = provides.allocates trampoline_args_size s1 in
      let s2 = (world (byte_allocate trampoline_args_size) s1).1 in
      rw
        (
          free,
          run,
          e,
          f,
          provides.creates used args stack config.stack_size_bytes
              (osal_priority_to_threadx_priority config.priority) s2,
        )
        refl

  create_all_starts :
      (configs : Registry) (used : ℕ) (s : S)
      → used + length configs ≤ max_osal_tasks
      → (run world (create_all used configs) s).0 ≡ true
  unfolding create_all
  create_all_starts [] used s h = refl
  create_all_starts (config ∷ configs) used s h =
      let s1 = (run world (osal_task_create used (some config)) s).1 in
      rw
        (
          run-bind world (osal_task_create used (some config)) _ s,
          created used config s (omega arith),
          run-bind world (create_all (suc used) configs) _ s1,
        )
        (create_all_starts configs (suc used) s1 (omega arith))

  -- On a ThreadX that has memory left: a registry that the application could fill, which has at most ten
  -- threads, starts from the boot on, with every thread created.
  pub registry_starts :
      (configs : Registry) (s : S)
      → length configs ≤ app_thread_registry_capacity
      → (run world (create_all 0 configs) s).0 ≡ true
  registry_starts configs s h = create_all_starts configs 0 s (omega arith)
