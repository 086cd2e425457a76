-- ===== src/Osal/ZephyrOsal/Memory.antt =====
-- The objects that a creation on Zephyr allocates, and those that a failed one gives back.
use stm32f407vgt.Base.{
  ℕ, suc, ◌≤◌, ◌<◌, ◌≡◌, refl, ◌⊎◌, inl, inr, Bool-cases, Bool, true, false, not, ◌||◌, ◌==◌, leb,
  Option, if◌then◌else◌, none, some, arith,
}
use stm32f407vgt.Base.Programs.{Rules, Follows, each_option, each_bool}
use stm32f407vgt.Core.Threads.{OsalTaskConfig}
use stm32f407vgt.Osal.ZephyrOsal.{
  osal_max_tasks, Op, Ans, malloc_msgq, malloc_mutex, msgq_init, mutex_init, free, thread_create,
  name_set, stack_alloc, create_msgq, osal_queue_create, osal_mutex_create, osal_task_create,
  start_thread,
}

-- What an object of Zephyr has been made.
pub data Kind : Type 0 where
  raw mutex : Kind
  queue : ℕ → ℕ → Kind

-- A thread: its id, its slot, and its stack.
pub record Thread : Type 0 where
  pub id : ℕ
  pub slot : ℕ
  pub stack : ℕ

-- The object of a call: the block that is held and what Zephyr has made it, the thread that it has
-- created, whether that has its name, and whether Zephyr has refused what it was asked for last.
pub record Object : Type 0 where
  pub held : Option ℕ
  pub kind : Kind
  pub thread : Option Thread
  pub named : Bool
  pub refused : Bool

abbrev pub missing : Option ℕ → Bool
missing none = true
missing (some a) = false

abbrev pub made_if : Bool → Kind → Kind
made_if ok kind = if ok then kind else raw

abbrev pub thread_if : Option ℕ → ℕ → ℕ → Option Thread
thread_if none slot stack = none
thread_if (some id) slot stack = some (record { id = id; slot = slot; stack = stack })

-- An object is initialised and freed only where it is the one held, and has been made what it is
-- initialised as if Zephyr has answered 0; a thread is created over its stack in a slot that there is.
abbrev pub objects : Rules Op Ans Object
objects = record { allowed = allowed; after = after }
  where
    allowed : Op → Object → Type 0
    allowed (msgq_init q size count) o = o.held ≡ some q
    allowed (mutex_init m) o = o.held ≡ some m
    allowed (free a) o = o.held ≡ some a
    allowed (thread_create slot stack size priority) o =
        (o.held ≡ some stack) × (slot < osal_max_tasks)
    allowed (name_set id name) o =
        (slot : ℕ) × (stack : ℕ) × (o.thread
          ≡ some (record { id = id; slot = slot; stack = stack }))
    allowed _ o = Unit {0}

    after : (op : Op) → Ans op → Object → Object
    after malloc_msgq x o = record o { held = x; refused = missing x }
    after malloc_mutex x o = record o { held = x; refused = missing x }
    after (stack_alloc size) x o = record o { held = x; refused = missing x }
    after (msgq_init q size count) x o = record o {
      kind = made_if x (queue size count);
      refused = not x;
    }
    after (mutex_init m) x o = record o { kind = made_if x mutex; refused = not x }
    after (free a) x o = record o { held = none }
    after (thread_create slot stack size priority) x o = record o {
      thread = thread_if x slot stack;
      refused = missing x;
    }
    after (name_set id name) x o = record o { named = true }
    after op x o = o

abbrev pub nothing : Object
nothing = record { held = none; kind = raw; thread = none; named = false; refused = false }

-- Nothing is left, since Zephyr has refused it or the arguments are of `Invalid`.
abbrev pub IsLeftOut : Type 0 → Object → Type 0
IsLeftOut Invalid o = (o ≡ record nothing { refused = true }) ⊎ ((o ≡ nothing) × Invalid)

-- The answered handle is the block that is held and that has been made the object.
abbrev pub Holds : Type 0 → Kind → Option ℕ → Object → Type 0
Holds Invalid kind (some a) o = o ≡ record nothing { held = some a; kind = kind }
Holds Invalid kind none o = IsLeftOut Invalid o

-- What a creation of a task from `next` leaves: an answered id is that of a thread in the slot `next`,
-- with its name and its stack. Without an id nothing is left, but where Zephyr has refused the thread,
-- which takes the slot and the stack.
abbrev pub Takes : ℕ → Option OsalTaskConfig → Option ℕ × ℕ → Object → Type 0
Takes next config (some id, after_next) o =
    (after_next ≡ suc next)
    × (next < osal_max_tasks)
    × ((stack : ℕ) × (o ≡ record {
      held = some stack;
      kind = raw;
      thread = some (record { id = id; slot = next; stack = stack });
      named = true;
      refused = false;
    }))
Takes next config (none, after_next) o =
    ((after_next ≡ next) × IsLeftOut ((config ≡ none) ⊎ (osal_max_tasks ≤ next)) o)
    ⊎ ((after_next ≡ suc next)
        × (o.thread ≡ none)
        × (o.refused ≡ true)
        × ((stack : ℕ) × (o.held ≡ some stack)))

-- The arguments with which no queue is asked for.
abbrev pub NoQueue : ℕ → ℕ → Bool → Type 0
NoQueue item_count item_size out = (out ≡ false) ⊎ (item_count ≡ 0) ⊎ (item_size ≡ 0)

empty_queue :
    (item_count item_size : ℕ)
    → (item_count == 0 || item_size == 0) ≡ true
    → NoQueue item_count item_size true
empty_queue item_count item_size e = elim (Bool-cases (item_count == 0)) [
  | inl none_ ↦ inr (inl (ground arith))
  | inr some_ ↦ inr (inr (ground arith))
]

osal_queue_create-Holds :
    (item_count item_size : ℕ) (out : Bool)
    → Follows objects
        (osal_queue_create item_count item_size out)
        nothing
        (Holds (NoQueue item_count item_size out) (queue item_size item_count))
unfolding osal_queue_create create_msgq
osal_queue_create-Holds item_count item_size false = inr (refl, inl refl)
osal_queue_create-Holds item_count item_size true =
    elim (Bool-cases (item_count == 0 || item_size == 0)) [
      | inl empty ↦ rw empty (inr (refl, empty_queue item_count item_size empty))
      | inr sized ↦
          rw sized
            (tt, each_option _ (inl refl) (λ q. (refl, each_bool _ (refl, λ _. inl refl) refl)))
    ]

osal_mutex_create-Holds :
    (out : Bool) → Follows objects (osal_mutex_create out) nothing (Holds (out ≡ false) mutex)
unfolding osal_mutex_create
osal_mutex_create-Holds false = inr (refl, refl)
osal_mutex_create-Holds true =
    (tt, each_option _ (inl refl) (λ m. (refl, each_bool _ (refl, λ _. inl refl) refl)))

osal_task_create-Takes :
    (next : ℕ) (config : Option OsalTaskConfig)
    → Follows objects (osal_task_create next config) nothing (Takes next config)
unfolding osal_task_create start_thread
osal_task_create-Takes next none = inl (refl, inr (refl, inl refl))
osal_task_create-Takes next (some config) = elim (Bool-cases (leb osal_max_tasks next)) [
  | inl full ↦ rw full (inl (refl, inr (refl, inr (ground arith))))
  | inr room ↦ rw room (
    tt,
    each_option _ (inl (refl, inl refl)) (λ stack. (
      (refl, ground arith),
      each_option _ (inr (refl, refl, refl, (stack, refl)))
          (λ id. ((next, stack, refl), λ _. (refl, ground arith, (stack, refl)))),
    )),
  )
]

-- Whatever Zephyr answers, every creation keeps to the rules on its object. An answered handle of a
-- queue or of a mutex is the block that was allocated and that Zephyr has initialised, with the count
-- and the size that were asked for. Where none is answered the block is freed, and either Zephyr has
-- refused something or the arguments ask for no object. An answered task is a named thread that runs in
-- the next of the ten slots over its stack; where none is answered no thread runs, no slot is taken and
-- no stack kept, unless Zephyr has refused the thread itself, and the cause is a refusal, a missing
-- configuration or ten slots in use.
pub creations_keep_what_they_answer :
    (item_count item_size : ℕ) (out : Bool) (next : ℕ) (config : Option OsalTaskConfig)
    → Follows objects
        (osal_queue_create item_count item_size out)
        nothing
        (Holds (NoQueue item_count item_size out) (queue item_size item_count))
      × Follows objects (osal_mutex_create out) nothing (Holds (out ≡ false) mutex)
      × Follows objects (osal_task_create next config) nothing (Takes next config)
creations_keep_what_they_answer item_count item_size out next config = (
  osal_queue_create-Holds item_count item_size out,
  osal_mutex_create-Holds out,
  osal_task_create-Takes next config,
)
