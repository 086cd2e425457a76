-- ===== src/Osal/HostTasks.antt =====
-- targets/host/osal/src/osal.c: tasks, mutexes, deadlines and delays, as the calls that they make of
-- POSIX. The queues of the same file are HostQueue.
pub mod Creation
pub mod Deadline
mod Tests
use stm32f407vgt.Base.{
  ℕ, zero, suc, ◌+◌, ◌-◌, ◌*◌, ◌/◌, ◌%◌, ◌^◌, Bool, true, false, not, ◌&&◌, ltb, leb, ◌==◌, u32_max,
  Option, none, some, if◌then◌else◌,
}
use stm32f407vgt.Base.Programs.{Program, done, call, ◌>>=◌, ◌>>◌}
use stm32f407vgt.Core.Threads.{OsalTaskPriority, low, normal, high, OsalTaskConfig}

pub record Timespec : Type 0 where
  pub sec : ℕ
  pub nsec : ℕ

-- What `nanosleep` ends in; an interrupted one has written the time that is left.
pub data Slept : Type 0 where
  slept failed : Slept
  interrupted : Timespec → Slept

-- `malloc` answers an address; the calls that answer a Bool say whether POSIX returned 0.
pub data Op : Type 0 where
  make_key_once attr_init attr_destroy inherit_explicit now own_task exit : Op
  malloc_task thread_create malloc_mutex : Op
  set_stack_size malloc free detach mutex_init unlock trylock lock_forever : ℕ → Op
  set_policy_rr : Op
  set_param : ℕ → Op
  timedlock : ℕ → Timespec → Op
  nanosleep : Timespec → Op

abbrev pub Ans : Op → Type 0
Ans now = Timespec
Ans malloc_task = Option ℕ
Ans own_task = Option ℕ
Ans (malloc size) = Option ℕ
Ans malloc_mutex = Option ℕ
Ans thread_create = Bool
Ans set_policy_rr = Bool
Ans (set_param priority) = Bool
Ans (trylock m) = Bool
Ans (lock_forever m) = Bool
Ans (timedlock m deadline) = Bool
Ans (nanosleep t) = Slept
Ans _ = Unit {0}

abbrev pub Posix : Type 0 → Type 0
Posix A = Program Op Ans A

abbrev pub ask : (op : Op) → Posix (Ans op)
ask op = call op done

abbrev pub osal_posix_min_stack_bytes : ℕ
osal_posix_min_stack_bytes = 16384

abbrev pub osal_posix_sched_priority : OsalTaskPriority → ℕ
osal_posix_sched_priority high = 20
osal_posix_sched_priority normal = 10
osal_posix_sched_priority low = 1

abbrev pub stack_size : OsalTaskConfig → ℕ
stack_size config =
    if ltb config.stack_size_bytes osal_posix_min_stack_bytes
    then osal_posix_min_stack_bytes
    else config.stack_size_bytes

-- The attributes of the first attempt.
unfoldable pub prefer_round_robin : ℕ → Posix (Unit {0})
prefer_round_robin priority = do
  policy ← ask set_policy_rr
  elim policy [
    | false ↦ done tt
    | true ↦ do param ← ask (set_param priority); if param then ask inherit_explicit else done tt
  ]

-- The second attempt, with the default scheduling.
unfoldable pub create_again : ℕ → Posix Bool
create_again size = do
  ask attr_init
  ask (set_stack_size size)
  again ← ask thread_create
  ask attr_destroy
  done again

unfoldable pub finish_create : ℕ → Bool → Posix (Option ℕ)
finish_create task false = do ask (free task); done none
finish_create task true = do ask (detach task); done (some task)

unfoldable pub create_thread : OsalTaskConfig → ℕ → Posix (Option ℕ)
create_thread config task = do
  ask attr_init
  ask (set_stack_size (stack_size config))
  prefer_round_robin (osal_posix_sched_priority config.priority)
  first ← ask thread_create
  ask attr_destroy
  made ← elim first [ true ↦ done true | false ↦ create_again (stack_size config) ]
  finish_create task made

-- `none` is a NULL config or one with a NULL entry; the answer is the handle.
unfoldable pub osal_task_create : Option OsalTaskConfig → Posix (Option ℕ)
osal_task_create none = done none
osal_task_create (some config) = do
  ask make_key_once
  allocated ← ask malloc_task
  elim allocated [ none ↦ done none | some task ↦ create_thread config task ]

unfoldable pub osal_mutex_create : Bool → Posix (Option ℕ)
osal_mutex_create false = done none
osal_mutex_create true = do
  allocated ← ask malloc_mutex
  elim allocated [ none ↦ done none | some m ↦ do ask (mutex_init m); done (some m) ]

-- The clock's nanoseconds are below 10^9, so that one second is carried at most.
unfoldable pub osal_posix_deadline : Timespec → ℕ → Timespec
osal_posix_deadline t timeout =
    let nanos = t.nsec + (timeout % 1000) * 1000000 in
    if leb 1000000000 nanos
    then record { sec = t.sec + timeout / 1000 + 1; nsec = nanos - 1000000000 }
    else record { sec = t.sec + timeout / 1000; nsec = nanos }

unfoldable pub osal_mutex_lock : ℕ → ℕ → Posix Bool
osal_mutex_lock m timeout =
    if timeout == 0
    then ask (trylock m)
    else if timeout == u32_max
    then ask (lock_forever m)
    else do t ← ask now; ask (timedlock m (osal_posix_deadline t timeout))

abbrev pub of_ms : ℕ → Timespec
of_ms ms = record { sec = ms / 1000; nsec = (ms % 1000) * 1000000 }

-- The loop is cut off by fuel: `false` is the answer of one that ran out of it.
unfoldable pub sleep_on : ℕ → Timespec → Posix Bool
sleep_on zero t = done false
sleep_on (suc fuel) t = do
  ended ← ask (nanosleep t)
  elim ended [ slept ↦ done true | failed ↦ done true | interrupted left ↦ sleep_on fuel left ]

unfoldable pub osal_delay_ms : ℕ → ℕ → Posix Bool
osal_delay_ms fuel ms = sleep_on fuel (of_ms ms)

unfoldable pub osal_get_time_ms : Timespec → ℕ
osal_get_time_ms t = (t.sec * 1000 + t.nsec / 1000000) % 2 ^ 32

pub osal_mutex_unlock : ℕ → Posix (Unit {0})
osal_mutex_unlock m = ask (unlock m)

-- `own_task` is `pthread_getspecific(s_taskKey)`; nothing is freed where that is NULL.
unfoldable pub osal_task_exit : Posix (Unit {0})
osal_task_exit = do
  own ← ask own_task
  elim own [ none ↦ done tt | some task ↦ ask (free task) ]
  ask exit

pub osal_malloc : ℕ → Posix (Option ℕ)
osal_malloc size = ask (malloc size)

pub osal_free : ℕ → Posix (Unit {0})
osal_free address = ask (free address)
