-- ===== src/Osal/ZephyrOsal.antt =====
-- targets/zephyr/osal/src/osal.c: the OS layer over Zephyr, as the calls that it makes. An item of a
-- queue is the list of its bytes, and the counter of the task slots is an argument that comes back.
pub mod Memory
mod Tests
use Prim.Native.String.{String}
use stm32f407vgt.Base.{
  ℕ, suc, Bool, true, false, ◌||◌, ◌==◌, leb, List, Option, none, some, u32_max, if◌then◌else◌,
}
use stm32f407vgt.Base.Programs.{Program, done, call, ◌>>=◌, ◌>>◌}
use stm32f407vgt.Core.Threads.{OsalTaskPriority, low, normal, high, OsalTaskConfig}
use stm32f407vgt.Osal.EventFlags.Zephyr.{Timeout, no_wait, forever, msec}

abbrev pub osal_max_tasks : ℕ
osal_max_tasks = 10

-- A lower number is more urgent.
abbrev pub osal_priority_to_zephyr_priority : OsalTaskPriority → ℕ
osal_priority_to_zephyr_priority high = 5
osal_priority_to_zephyr_priority normal = 7
osal_priority_to_zephyr_priority low = 9

abbrev pub zephyr_timeout_from_ms : ℕ → Timeout
zephyr_timeout_from_ms timeout_ms =
    if timeout_ms == 0 then no_wait else if timeout_ms == u32_max then forever else msec timeout_ms

-- Addresses are numbers. `thread_create` has a slot, a stack and its size, and a priority, and answers
-- the id; the calls that answer a Bool say whether Zephyr returned 0.
pub data Op : Type 0 where
  stack_alloc malloc : ℕ → Op
  thread_create : ℕ → ℕ → ℕ → ℕ → Op
  name_set : ℕ → String → Op
  malloc_msgq malloc_mutex abort_self uptime : Op
  msgq_init : ℕ → ℕ → ℕ → Op
  mutex_init free mutex_unlock msleep : ℕ → Op
  msgq_put : ℕ → List ℕ → Timeout → Op
  msgq_get mutex_lock : ℕ → Timeout → Op

abbrev pub Ans : Op → Type 0
Ans (stack_alloc size) = Option ℕ
Ans (malloc size) = Option ℕ
Ans (thread_create slot stack size priority) = Option ℕ
Ans malloc_msgq = Option ℕ
Ans malloc_mutex = Option ℕ
Ans uptime = ℕ
Ans (msgq_init q size count) = Bool
Ans (mutex_init m) = Bool
Ans (msgq_put q item timeout) = Bool
Ans (msgq_get q timeout) = Option (List ℕ)
Ans (mutex_lock m timeout) = Bool
Ans _ = Unit {0}

abbrev pub Zephyr : Type 0 → Type 0
Zephyr B = Program Op Ans B

abbrev pub ask : (op : Op) → Zephyr (Ans op)
ask op = call op done

-- Behind the stack: the slot is taken before the thread is created. The name is not NULL.
unfoldable pub start_thread : ℕ → OsalTaskConfig → ℕ → Zephyr (Option ℕ × ℕ)
start_thread next config stack = do
  tid ← ask (
      thread_create next stack config.stack_size_bytes
        (osal_priority_to_zephyr_priority config.priority))
  elim tid [
    | none ↦ done (none, suc next)
    | some id ↦ do ask (name_set id config.name); done (some id, suc next)
  ]

unfoldable pub osal_task_create : ℕ → Option OsalTaskConfig → Zephyr (Option ℕ × ℕ)
osal_task_create next none = done (none, next)
osal_task_create next (some config) = if leb osal_max_tasks next then done (none, next) else do
  allocated ← ask (stack_alloc config.stack_size_bytes)
  elim allocated [ none ↦ done (none, next) | some stack ↦ start_thread next config stack ]

unfoldable pub create_msgq : ℕ → ℕ → Zephyr (Option ℕ)
create_msgq item_count item_size = do
  allocated ← ask malloc_msgq
  elim allocated [
    | none ↦ done none
    | some q ↦ do
      inited ← ask (msgq_init q item_size item_count)
      elim inited [ true ↦ done (some q) | false ↦ do ask (free q); done none ]
  ]

-- `true` is a pointer for the handle.
unfoldable pub osal_queue_create : ℕ → ℕ → Bool → Zephyr (Option ℕ)
osal_queue_create item_count item_size false = done none
osal_queue_create item_count item_size true =
    if item_count == 0 || item_size == 0 then done none else create_msgq item_count item_size

-- `none` is a NULL handle or item.
pub osal_queue_send : Option ℕ → Option (List ℕ) → ℕ → Zephyr Bool
osal_queue_send none item timeout_ms = done false
osal_queue_send (some q) none timeout_ms = done false
osal_queue_send (some q) (some item) timeout_ms =
    ask (msgq_put q item (zephyr_timeout_from_ms timeout_ms))

-- The item where the answer is true.
pub osal_queue_receive : Option ℕ → Bool → ℕ → Zephyr (Option (List ℕ))
osal_queue_receive none out timeout_ms = done none
osal_queue_receive (some q) false timeout_ms = done none
osal_queue_receive (some q) true timeout_ms = ask (msgq_get q (zephyr_timeout_from_ms timeout_ms))

unfoldable pub osal_mutex_create : Bool → Zephyr (Option ℕ)
osal_mutex_create false = done none
osal_mutex_create true = do
  allocated ← ask malloc_mutex
  elim allocated [
    | none ↦ done none
    | some m ↦ do
      inited ← ask (mutex_init m)
      elim inited [ true ↦ done (some m) | false ↦ do ask (free m); done none ]
  ]

pub osal_mutex_lock : ℕ → ℕ → Zephyr Bool
osal_mutex_lock m timeout_ms = ask (mutex_lock m (zephyr_timeout_from_ms timeout_ms))

pub osal_mutex_unlock : ℕ → Zephyr (Unit {0})
osal_mutex_unlock m = ask (mutex_unlock m)

pub osal_delay_ms : ℕ → Zephyr (Unit {0})
osal_delay_ms ms = ask (msleep ms)

pub osal_get_time_ms : Zephyr ℕ
osal_get_time_ms = ask uptime

pub osal_task_exit : Zephyr (Unit {0})
osal_task_exit = ask abort_self

pub osal_malloc : ℕ → Zephyr (Option ℕ)
osal_malloc size = ask (malloc size)

pub osal_free : ℕ → Zephyr (Unit {0})
osal_free address = ask (free address)
