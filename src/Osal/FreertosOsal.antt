-- ===== src/Osal/FreertosOsal.antt =====
-- targets/freertos/osal/src/osal.c: the OS layer over CMSIS-OS2, as the calls that it makes. An item of a
-- queue is the list of its bytes.
use Prim.Native.String.{String}
use stm32f407vgt.Base.{
  ℕ, Bool, true, false, ◌||◌, ◌==◌, List, Option, none, some, u32_max, if◌then◌else◌,
}
use stm32f407vgt.Base.Programs.{Program, done, call}
use stm32f407vgt.Core.Threads.{OsalTaskPriority, low, normal, high, OsalTaskConfig}

pub data OsPriority : Type 0 where
  os_priority_low os_priority_normal os_priority_high : OsPriority

pub data OsTimeout : Type 0 where
  os_wait_forever : OsTimeout
  os_ticks : ℕ → OsTimeout

abbrev pub osal_priority_to_os_priority : OsalTaskPriority → OsPriority
osal_priority_to_os_priority low = os_priority_low
osal_priority_to_os_priority normal = os_priority_normal
osal_priority_to_os_priority high = os_priority_high

-- At one tick a millisecond.
abbrev pub osal_timeout_to_os_timeout : ℕ → OsTimeout
osal_timeout_to_os_timeout timeout_ms =
    if timeout_ms == u32_max then os_wait_forever else os_ticks timeout_ms

-- The handles are numbers; the calls that answer a Bool say whether CMSIS-OS2 returned osOK.
pub data Op : Type 0 where
  thread_new : String → ℕ → OsPriority → Op
  queue_new : ℕ → ℕ → Op
  queue_put : ℕ → List ℕ → OsTimeout → Op
  queue_get : ℕ → OsTimeout → Op
  mutex_new thread_exit tick_count : Op
  mutex_acquire : ℕ → OsTimeout → Op
  mutex_release delay port_free port_malloc : ℕ → Op

abbrev pub Ans : Op → Type 0
Ans (thread_new name stack priority) = Option ℕ
Ans (queue_new count size) = Option ℕ
Ans (queue_put q item timeout) = Bool
Ans (queue_get q timeout) = Option (List ℕ)
Ans mutex_new = Option ℕ
Ans tick_count = ℕ
Ans (mutex_acquire m timeout) = Bool
Ans (port_malloc size) = Option ℕ
Ans _ = Unit {0}

abbrev pub Os : Type 0 → Type 0
Os B = Program Op Ans B

abbrev ask : (op : Op) → Os (Ans op)
ask op = call op done

-- `none` is a NULL config or one with a NULL entry.
pub osal_task_create : Option OsalTaskConfig → Os (Option ℕ)
osal_task_create none = done none
osal_task_create (some config) =
    ask (
      thread_new config.name config.stack_size_bytes (osal_priority_to_os_priority config.priority))

-- `true` is a pointer for the handle.
pub osal_queue_create : ℕ → ℕ → Bool → Os (Option ℕ)
osal_queue_create item_count item_size false = done none
osal_queue_create item_count item_size true =
    if item_count == 0 || item_size == 0 then done none else ask (queue_new item_count item_size)

-- `none` is a NULL handle or item.
pub osal_queue_send : Option ℕ → Option (List ℕ) → ℕ → Os Bool
osal_queue_send none item timeout_ms = done false
osal_queue_send (some q) none timeout_ms = done false
osal_queue_send (some q) (some item) timeout_ms =
    ask (queue_put q item (osal_timeout_to_os_timeout timeout_ms))

-- The item where the answer is true.
pub osal_queue_receive : Option ℕ → Bool → ℕ → Os (Option (List ℕ))
osal_queue_receive none out timeout_ms = done none
osal_queue_receive (some q) false timeout_ms = done none
osal_queue_receive (some q) true timeout_ms =
    ask (queue_get q (osal_timeout_to_os_timeout timeout_ms))

pub osal_mutex_create : Bool → Os (Option ℕ)
osal_mutex_create false = done none
osal_mutex_create true = ask mutex_new

pub osal_mutex_lock : ℕ → ℕ → Os Bool
osal_mutex_lock m timeout_ms = ask (mutex_acquire m (osal_timeout_to_os_timeout timeout_ms))

pub osal_mutex_unlock : ℕ → Os (Unit {0})
osal_mutex_unlock m = ask (mutex_release m)

pub osal_delay_ms : ℕ → Os (Unit {0})
osal_delay_ms ms = ask (delay ms)

pub osal_get_time_ms : Os ℕ
osal_get_time_ms = ask tick_count

pub osal_task_exit : Os (Unit {0})
osal_task_exit = ask thread_exit

pub osal_malloc : ℕ → Os (Option ℕ)
osal_malloc size = ask (port_malloc size)

pub osal_free : ℕ → Os (Unit {0})
osal_free address = ask (port_free address)
