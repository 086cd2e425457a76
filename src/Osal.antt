-- ===== src/Osal.antt =====
-- The OS abstraction of app/include/osal/osal.h: its queue contract and, of its four
-- targets, the queues, the tasks with their locks and delays, and the events of the promise library.
pub mod Fifo
pub mod HostQueue
pub mod ThreadxQueue
pub mod EventPool
pub mod ThreadxTasks
pub mod HostTasks
pub mod EventFlags
pub mod FreertosOsal
pub mod ZephyrOsal
