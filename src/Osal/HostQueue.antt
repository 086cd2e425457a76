-- ===== src/Osal/HostQueue.antt =====
-- The queue of targets/host/osal/src/osal.c: a ring of item slots under a mutex, with two condition
-- variables. An operation runs under the lock; what other tasks do while it waits is a list of
-- wake-ups, each with the accesses that were made meanwhile and the value that
-- `pthread_cond_timedwait` then returns. Where the wake-ups come from, the signals of the two operations,
-- is in Signals.
pub mod Ring
pub mod Refine
pub mod Blocking
pub mod Calls
pub mod Signals
pub mod Wakeups
mod Tests
use stm32f407vgt.Base.{
  ℕ, ◌%◌, Bool, true, false, not, ◌||◌, Option, none, some, List, [], ◌∷◌, get_elem?, set, ltb,
  ◌==◌, add32, sub32, u32_max, if◌then◌else◌,
}
use stm32f407vgt.Osal.Fifo.{Access, put, get}

-- A slot of `buffer` holds one item of `itemSize` bytes.
pub record HostQueue {ℓ} (A : Type ℓ) : Type ℓ where
  pub buffer : List A
  pub capacity : ℕ
  pub count : ℕ
  pub head : ℕ
  pub tail : ℕ

-- What happens from one wait to the next: the other tasks' accesses, and what the wait returns.
pub record Wake {ℓ} (A : Type ℓ) : Type ℓ where
  pub others : List (Access A)
  pub result : ℕ

module _ {ℓ} {A : Type ℓ} where
  -- `queue_memory` tells whether the first `malloc` succeeds; `buffer_memory` is what the second
  -- one returns, of any content.
  pub create : ℕ → ℕ → Bool → Bool → Option (List A) → Option (HostQueue A)
  create item_count item_size has_out_handle queue_memory buffer_memory =
      if item_count == 0 || (item_size == 0 || not has_out_handle)
      then none
      else if not queue_memory
      then none
      else elim buffer_memory [
        | none ↦ none
        | some buffer ↦
            some (record { buffer = buffer; capacity = item_count; count = 0; head = 0; tail = 0 })
      ]

  -- The block under `if (haveSpace)`.
  abbrev pub store_item : HostQueue A → A → HostQueue A
  store_item q x = record q {
    buffer = set q.buffer q.tail x;
    tail = add32 q.tail 1 % q.capacity;
    count = add32 q.count 1;
  }

  -- The block under `if (haveItem)`; the option is what the `memcpy` reads.
  abbrev pub take_item : HostQueue A → Option A × HostQueue A
  take_item q = (
    get_elem? q.buffer q.head,
    record q { head = add32 q.head 1 % q.capacity; count = sub32 q.count 1 },
  )

  abbrev pub have_space : HostQueue A → Bool
  have_space q = ltb q.count q.capacity

  abbrev pub have_item : HostQueue A → Bool
  have_item q = ltb 0 q.count

  pub finish_send : HostQueue A → A → Bool × HostQueue A
  finish_send q x = if have_space q then (true, store_item q x) else (false, q)

  pub finish_receive : HostQueue A → Option A × HostQueue A
  finish_receive q = if have_item q then take_item q else (none, q)

  -- One access of another task, while it holds the lock.
  pub access : HostQueue A → Access A → Option A × HostQueue A
  unfolding finish_send finish_receive
  access q (put x) = (none, (finish_send q x).1)
  access q get = finish_receive q

  pub run : HostQueue A → List (Access A) → HostQueue A
  run q [] = q
  run q (o ∷ os) = run (access q o).1 os

  -- `while (!ready) pthread_cond_wait(...)`; `none` is still waiting when the wake-ups are used up.
  pub wait_forever : (HostQueue A → Bool) → HostQueue A → List (Wake A) → Option (HostQueue A)
  wait_forever ready q [] = if ready q then some q else none
  wait_forever ready q (w ∷ ws) = elim (ready q) [
    | true ↦ some q
    | false ↦ wait_forever ready (run q w.others) ws
  ]

  -- `while (!ready && waitResult == 0) waitResult = pthread_cond_timedwait(...)`.
  pub wait_timed : (HostQueue A → Bool) → HostQueue A → ℕ → List (Wake A) → Option (HostQueue A)
  wait_timed ready q result [] = if ready q || not (result == 0) then some q else none
  wait_timed ready q result (w ∷ ws) = elim (ready q || not (result == 0)) [
    | true ↦ some q
    | false ↦ wait_timed ready (run q w.others) w.result ws
  ]

  -- The wait of both operations: a poll does not wait, and `UINT32_MAX` waits without a deadline.
  pub wait : (HostQueue A → Bool) → HostQueue A → ℕ → List (Wake A) → Option (HostQueue A)
  wait ready q timeout_ms ws =
      if ready q || timeout_ms == 0
      then some q
      else if timeout_ms == u32_max
      then wait_forever ready q ws
      else wait_timed ready q 0 ws

  -- `osal_queue_send`; the outer option is `none` while the call has not returned.
  pub send :
      Option (HostQueue A) → Option A → ℕ → List (Wake A) → Option (Bool × Option (HostQueue A))
  send none item timeout_ms ws = some (false, none)
  send (some q) none timeout_ms ws = some (false, some q)
  send (some q) (some x) timeout_ms ws = elim (wait have_space q timeout_ms ws) [
    | none ↦ none
    | some q' ↦ some ((finish_send q' x).0, some (finish_send q' x).1)
  ]

  -- `osal_queue_receive`: the answer, what went through `outItem`, and the queue.
  pub receive :
      Option (HostQueue A)
      → Bool
      → ℕ
      → List (Wake A)
      → Option (Bool × Option A × Option (HostQueue A))
  receive none has_out_item timeout_ms ws = some (false, none, none)
  receive (some q) false timeout_ms ws = some (false, none, some q)
  receive (some q) true timeout_ms ws = elim (wait have_item q timeout_ms ws) [
    | none ↦ none
    | some q' ↦ some (have_item q', (finish_receive q').0, some (finish_receive q').1)
  ]
