-- ===== src/Osal/ThreadxQueue.antt =====
-- targets/threadx/osal/src/osal.c: a queue of items of any size on two native queues of slot numbers.
-- A native queue is the list of its messages; it takes none beyond its `item_count` words. The stretches
-- between two native calls are steps of their own, so that those of several tasks can interleave.
pub mod Slots
pub mod Interleaved
pub mod Runs
pub mod Held
pub mod Create
mod Tests
use stm32f407vgt.Base.{
  ◌≡◌, ℕ, zero, suc, ◌+◌, ◌-◌, ◌/◌, ◌%◌, ◌^◌, Bool, true, false, not, ◌||◌, Option, none, some,
  List, [], ◌∷◌, ◌++◌, length, get_elem?, set, ltb, ◌==◌, add32, sub32, u32_max, if◌then◌else◌,
}

pub record OsalQueueImpl {ℓ} (A : Type ℓ) : Type ℓ where
  pub filled : List ℕ
  pub free : List ℕ
  pub storage : List A
  pub item_count : ℕ

-- The loop that fills the free-list: slots `i` to `i + n - 1`.
abbrev pub slots_from : ℕ → ℕ → List ℕ
slots_from zero i = []
slots_from (suc n) i = i ∷ slots_from n (suc i)

-- ULONG ticks of 10 ms, or one of ThreadX's two special waits.
pub data Ticks : Type 0 where
  no_wait wait_forever : Ticks
  ticks : ℕ → Ticks

unfoldable pub ms_to_ticks : ℕ → Ticks
ms_to_ticks timeout_ms =
    let n = sub32 (add32 timeout_ms 10) 1 / 10 in
    if timeout_ms == 0
    then no_wait
    else if timeout_ms == u32_max
    then wait_forever
    else if n == 0
    then ticks 1
    else ticks n

module _ {ℓ} {A : Type ℓ} where
  -- The queue that `osal_queue_create` has set up, over storage of any content.
  abbrev pub prefilled : ℕ → List A → OsalQueueImpl A
  prefilled item_count storage = record {
    filled = [];
    free = slots_from item_count 0;
    storage = storage;
    item_count = item_count;
  }

  -- `osal_queue_send`: the slot that it claims; none if the free-list is empty.
  unfoldable pub claim : OsalQueueImpl A → Option (ℕ × OsalQueueImpl A)
  claim q = elim q.free [ [] ↦ none | slot ∷ rest ↦ some (slot, record q { free = rest }) ]

  abbrev pub store : ℕ → A → OsalQueueImpl A → OsalQueueImpl A
  store slot x q = record q { storage = set q.storage slot x }

  -- The result is false if the native queue is full; the slot then goes back.
  unfoldable pub post : ℕ → OsalQueueImpl A → Bool × OsalQueueImpl A
  post slot q =
      if ltb (length q.filled) q.item_count
      then (true, record q { filled = q.filled ++ (slot ∷ []) })
      else (false, record q { free = q.free ++ (slot ∷ []) })

  -- `osal_queue_receive`.
  unfoldable pub take_slot : OsalQueueImpl A → Option (ℕ × OsalQueueImpl A)
  take_slot q = elim q.filled [ [] ↦ none | slot ∷ rest ↦ some (slot, record q { filled = rest }) ]

  abbrev pub copy_out : ℕ → OsalQueueImpl A → Option A
  copy_out slot q = get_elem? q.storage slot

  unfoldable pub release : ℕ → OsalQueueImpl A → OsalQueueImpl A
  release slot q =
      if ltb (length q.free) q.item_count then record q { free = q.free ++ (slot ∷ []) } else q

-- A task inside `osal_queue_send`: with its slot claimed, and with the item in it.
pub data Sender {ℓ} (A : Type ℓ) : Type ℓ where
  claimed stored : ℕ → A → Sender A

-- The queue with the tasks inside its calls; a task inside `osal_queue_receive` holds the slot that it
-- has taken.
pub record System {ℓ} (A : Type ℓ) : Type ℓ where
  pub queue : OsalQueueImpl A
  pub senders : List (Sender A)
  pub receivers : List ℕ

-- One step of any of the tasks.
pub data Step {ℓ} {A : Type ℓ} : System A → System A → Type ℓ where
  claims :
      {q q' : OsalQueueImpl A} {ss : List (Sender A)} {rs : List ℕ} {slot : ℕ} (x : A)
      → claim q ≡ some (slot, q')
      → Step
          (record { queue = q; senders = ss; receivers = rs })
          (record { queue = q'; senders = claimed slot x ∷ ss; receivers = rs })
  stores :
      {q : OsalQueueImpl A} (before after : List (Sender A)) {rs : List ℕ} (slot : ℕ) (x : A)
      → Step
          (record { queue = q; senders = before ++ (claimed slot x ∷ after); receivers = rs })
          (record {
            queue = store slot x q;
            senders = before ++ (stored slot x ∷ after);
            receivers = rs;
          })
  posts :
      {q : OsalQueueImpl A} (before after : List (Sender A)) {rs : List ℕ} (slot : ℕ) (x : A)
      → Step
          (record { queue = q; senders = before ++ (stored slot x ∷ after); receivers = rs })
          (record { queue = (post slot q).1; senders = before ++ after; receivers = rs })
  takes :
      {q q' : OsalQueueImpl A} {ss : List (Sender A)} {rs : List ℕ} {slot : ℕ}
      → take_slot q ≡ some (slot, q')
      → Step
          (record { queue = q; senders = ss; receivers = rs })
          (record { queue = q'; senders = ss; receivers = slot ∷ rs })
  -- The copy to the caller of what is in the slot then.
  copies :
      {q : OsalQueueImpl A} {ss : List (Sender A)} (before after : List ℕ) (slot : ℕ) (x : A)
      → copy_out slot q ≡ some x
      → Step
          (record { queue = q; senders = ss; receivers = before ++ (slot ∷ after) })
          (record { queue = q; senders = ss; receivers = before ++ (slot ∷ after) })
  releases :
      {q : OsalQueueImpl A} {ss : List (Sender A)} (before after : List ℕ) (slot : ℕ)
      → Step
          (record { queue = q; senders = ss; receivers = before ++ (slot ∷ after) })
          (record { queue = release slot q; senders = ss; receivers = before ++ after })
