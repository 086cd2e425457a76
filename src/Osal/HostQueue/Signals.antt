-- ===== src/Osal/HostQueue/Signals.antt =====
-- The condition variables of targets/host/osal/src/osal.c with the tasks that wait on them, where the
-- wake-ups come from. A stretch of a call under the mutex, up to a wait or to the return, is one step, and
-- the steps of any number of tasks interleave.
use stm32f407vgt.Base.{ℕ, zero, suc, ◌≡◌, false, if◌then◌else◌}
use stm32f407vgt.Osal.HostQueue.{HostQueue, have_space, have_item, store_item, take_item}

-- The tasks in the wait loop of one condition variable: blocked in the wait, and woken but not yet back
-- under the mutex.
pub record Waiters : Type 0 where
  pub asleep : ℕ
  pub awake : ℕ

abbrev pub waiting : ℕ → ℕ → Waiters
waiting asleep awake = record { asleep = asleep; awake = awake }

abbrev wake_one : ℕ → ℕ → Waiters
wake_one zero awake = waiting 0 awake
wake_one (suc n) awake = waiting n (suc awake)

-- `pthread_cond_signal`, which unblocks one task if there is one.
unfoldable pub signal : Waiters → Waiters
signal w = wake_one w.asleep w.awake

pub record Monitor {ℓ} (A : Type ℓ) : Type ℓ where
  pub queue : HostQueue A
  pub not_full : Waiters
  pub not_empty : Waiters

module _ {ℓ} {A : Type ℓ} where
  -- The end of `osal_queue_send` from `if (haveSpace)` on, with its signal.
  unfoldable pub send_tail : A → Monitor A → Monitor A
  send_tail x m =
      if have_space m.queue
      then record m { queue = store_item m.queue x; not_empty = signal m.not_empty }
      else m

  -- The end of `osal_queue_receive` from `if (haveItem)` on, with its signal.
  unfoldable pub receive_tail : Monitor A → Monitor A
  receive_tail m =
      if have_item m.queue
      then record m { queue = (take_item m.queue).1; not_full = signal m.not_full }
      else m

-- A call passes where it does not wait: it is ready or a poll. A task that sleeps may be woken by a
-- signal, a timeout or for no reason. Woken, it sleeps again or resumes behind its loop, where a timed
-- call may find that it is not ready.
pub data Step {ℓ} {A : Type ℓ} : Monitor A → Monitor A → Type ℓ where
  send_passes : {m : Monitor A} (x : A) → Step m (send_tail x m)
  send_sleeps :
      {m : Monitor A}
      → have_space m.queue ≡ false
      → Step m (record m { not_full = waiting (suc m.not_full.asleep) m.not_full.awake })
  send_wakes :
      {m : Monitor A} {n : ℕ}
      → m.not_full.asleep ≡ suc n
      → Step m (record m { not_full = waiting n (suc m.not_full.awake) })
  send_resumes :
      {m : Monitor A} {n : ℕ} (x : A)
      → m.not_full.awake ≡ suc n
      → Step m (send_tail x (record m { not_full = waiting m.not_full.asleep n }))
  send_sleeps_again :
      {m : Monitor A} {n : ℕ}
      → m.not_full.awake ≡ suc n
      → have_space m.queue ≡ false
      → Step m (record m { not_full = waiting (suc m.not_full.asleep) n })
  receive_passes : {m : Monitor A} → Step m (receive_tail m)
  receive_sleeps :
      {m : Monitor A}
      → have_item m.queue ≡ false
      → Step m (record m { not_empty = waiting (suc m.not_empty.asleep) m.not_empty.awake })
  receive_wakes :
      {m : Monitor A} {n : ℕ}
      → m.not_empty.asleep ≡ suc n
      → Step m (record m { not_empty = waiting n (suc m.not_empty.awake) })
  receive_resumes :
      {m : Monitor A} {n : ℕ}
      → m.not_empty.awake ≡ suc n
      → Step m (receive_tail (record m { not_empty = waiting m.not_empty.asleep n }))
  receive_sleeps_again :
      {m : Monitor A} {n : ℕ}
      → m.not_empty.awake ≡ suc n
      → have_item m.queue ≡ false
      → Step m (record m { not_empty = waiting (suc m.not_empty.asleep) n })

pub data Run {ℓ} {A : Type ℓ} : Monitor A → Monitor A → Type ℓ where
  stop : {m : Monitor A} → Run m m
  go : {m n o : Monitor A} → Step m n → Run n o → Run m o
