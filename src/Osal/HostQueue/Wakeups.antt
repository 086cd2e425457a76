-- ===== src/Osal/HostQueue/Wakeups.antt =====
-- No wake-up of the host queue is lost.
use stm32f407vgt.Base.{
  ℕ, zero, suc, ◌+◌, ◌-◌, ◌≤◌, ◌≡◌, refl, ◌⊎◌, inl, inr, Bool-cases, false, ltb, ltb→lt, ltb→le,
  add32, sub32, arith,
}
use stm32f407vgt.Osal.HostQueue.{HostQueue, finish_send, finish_receive, have_space, have_item}
use stm32f407vgt.Osal.HostQueue.Ring.{IsValid}
use stm32f407vgt.Osal.HostQueue.Refine.{store_item-IsValid, take_item-IsValid}
use stm32f407vgt.Osal.HostQueue.Signals.{
  Waiters, waiting, signal, Monitor, send_tail, receive_tail, Step, send_passes, send_sleeps,
  send_wakes, send_resumes, send_sleeps_again, receive_passes, receive_sleeps, receive_wakes,
  receive_resumes, receive_sleeps_again, Run, stop, go,
}

-- Nobody sleeps, or there is a woken task for each of the `n` places that the sleepers wait for.
abbrev pub Covers : Waiters → ℕ → Type 0
Covers w n = (w.asleep ≡ 0) ⊎ (n ≤ w.awake)

signal-Covers : (w : Waiters) (n k : ℕ) → Covers w n → k ≤ suc n → Covers (signal w) k
unfolding signal
signal-Covers w n k c le = by_asleep w.asleep w.awake c
  where
    by_asleep :
        (asleep awake : ℕ)
        → Covers (waiting asleep awake) n
        → Covers (signal (waiting asleep awake)) k
    by_asleep zero awake c = inl refl
    by_asleep (suc a) awake (inl e) = absurd (omega arith)
    by_asleep (suc a) awake (inr h) = inr (omega arith)

fewer : (w : Waiters) (n k : ℕ) → Covers w n → k ≤ n → Covers w k
fewer w n k (inl e) le = inl e
fewer w n k (inr h) le = inr (omega arith)

resumed :
    (asleep awake n k : ℕ)
    → awake ≡ suc n
    → Covers (waiting asleep awake) k
    → Covers (waiting asleep n) (k - 1)
resumed asleep awake n k e (inl z) = inl z
resumed asleep awake n k e (inr h) = inr (omega arith)

woken :
    (asleep awake n k : ℕ)
    → asleep ≡ suc n
    → Covers (waiting asleep awake) k
    → Covers (waiting n (suc awake)) k
woken asleep awake n k e (inl z) = absurd (omega arith)
woken asleep awake n k e (inr h) = inr (omega arith)

abbrev pub room {ℓ} : {A : Type ℓ} → HostQueue A → ℕ
room q = q.capacity - q.count

-- The ring is valid, each free slot has a woken sender if any sender sleeps, and each item a woken
-- receiver if any receiver sleeps.
pub record IsAwake {ℓ} {A : Type ℓ} (m : Monitor A) : Type 0 where
  pub valid : IsValid m.queue
  pub senders : Covers m.not_full (room m.queue)
  pub receivers : Covers m.not_empty m.queue.count

module _ {ℓ} {A : Type ℓ} where
  -- The two ends do to the ring what they do in the calls.
  queue-send_tail : (x : A) (m : Monitor A) → (send_tail x m).queue ≡ (finish_send m.queue x).1
  unfolding send_tail finish_send
  queue-send_tail x m = elim (Bool-cases (ltb m.queue.count m.queue.capacity)) [
    | inl free ↦ rw free refl
    | inr full ↦ rw full refl
  ]

  queue-receive_tail : (m : Monitor A) → (receive_tail m).queue ≡ (finish_receive m.queue).1
  unfolding receive_tail finish_receive
  queue-receive_tail m = elim (Bool-cases (ltb 0 m.queue.count)) [
    | inl found ↦ rw found refl
    | inr empty ↦ rw empty refl
  ]

  -- The end of a send, where `w` covers the room but for the task itself.
  send_tail-IsAwake :
      (x : A) (m : Monitor A)
      → IsValid m.queue
      → Covers m.not_full (room m.queue - 1)
      → Covers m.not_empty m.queue.count
      → IsAwake (send_tail x m)
  unfolding send_tail
  send_tail-IsAwake x m v senders receivers =
      elim (Bool-cases (ltb m.queue.count m.queue.capacity)) [
        | inl free ↦
            let lt = ltb→lt _ _ free in
            let up : add32 m.queue.count 1 ≡ m.queue.count + 1 = omega (arith, v.small) in
            rw free (record {
              valid = store_item-IsValid x v lt;
              senders = fewer m.not_full _ _ senders (omega (arith, up));
              receivers = signal-Covers m.not_empty m.queue.count _ receivers (omega (arith, up));
            })
        | inr full ↦
            let le = ltb→le _ _ full in
            rw full (record {
              valid = v;
              senders = fewer m.not_full _ _ senders (omega arith);
              receivers = receivers;
            })
      ]

  receive_tail-IsAwake :
      (m : Monitor A)
      → IsValid m.queue
      → Covers m.not_full (room m.queue)
      → Covers m.not_empty (m.queue.count - 1)
      → IsAwake (receive_tail m)
  unfolding receive_tail
  receive_tail-IsAwake m v senders receivers = elim (Bool-cases (ltb 0 m.queue.count)) [
    | inl found ↦
        let lt = ltb→lt _ _ found in
        let down : sub32 m.queue.count 1 ≡ m.queue.count - 1 = omega (arith, v.small, v.count_in) in
        rw found (record {
          valid = take_item-IsValid v lt;
          senders = signal-Covers m.not_full (room m.queue) _ senders (omega (arith, down));
          receivers = fewer m.not_empty _ _ receivers (omega (arith, down));
        })
    | inr empty ↦
        let le = ltb→le _ _ empty in
        rw empty (record {
          valid = v;
          senders = senders;
          receivers = fewer m.not_empty _ _ receivers (omega arith);
        })
  ]

  no_room : (q : HostQueue A) → have_space q ≡ false → room q ≡ 0
  no_room q full = let le = ltb→le _ _ full in omega arith

  no_item : (q : HostQueue A) → have_item q ≡ false → q.count ≡ 0
  no_item q empty = let le = ltb→le _ _ empty in omega arith

  step-IsAwake : {m n : Monitor A} → Step m n → IsAwake m → IsAwake n
  step-IsAwake {m} (send_passes x) a =
      send_tail-IsAwake x m a.valid (fewer m.not_full _ _ a.senders (omega arith)) a.receivers
  step-IsAwake {m} (send_sleeps full) a = record {
    valid = a.valid;
    senders = inr (omega (arith, no_room m.queue full));
    receivers = a.receivers;
  }
  step-IsAwake {m} (send_wakes {n} e) a = record {
    valid = a.valid;
    senders = woken m.not_full.asleep m.not_full.awake n (room m.queue) e a.senders;
    receivers = a.receivers;
  }
  step-IsAwake {m} (send_resumes {n} x e) a =
      send_tail-IsAwake x (record m { not_full = waiting m.not_full.asleep n }) a.valid
        (resumed m.not_full.asleep m.not_full.awake n (room m.queue) e a.senders) a.receivers
  step-IsAwake {m} (send_sleeps_again e full) a = record {
    valid = a.valid;
    senders = inr (omega (arith, no_room m.queue full));
    receivers = a.receivers;
  }
  step-IsAwake {m} receive_passes a =
      receive_tail-IsAwake m a.valid a.senders (fewer m.not_empty _ _ a.receivers (omega arith))
  step-IsAwake {m} (receive_sleeps empty) a = record {
    valid = a.valid;
    senders = a.senders;
    receivers = inr (omega (arith, no_item m.queue empty));
  }
  step-IsAwake {m} (receive_wakes {n} e) a = record {
    valid = a.valid;
    senders = a.senders;
    receivers = woken m.not_empty.asleep m.not_empty.awake n m.queue.count e a.receivers;
  }
  step-IsAwake {m} (receive_resumes {n} e) a =
      receive_tail-IsAwake (record m { not_empty = waiting m.not_empty.asleep n }) a.valid a.senders
        (resumed m.not_empty.asleep m.not_empty.awake n m.queue.count e a.receivers)
  step-IsAwake {m} (receive_sleeps_again e empty) a = record {
    valid = a.valid;
    senders = a.senders;
    receivers = inr (omega (arith, no_item m.queue empty));
  }

  run-IsAwake : {m n : Monitor A} → Run m n → IsAwake m → IsAwake n
  run-IsAwake stop a = a
  run-IsAwake (go s r) a = run-IsAwake r (step-IsAwake s a)

  abbrev pub idle : HostQueue A → Monitor A
  idle q = record { queue = q; not_full = waiting 0 0; not_empty = waiting 0 0 }

  -- From a valid ring on which nobody waits, in every order of the steps of any number of senders and
  -- receivers, with timeouts and spurious wake-ups: as long as a sender sleeps, at least as many senders
  -- are awake as there are free slots, and as long as a receiver sleeps, at least as many receivers are
  -- awake as there are items. So no call sleeps on while the ring is ready for it and nobody is on the
  -- way to use that, and no signal is lost. The ring stays valid.
  pub no_lost_wakeup : {q : HostQueue A} {m : Monitor A} → Run (idle q) m → IsValid q → IsAwake m
  no_lost_wakeup r v =
      run-IsAwake r (record { valid = v; senders = inl refl; receivers = inl refl })
