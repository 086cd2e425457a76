-- ===== src/Osal/ThreadxQueue/Held.antt =====
-- The item behind a slot that a receiver holds, and the ticks of a timeout.
use stm32f407vgt.Base.{
  ◌≡◌, ◌≢◌, ℕ, ◌+◌, ◌-◌, ◌*◌, ◌/◌, ◌^◌, ◌≤◌, ◌<◌, refl, sym, ap, ◌∙◌, inl, inr, false, length,
  get_elem?, ltb, ◌==◌, add32, sub32, u32_max, arith, get_elem?-set_ne, Bool-cases,
}
use stm32f407vgt.Osal.ThreadxQueue.{
  OsalQueueImpl, claimed, System, Step, claims, stores, posts, takes, copies, releases, post,
  release, copy_out, ms_to_ticks, Ticks, ticks, no_wait, wait_forever,
}
use stm32f407vgt.Osal.ThreadxQueue.Slots.{occ}
use stm32f407vgt.Osal.ThreadxQueue.Runs.{Run, stop, go, step_refines}
use stm32f407vgt.Osal.ThreadxQueue.Interleaved.{IsValid, claim_inv, take_inv, sender_alone}

storage-post : {A : Type 0} (q : OsalQueueImpl A) (slot : ℕ) → (post slot q).1.storage ≡ q.storage
unfolding post
storage-post q slot = elim (Bool-cases (ltb (length q.filled) q.item_count)) [
  | inl fits ↦ rw fits refl
  | inr full ↦ rw full refl
]

storage-release :
    {A : Type 0} (q : OsalQueueImpl A) (slot : ℕ) → (release slot q).storage ≡ q.storage
unfolding release
storage-release q slot = elim (Bool-cases (ltb (length q.free) q.item_count)) [
  | inl fits ↦ rw fits refl
  | inr full ↦ rw full refl
]

-- The item in a slot that a receiver has taken is changed by no step of any task, so that the copy
-- that `osal_queue_receive` makes later is of the item that it took.
pub receiver_keeps :
    {A : Type 0} {y y' : System A} (st : Step y y') (slot : ℕ)
    → IsValid y
    → 1 ≤ occ slot y.receivers
    → get_elem? y'.queue.storage slot ≡ get_elem? y.queue.storage slot
receiver_keeps {A} (claims {q} {q'} {slot = s} x e) slot v held =
    let (rest, free, same) = claim_inv q q' s e in
    ap (λ (r : OsalQueueImpl A). get_elem? r.storage slot) same
receiver_keeps (stores {q} before after {rs} s x) slot v held =
    let (inside, no_free, no_filled, no_sender, no_receiver) =
      sender_alone q before after (claimed s x) rs v in
    get_elem?-set_ne q.storage s slot x (apart s no_receiver)
  where
    apart : (s : ℕ) → occ s rs ≡ 0 → s ≢ slot
    apart s none_there eq =
        let z : occ slot rs ≡ 0 = ap (λ k. occ k rs) (sym eq) ∙ none_there in omega (arith, z, held)
receiver_keeps (posts {q} before after s x) slot v held =
    ap (λ l. get_elem? l slot) (storage-post q s)
receiver_keeps {A} (takes {q} {q'} {slot = s} e) slot v held =
    let (rest, filled, same) = take_inv q q' s e in
    ap (λ (r : OsalQueueImpl A). get_elem? r.storage slot) same
receiver_keeps (copies before after s x e) slot v held = refl
receiver_keeps (releases {q} before after s) slot v held =
    ap (λ l. get_elem? l slot) (storage-release q s)

-- The receiver has not released the slot before the last step of the run.
abbrev HeldThrough : {A : Type 0} {y z : System A} → ℕ → Run y z → Type 0
HeldThrough slot stop = Unit {0}
HeldThrough slot (go {y} st run) = (1 ≤ occ slot y.receivers) × HeldThrough slot run

-- What a receiver copies at any later time, as long as it holds the slot, is the item that it took.
copy_out-take :
    {A : Type 0} {y z : System A} (run : Run y z) (slot : ℕ)
    → IsValid y
    → HeldThrough slot run
    → copy_out slot z.queue ≡ copy_out slot y.queue
copy_out-take stop slot v held = refl
copy_out-take (go st run) slot v (held, later) =
    copy_out-take run slot (step_refines st v).0 later ∙ receiver_keeps st slot v held

abbrev pub tick_count : Ticks → ℕ
tick_count no_wait = 0
tick_count wait_forever = 0
tick_count (ticks n) = n

-- A timeout of up to 2 ^ 32 - 10 ms becomes the least number of 10 ms ticks that is not shorter. From
-- there to 2 ^ 32 - 2 the sum wraps, and the wait is one tick.
pub ms_to_ticks_lem :
    (timeout_ms : ℕ)
    → 0 < timeout_ms
    → timeout_ms < u32_max
    → (ms_to_ticks timeout_ms ≡ ticks (tick_count (ms_to_ticks timeout_ms)))
      × (timeout_ms ≤ 2 ^ 32 - 10
          → (timeout_ms ≤ 10 * tick_count (ms_to_ticks timeout_ms))
            × (10 * tick_count (ms_to_ticks timeout_ms) < timeout_ms + 10))
      × (2 ^ 32 - 10 < timeout_ms → tick_count (ms_to_ticks timeout_ms) ≡ 1)
unfolding ms_to_ticks
ms_to_ticks_lem t pos below =
    let n = sub32 (add32 t 10) 1 / 10 in
    let not_zero : (t == 0) ≡ false = ground arith in
    let not_max : (t == u32_max) ≡ false = ground arith in
    elim (Bool-cases (n == 0)) [
      | inl empty ↦
          let z : n ≡ 0 = ground arith in
          rw (not_zero, not_max, empty)
            (refl, λ small. (omega (arith, z), omega (arith, z)), λ large. refl)
      | inr some_ticks ↦
          let z : n ≢ 0 = λ e. absurd (ground arith) in
          rw (not_zero, not_max, some_ticks)
            (refl, λ small. (omega arith, omega arith), λ large. omega (arith, z))
    ]
