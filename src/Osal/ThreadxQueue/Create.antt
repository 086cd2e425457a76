-- ===== src/Osal/ThreadxQueue/Create.antt =====
-- `osal_queue_create` of targets/threadx/osal/src/osal.c: memory and native queues are taken one after
-- the other, and given back if a later step fails.
use mathlib.Core.List.{append-nil}
use stm32f407vgt.Base.{
  ◌≡◌, ℕ, zero, suc, ◌+◌, ◌≤◌, ◌<◌, refl, sym, ap, ◌∙◌, ◌⊎◌, inl, inr, Bool, true, false, not, ◌||◌,
  Option, none, some, List, [], ◌∷◌, ◌++◌, length, ltb, leb, ◌==◌, arith, length-append, Bool-cases,
  Option-cases, if◌then◌else◌,
}
use stm32f407vgt.Osal.ThreadxQueue.{OsalQueueImpl, slots_from, prefilled}

abbrev pub max_osal_queues : ℕ
max_osal_queues = 4

-- Each allocation and each native queue, by number in the order in which they are taken: the storage,
-- the buffer and the queue of filled slots, the buffer and the queue of free slots.
pub data Action : Type 0 where
  acquire give_back : ℕ → Action

-- What ThreadX answers; `storage` is the content of the memory that it hands out.
pub record Answers {ℓ} (A : Type ℓ) : Type ℓ where
  pub storage : Option (List A)
  pub filled_buffer : Bool
  pub filled_queue : Bool
  pub free_buffer : Bool
  pub free_queue : Bool

-- The loop that fills the free-list, with `left` slots to go; none if the native queue is full.
pub prefill : ℕ → ℕ → ℕ → List ℕ → Option (List ℕ)
prefill zero i item_count free = some free
prefill (suc left) i item_count free =
    let rest = prefill left (suc i) item_count (free ++ (i ∷ [])) in
    if ltb (length free) item_count then rest else none

-- The queue with the number of queue slots that are then used, and what was taken and given back.
pub create :
    {A : Type 0} → ℕ → ℕ → Bool → ℕ → Answers A → Option (OsalQueueImpl A × ℕ) × List Action
create item_count item_size has_out_handle used a =
    if item_count == 0 || (item_size == 0 || (not has_out_handle || leb max_osal_queues used))
    then (none, [])
    else elim a.storage [
      | none ↦ (none, [])
      | some bytes ↦
          if not a.filled_buffer
          then (none, acquire 0 ∷ give_back 0 ∷ [])
          else if not a.filled_queue
          then (none, acquire 0 ∷ acquire 1 ∷ give_back 1 ∷ give_back 0 ∷ [])
          else if not a.free_buffer
          then (
            none,
            acquire 0 ∷ acquire 1 ∷ acquire 2 ∷ give_back 2 ∷ give_back 1 ∷ give_back 0 ∷ [],
          )
          else if not a.free_queue
          then (
            none,
            acquire 0
                ∷ acquire 1
                ∷ acquire 2
                ∷ acquire 3
                ∷ give_back 3
                ∷ give_back 2
                ∷ give_back 1
                ∷ give_back 0
                ∷ [],
          )
          else elim (prefill item_count 0 item_count []) [
            | none ↦ (
              none,
              acquire 0
                  ∷ acquire 1
                  ∷ acquire 2
                  ∷ acquire 3
                  ∷ acquire 4
                  ∷ give_back 4
                  ∷ give_back 3
                  ∷ give_back 2
                  ∷ give_back 1
                  ∷ give_back 0
                  ∷ [],
            )
            | some free ↦ (
              some (
                record { filled = []; free = free; storage = bytes; item_count = item_count },
                suc used,
              ),
              acquire 0 ∷ acquire 1 ∷ acquire 2 ∷ acquire 3 ∷ acquire 4 ∷ [],
            )
          ]
    ]

prefill_lem :
    (left i item_count : ℕ) (free : List ℕ)
    → length free + left ≤ item_count
    → prefill left i item_count free ≡ some (free ++ slots_from left i)
unfolding prefill
prefill_lem zero i item_count free room = ap some (sym (append-nil free))
prefill_lem (suc left) i item_count free room =
    let fits : ltb (length free) item_count ≡ true = ground arith in
    let longer = length-append free (i ∷ []) in
    rw fits (
      prefill_lem left (suc i) item_count (free ++ (i ∷ [])) (omega (arith, longer, room))
      ∙ ap some (assoc free (i ∷ []) (slots_from left (suc i))))
  where
    assoc : (xs ys zs : List ℕ) → (xs ++ ys) ++ zs ≡ xs ++ (ys ++ zs)
    assoc [] ys zs = refl
    assoc (x ∷ xs) ys zs = ap (λ l. x ∷ l) (assoc xs ys zs)

-- What is still taken, the last first; giving back what is not the last leaves a mark.
abbrev pub held : List ℕ → List Action → List ℕ
held taken [] = taken
held taken (acquire r ∷ more) = held (r ∷ taken) more
held [] (give_back r ∷ more) = r ∷ []
held (t ∷ taken) (give_back r ∷ more) = if t == r then held taken more else r ∷ t ∷ taken

last : (x y z w : Bool) → (x || (y || (z || w))) ≡ false → w ≡ false
last true y z w e = absurd (cc)
last false true z w e = absurd (cc)
last false false true w e = absurd (cc)
last false false false w e = e

below : (used : ℕ) → leb max_osal_queues used ≡ false → used < max_osal_queues
below used e = ground arith

-- A creation that fails has given back, in reverse order, all that it took, whatever failed; one that
-- succeeds has the storage and both native queues, a free-list of every slot, and uses one queue more.
pub create_lem :
    {A : Type 0} (item_count item_size used : ℕ) (has_out_handle : Bool) (a : Answers A)
    → (((create item_count item_size has_out_handle used a).0 ≡ none)
        × (held [] (create item_count item_size has_out_handle used a).1 ≡ []))
      ⊎ ((bytes : List A) × (a.storage ≡ some bytes)
          × (used < max_osal_queues)
          × ((create item_count item_size has_out_handle used a).0
              ≡ some (prefilled item_count bytes, suc used))
          × (held [] (create item_count item_size has_out_handle used a).1
              ≡ 4 ∷ 3 ∷ 2 ∷ 1 ∷ 0 ∷ []))
unfolding create
create_lem item_count item_size used has_out_handle a =
    elim (Bool-cases
      (item_count == 0 || (item_size == 0 || (not has_out_handle || leb max_osal_queues used)))) [
        | inl bad ↦ inl (rw bad (refl, refl))
        | inr good ↦
            let free_slots : leb max_osal_queues used ≡ false =
              last (item_count == 0) (item_size == 0) (not has_out_handle)
                (leb max_osal_queues used) good in
            elim (Option-cases a.storage) [
              | inl no_memory ↦ inl (rw (good, no_memory) (refl, refl))
              | inr (bytes, memory) ↦ elim (Bool-cases a.filled_buffer) [
                | inr failed ↦ inl (rw (good, memory, failed) (refl, refl))
                | inl one ↦ elim (Bool-cases a.filled_queue) [
                  | inr failed ↦ inl (rw (good, memory, one, failed) (refl, refl))
                  | inl two ↦ elim (Bool-cases a.free_buffer) [
                    | inr failed ↦ inl (rw (good, memory, one, two, failed) (refl, refl))
                    | inl three ↦ elim (Bool-cases a.free_queue) [
                      | inr failed ↦ inl (rw (good, memory, one, two, three, failed) (refl, refl))
                      | inl four ↦ inr (
                        bytes,
                        memory,
                        below used free_slots,
                        rw
                            (
                              good,
                              memory,
                              one,
                              two,
                              three,
                              four,
                              prefill_lem item_count 0 item_count [] (omega arith),
                            )
                            refl,
                        rw
                            (
                              good,
                              memory,
                              one,
                              two,
                              three,
                              four,
                              prefill_lem item_count 0 item_count [] (omega arith),
                            )
                            refl,
                      )
                    ]
                  ]
                ]
              ]
            ]
      ]
