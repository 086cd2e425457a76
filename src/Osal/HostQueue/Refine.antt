-- ===== src/Osal/HostQueue/Refine.antt =====
-- The ring keeps its invariant and behaves as the bounded list of its contents.
use stm32f407vgt.Base.{
  ℕ, zero, suc, ◌+◌, ◌-◌, ◌%◌, ◌^◌, ◌<◌, ◌≡◌, refl, ap, ◌∙◌, Bool, Option, none, some, List, [],
  ◌∷◌, ◌++◌, arith, length, inl, inr, Bool-cases, ltb→lt, ltb→le, get_elem?, length-set,
  get_elem?-some, ltb, add32, sub32,
}
use stm32f407vgt.Osal.Fifo
use stm32f407vgt.Osal.Fifo.{Access, put, get}
use stm32f407vgt.Osal.HostQueue.{
  HostQueue, create, store_item, take_item, finish_send, finish_receive, access, run,
}
use stm32f407vgt.Osal.HostQueue.Ring.{
  cons?, window, contents, IsValid, length-window, window-set, tail-store, tail-take,
}

module _ {ℓ} {A : Type ℓ} where
  pub length-contents : {q : HostQueue A} → IsValid q → length (contents q) ≡ q.count
  length-contents {q} v = length-window q.buffer q.capacity q.head q.count v.storage v.head_in

  -- What `osal_queue_create` returns is valid and empty, and holds `itemCount` items at most. Its
  -- buffer has a slot for each.
  pub create-IsValid :
      (item_count item_size : ℕ) (has_out memory : Bool) (buffer : List A) {q : HostQueue A}
      → item_count < 2 ^ 32
      → length buffer ≡ item_count
      → create item_count item_size has_out memory (some buffer) ≡ some q
      → IsValid q × (contents q ≡ []) × (q.capacity ≡ item_count)
  unfolding create
  create-IsValid item_count item_size has_out memory buffer small len h = ground arith

  pub store_item-IsValid :
      {q : HostQueue A} (x : A) → IsValid q → q.count < q.capacity → IsValid (store_item q x)
  store_item-IsValid {q} x v room =
      let wrap : (q.tail + 1) % 2 ^ 32 % q.capacity ≡ (q.head + (q.count + 1)) % q.capacity =
        ground
          (arith, tail-store q.capacity q.head q.count q.tail v.nonempty v.tail_at, v.tail_at) in
      ground (arith, length-set q.buffer q.tail x, wrap)

  pub contents-store_item :
      {q : HostQueue A} (x : A)
      → IsValid q
      → q.count < q.capacity
      → contents (store_item q x) ≡ contents q ++ (x ∷ [])
  contents-store_item {q} x v room = ground (
    arith,
    window-set q.buffer q.capacity x q.count q.head q.tail v.storage v.head_in room v.tail_at,
  )

  pub take_item-IsValid : {q : HostQueue A} → IsValid q → 0 < q.count → IsValid (take_item q).1
  take_item-IsValid {q} v some_item =
      ground (arith, tail-take q.capacity q.head q.count q.tail some_item v.tail_at)

  next_index :
      {q : HostQueue A} → IsValid q → add32 q.head 1 % q.capacity ≡ (q.head + 1) % q.capacity
  next_index v = ground arith

  empty_contents : (q : HostQueue A) → q.count ≡ 0 → contents q ≡ []
  empty_contents q e = rw e

  window_pos :
      (buf : List A) (size h n : ℕ)
      → 0 < n
      → window buf size h n ≡ cons? (get_elem? buf h) (window buf size ((h + 1) % size) (n - 1))
  window_pos buf size h zero p = absurd (omega arith)
  window_pos buf size h (suc n) p = ap (λ k. window buf size h (suc k)) (omega arith)

  -- Taking from the ring is `Fifo.receive` on its contents.
  pub take_item_refines :
      {q : HostQueue A}
      → IsValid q
      → 0 < q.count
      → ((take_item q).0, contents (take_item q).1) ≡ Fifo.receive (contents q)
  unfolding Fifo.receive
  take_item_refines {q} v some_item =
      let found = get_elem?-some q.buffer q.head (omega arith) in
      let down : sub32 q.count 1 ≡ q.count - 1 = ground arith in
      let up : add32 q.head 1 % q.capacity ≡ (q.head + 1) % q.capacity = next_index v in
      rw (window_pos q.buffer q.capacity q.head q.count some_item, found.1, down, up)

  -- A send that does not wait is `Fifo.send` on the contents.
  pub finish_send_refines :
      {q : HostQueue A} (x : A)
      → IsValid q
      → ((finish_send q x).0, contents (finish_send q x).1) ≡ Fifo.send q.capacity (contents q) x
  unfolding finish_send Fifo.send
  finish_send_refines {q} x v = elim (Bool-cases (ltb q.count q.capacity)) [
    | inl room ↦ rw (length-contents v, room, contents-store_item x v (ltb→lt _ _ room))
    | inr full ↦ rw (length-contents v, full)
  ]

  -- A receive that does not wait is `Fifo.receive` on the contents.
  pub finish_receive_refines :
      {q : HostQueue A}
      → IsValid q
      → ((finish_receive q).0, contents (finish_receive q).1) ≡ Fifo.receive (contents q)
  unfolding finish_receive Fifo.receive
  finish_receive_refines {q} v = elim (Bool-cases (ltb 0 q.count)) [
    | inl found ↦ rw found (take_item_refines v (ltb→lt _ _ found))
    | inr empty ↦
        let z : q.count ≡ 0 = omega (arith, ltb→le _ _ empty) in rw (empty, empty_contents q z)
  ]

  pub finish_send-IsValid : {q : HostQueue A} (x : A) → IsValid q → IsValid (finish_send q x).1
  unfolding finish_send
  finish_send-IsValid {q} x v = elim (Bool-cases (ltb q.count q.capacity)) [
    | inl room ↦ rw room (store_item-IsValid x v (ltb→lt _ _ room))
    | inr full ↦ rw full v
  ]

  pub finish_receive-IsValid : {q : HostQueue A} → IsValid q → IsValid (finish_receive q).1
  unfolding finish_receive
  finish_receive-IsValid {q} v = elim (Bool-cases (ltb 0 q.count)) [
    | inl found ↦ rw found (take_item-IsValid v (ltb→lt _ _ found))
    | inr empty ↦ rw empty v
  ]

  pub capacity-finish_send : (q : HostQueue A) (x : A) → (finish_send q x).1.capacity ≡ q.capacity
  unfolding finish_send
  capacity-finish_send q x = elim (Bool-cases (ltb q.count q.capacity)) [
    | inl room ↦ rw room
    | inr full ↦ rw full
  ]

  pub capacity-finish_receive : (q : HostQueue A) → (finish_receive q).1.capacity ≡ q.capacity
  unfolding finish_receive
  capacity-finish_receive q = elim (Bool-cases (ltb 0 q.count)) [
    | inl found ↦ rw found
    | inr empty ↦ rw empty
  ]

  pub access-IsValid : {q : HostQueue A} (o : Access A) → IsValid q → IsValid (access q o).1
  unfolding access
  access-IsValid (put x) v = finish_send-IsValid x v
  access-IsValid get v = finish_receive-IsValid v

  pub capacity-access : (q : HostQueue A) (o : Access A) → (access q o).1.capacity ≡ q.capacity
  unfolding access
  capacity-access q (put x) = capacity-finish_send q x
  capacity-access q get = capacity-finish_receive q

  access_refines :
      {q : HostQueue A} (o : Access A)
      → IsValid q
      → ((access q o).0, contents (access q o).1) ≡ Fifo.access q.capacity (contents q) o
  unfolding access Fifo.access
  access_refines (put x) v = ap (λ (r : Bool × List A). (none, r.1)) (finish_send_refines x v)
  access_refines get v = finish_receive_refines v

  pub run-IsValid : (os : List (Access A)) {q : HostQueue A} → IsValid q → IsValid (run q os)
  unfolding run
  run-IsValid [] v = v
  run-IsValid (o ∷ os) v = run-IsValid os (access-IsValid o v)

  pub capacity-run : (os : List (Access A)) (q : HostQueue A) → (run q os).capacity ≡ q.capacity
  unfolding run
  capacity-run [] q = refl
  capacity-run (o ∷ os) q = capacity-run os (access q o).1 ∙ capacity-access q o

  -- Any sequence of accesses leaves in a valid ring the items that it leaves in the bounded list.
  pub run_refines :
      (os : List (Access A)) {q : HostQueue A}
      → IsValid q
      → contents (run q os) ≡ Fifo.run q.capacity (contents q) os
  unfolding run Fifo.run
  run_refines [] v = refl
  run_refines (o ∷ os) {q} v =
      run_refines os (access-IsValid o v)
      ∙ ap (λ c. Fifo.run c (contents (access q o).1) os) (capacity-access q o)
      ∙ ap (λ (r : Option A × List A). Fifo.run q.capacity r.1 os) (access_refines o v)
