-- ===== src/Osal/HostQueue/Calls.antt =====
-- `osal_queue_send` and `osal_queue_receive` as whole calls, with what other tasks do meanwhile.
use stm32f407vgt.Base.{
  ℕ, ◌≡◌, ◌≢◌, sym, ap, ◌∙◌, ◌⊎◌, inl, inr, Bool, true, false, Option, none, some, List, arith, ltb,
  u32_max, Bool-cases, Option-cases, get_elem?-some,
}
use mathlib.Core.Path.{subst}
use stm32f407vgt.Osal.Fifo
use stm32f407vgt.Osal.Fifo.{Access}
use stm32f407vgt.Osal.HostQueue.{
  HostQueue, Wake, finish_send, finish_receive, run, wait, have_space, have_item, send, receive,
}
use stm32f407vgt.Osal.HostQueue.Ring.{contents, IsValid}
use stm32f407vgt.Osal.HostQueue.Refine.{
  finish_send_refines, finish_receive_refines, run_refines, run-IsValid, capacity-run,
  finish_send-IsValid, finish_receive-IsValid,
}
use stm32f407vgt.Osal.HostQueue.Blocking.{accesses, TimedOut, wait_lem, wait_returns}

module _ {ℓ} {A : Type ℓ} where
  abbrev pub is_some : Option A → Bool
  is_some none = false
  is_some (some x) = true

  -- Why a call may return with the wait's condition still false.
  abbrev pub GaveUp : ℕ → ℕ → List (Wake A) → Type 0
  GaveUp timeout_ms n ws = (timeout_ms ≡ 0) × (n ≡ 0) ⊎ (timeout_ms ≢ u32_max) × TimedOut 0 n ws

  send_inv :
      (q : HostQueue A) {q' : HostQueue A} (x : A) (timeout_ms : ℕ) (ws : List (Wake A))
      {sent : Bool}
      → send (some q) (some x) timeout_ms ws ≡ some (sent, some q')
      → (q0 : HostQueue A) × (wait have_space q timeout_ms ws ≡ some q0)
        × (finish_send q0 x ≡ (sent, q'))
  unfolding send
  send_inv q {q'} x timeout_ms ws {sent} h = elim (Option-cases (wait have_space q timeout_ms ws)) [
    | inl blocked ↦ let e : none ≡ some (sent, some q') = rw (blocked, send) at h in absurd (cc)
    | inr (q0, e) ↦
        let same : some ((finish_send q0 x).0, some (finish_send q0 x).1) ≡ some (sent, some q') =
          rw (e, send) at h in
        let sent_eq : (finish_send q0 x).0 ≡ sent = cc in
        let q_eq : (finish_send q0 x).1 ≡ q' = cc in (q0, e, λ i. (sent_eq i, q_eq i))
  ]

  receive_inv :
      (q : HostQueue A) {q' : HostQueue A} (timeout_ms : ℕ) (ws : List (Wake A)) {got : Bool}
      {out : Option A}
      → receive (some q) true timeout_ms ws ≡ some (got, out, some q')
      → (q0 : HostQueue A) × (wait have_item q timeout_ms ws ≡ some q0)
        × (have_item q0 ≡ got)
        × (finish_receive q0 ≡ (out, q'))
  unfolding receive
  receive_inv q {q'} timeout_ms ws {got} {out} h =
      elim (Option-cases (wait have_item q timeout_ms ws)) [
        | inl blocked ↦
            let e : none ≡ some (got, out, some q') = rw (blocked, receive) at h in absurd (cc)
        | inr (q0, e) ↦
            let same : some (have_item q0, (finish_receive q0).0, some (finish_receive q0).1)
                ≡ some (got, out, some q') =
              rw (e, receive) at h in
            let got_eq : have_item q0 ≡ got = cc in
            let out_eq : (finish_receive q0).0 ≡ out = cc in
            let q_eq : (finish_receive q0).1 ≡ q' = cc in (q0, e, got_eq, λ i. (out_eq i, q_eq i))
      ]

  -- The state in which the wait ends is valid, and holds what the bounded list holds.
  left_by_others :
      {q : HostQueue A} (os : List (Access A)) {q0 : HostQueue A}
      → IsValid q
      → q0 ≡ run q os
      → IsValid q0
        × (contents q0 ≡ Fifo.run q.capacity (contents q) os)
        × (q0.capacity ≡ q.capacity)
  left_by_others {q} os {q0} v e = (
    rw e (run-IsValid os v),
    ap contents e ∙ run_refines os v,
    ap (λ (r : HostQueue A). r.capacity) e ∙ capacity-run os q,
  )

  why_sent :
      (q0 : HostQueue A) (x : A) {P : Type 0}
      → (have_space q0 ≡ true) ⊎ P
      → ((finish_send q0 x).0 ≡ true) ⊎ P
  unfolding finish_send
  why_sent q0 x (inl r) = inl (rw r)
  why_sent q0 x (inr p) = inr p

  have_item-is_some : {q0 : HostQueue A} → IsValid q0 → have_item q0 ≡ is_some (finish_receive q0).0
  unfolding finish_receive
  have_item-is_some {q0} v = elim (Bool-cases (ltb 0 q0.count)) [
    | inl r ↦ let found = get_elem?-some q0.buffer q0.head (omega arith) in rw (r, found.1)
    | inr r ↦ rw r
  ]

  -- A send that returns has appended the item to the bounded list that the other tasks left, or
  -- found that list full and left it alone. The queue stays valid. It fails only as a poll, before
  -- any other task ran, or when it has a deadline and its wait did not end with 0.
  pub send_refines :
      {q q' : HostQueue A} (x : A) (timeout_ms : ℕ) (ws : List (Wake A)) {sent : Bool}
      → IsValid q
      → send (some q) (some x) timeout_ms ws ≡ some (sent, some q')
      → (n : ℕ) × ((sent, contents q')
          ≡ Fifo.send q.capacity (Fifo.run q.capacity (contents q) (accesses n ws)) x)
        × IsValid q'
        × ((sent ≡ true) ⊎ GaveUp timeout_ms n ws)
  send_refines {q} {q'} x timeout_ms ws {sent} v h =
      let (q0, e, res) = send_inv q x timeout_ms ws h in
      let (n, left, why) = wait_lem have_space q timeout_ms ws e in
      let (v0, items, size) = left_by_others (accesses n ws) v left in
      let done : (sent, contents q') ≡ Fifo.send q0.capacity (contents q0) x =
        subst
          (λ (r : Bool × HostQueue A). (r.0, contents r.1) ≡ Fifo.send q0.capacity (contents q0) x)
          res (finish_send_refines x v0) in
      (
        n,
        done ∙ (λ i. Fifo.send (size i) (items i) x),
        subst (λ (r : Bool × HostQueue A). IsValid r.1) res (finish_send-IsValid x v0),
        subst (λ (r : Bool × HostQueue A). (r.0 ≡ true) ⊎ GaveUp timeout_ms n ws) res
            (why_sent q0 x why),
      )

  -- A receive that returns has taken the oldest item of the bounded list that the other tasks left,
  -- or found that list empty and left it alone; its answer is true exactly when an item went out. The
  -- queue stays valid. It fails only as a poll, before any other task ran, or when it has a deadline
  -- and its wait did not end with 0.
  pub receive_refines :
      {q q' : HostQueue A} (timeout_ms : ℕ) (ws : List (Wake A)) {got : Bool} {out : Option A}
      → IsValid q
      → receive (some q) true timeout_ms ws ≡ some (got, out, some q')
      → (n : ℕ) × ((out, contents q')
          ≡ Fifo.receive (Fifo.run q.capacity (contents q) (accesses n ws)))
        × IsValid q'
        × (got ≡ is_some out)
        × ((got ≡ true) ⊎ GaveUp timeout_ms n ws)
  receive_refines {q} {q'} timeout_ms ws {got} {out} v h =
      let (q0, e, got_eq, res) = receive_inv q timeout_ms ws h in
      let (n, left, why) = wait_lem have_item q timeout_ms ws e in
      let (v0, items, size) = left_by_others (accesses n ws) v left in
      let done : (out, contents q') ≡ Fifo.receive (contents q0) =
        subst (λ (r : Option A × HostQueue A). (r.0, contents r.1) ≡ Fifo.receive (contents q0)) res
          (finish_receive_refines v0) in
      (
        n,
        done ∙ ap Fifo.receive items,
        subst (λ (r : Option A × HostQueue A). IsValid r.1) res (finish_receive-IsValid v0),
        sym got_eq ∙ have_item-is_some v0 ∙ ap (λ (r : Option A × HostQueue A). is_some r.0) res,
        rw (← got_eq) why,
      )

  -- A call with a deadline returns once a wait for the signal gives up, and an endless one once
  -- another task leaves room.
  pub send_returns :
      (q : HostQueue A) (x : A) (timeout_ms n : ℕ) (ws : List (Wake A))
      → (timeout_ms ≢ u32_max) × TimedOut 0 n ws
        ⊎ (timeout_ms ≡ u32_max) × (have_space (run q (accesses n ws)) ≡ true)
      → (sent : Bool) × (q' : HostQueue A) × (send (some q) (some x) timeout_ms ws
          ≡ some (sent, some q'))
  unfolding send
  send_returns q x timeout_ms n ws h =
      let (q0, e) = wait_returns have_space q timeout_ms ws n h in
      ((finish_send q0 x).0, (finish_send q0 x).1, rw (e, send))
