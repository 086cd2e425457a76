-- ===== src/Osal/HostQueue/Blocking.antt =====
-- The waits of `osal_queue_send` and `osal_queue_receive`: when a call returns, and what it did.
use stm32f407vgt.Base.{
  ℕ, zero, suc, ◌≡◌, ◌≢◌, refl, sym, ◌∙◌, ◌⊎◌, inl, inr, Bool, true, false, not, ◌||◌, none, some,
  List, [], ◌∷◌, ◌++◌, arith, u32_max, ◌==◌, Bool-cases,
}
use stm32f407vgt.Osal.Fifo.{Access}
use stm32f407vgt.Osal.HostQueue.{HostQueue, Wake, run, wait_forever, wait_timed, wait}

module _ {ℓ} {A : Type ℓ} where
  -- What the other tasks did up to the `n`th wake-up.
  abbrev pub accesses : ℕ → List (Wake A) → List (Access A)
  accesses zero ws = []
  accesses (suc n) [] = []
  accesses (suc n) (w ∷ ws) = w.others ++ accesses n ws

  run-append : (os ps : List (Access A)) (q : HostQueue A) → run q (os ++ ps) ≡ run (run q os) ps
  unfolding run
  run-append [] ps q = refl
  run-append (o ∷ os) ps q = run-append os ps _

  -- The wait ended because `pthread_cond_timedwait` did not return 0 at the `n`th wake-up.
  abbrev pub TimedOut : ℕ → ℕ → List (Wake A) → Type 0
  TimedOut result zero ws = result ≢ 0
  TimedOut result (suc n) [] = ⊥
  TimedOut result (suc n) (w ∷ ws) = TimedOut w.result n ws

  some_injective : {a b : HostQueue A} → some a ≡ some b → a ≡ b
  some_injective e = cc

  module _ (ready : HostQueue A → Bool) where
    stop :
        (q : HostQueue A) (result : ℕ)
        → (ready q || not (result == 0)) ≡ true
        → (ready q ≡ true) ⊎ (result ≢ 0)
    stop q result h = elim (Bool-cases (ready q)) [ inl r ↦ inl r | inr r ↦ inr (ground arith) ]

    over : (q : HostQueue A) (result : ℕ) → result ≢ 0 → (ready q || not (result == 0)) ≡ true
    over q result h = ground arith

    poll :
        (q : HostQueue A) (timeout_ms : ℕ) {P : Type 0}
        → (ready q || timeout_ms == 0) ≡ true
        → (ready q ≡ true) ⊎ (timeout_ms ≡ 0) × ◌≡◌ {A = ℕ} 0 0 ⊎ P
    poll q timeout_ms h = elim (Bool-cases (ready q)) [
      | inl r ↦ inl r
      | inr r ↦ inr (inl (ground arith, refl))
    ]

    limit :
        {timeout_ms n : ℕ} {q : HostQueue A} {P : Type 0}
        → (timeout_ms == u32_max) ≡ false
        → (ready q ≡ true) ⊎ P
        → (ready q ≡ true) ⊎ (timeout_ms ≡ 0) × (n ≡ 0) ⊎ (timeout_ms ≢ u32_max) × P
    limit m (inl r) = inl r
    limit m (inr t) = inr (inr (ground arith, t))

    -- The state in which an endless wait ends is ready, and is one that the other tasks left.
    wait_forever_lem :
        (ws : List (Wake A)) (q : HostQueue A) {q' : HostQueue A}
        → wait_forever ready q ws ≡ some q'
        → (n : ℕ) × (q' ≡ run q (accesses n ws)) × (ready q' ≡ true)
    unfolding wait_forever run
    wait_forever_lem [] q {q'} h = elim (Bool-cases (ready q)) [
      | inl r ↦ let e : q ≡ q' = some_injective (rw r at h) in (0, sym e, rw (← e) r)
      | inr r ↦ let e : none ≡ some q' = rw r at h in absurd (cc)
    ]
    wait_forever_lem (w ∷ ws) q {q'} h = elim (Bool-cases (ready q)) [
      | inl r ↦
          let e : q ≡ q' = some_injective (rw (r, wait_forever) at h) in (0, sym e, rw (← e) r)
      | inr r ↦
          let (n, e, r') = wait_forever_lem ws (run q w.others) (rw (r, wait_forever) at h) in
          (suc n, e ∙ sym (run-append w.others (accesses n ws) q), r')
    ]

    wait_timed_lem :
        (ws : List (Wake A)) (q : HostQueue A) (result : ℕ) {q' : HostQueue A}
        → wait_timed ready q result ws ≡ some q'
        → (n : ℕ) × (q' ≡ run q (accesses n ws)) × ((ready q' ≡ true) ⊎ TimedOut result n ws)
    unfolding wait_timed run
    wait_timed_lem [] q result {q'} h = elim (Bool-cases (ready q || not (result == 0))) [
      | inl r ↦
          let e : q ≡ q' = some_injective (rw r at h) in (0, sym e, rw (← e) (stop q result r))
      | inr r ↦ let e : none ≡ some q' = rw r at h in absurd (cc)
    ]
    wait_timed_lem (w ∷ ws) q result {q'} h = elim (Bool-cases (ready q || not (result == 0))) [
      | inl r ↦
          let e : q ≡ q' = some_injective (rw (r, wait_timed) at h) in
          (0, sym e, rw (← e) (stop q result r))
      | inr r ↦
          let (n, e, r') = wait_timed_lem ws (run q w.others) w.result (rw (r, wait_timed) at h) in
          (suc n, e ∙ sym (run-append w.others (accesses n ws) q), r')
    ]

    wait_forever_returns :
        (n : ℕ) (ws : List (Wake A)) (q : HostQueue A)
        → ready (run q (accesses n ws)) ≡ true
        → (q' : HostQueue A) × (wait_forever ready q ws ≡ some q')
    unfolding wait_forever run
    wait_forever_returns zero [] q h = (q, rw h)
    wait_forever_returns zero (w ∷ ws) q h = (q, rw (h, wait_forever))
    wait_forever_returns (suc n) [] q h = (q, rw h)
    wait_forever_returns (suc n) (w ∷ ws) q h = elim (Bool-cases (ready q)) [
      | inl r ↦ (q, rw (r, wait_forever))
      | inr r ↦
          let (q', e) =
            wait_forever_returns n ws (run q w.others)
              (rw (run-append w.others (accesses n ws) q) at h) in
          (q', rw (r, wait_forever) e)
    ]

    wait_timed_returns :
        (n : ℕ) (ws : List (Wake A)) (q : HostQueue A) (result : ℕ)
        → TimedOut result n ws
        → (q' : HostQueue A) × (wait_timed ready q result ws ≡ some q')
    unfolding wait_timed
    wait_timed_returns zero [] q result h = (q, rw (over q result h))
    wait_timed_returns zero (w ∷ ws) q result h = (q, rw (over q result h, wait_timed))
    wait_timed_returns (suc n) [] q result h = absurd h
    wait_timed_returns (suc n) (w ∷ ws) q result h =
        elim (Bool-cases (ready q || not (result == 0))) [
          | inl r ↦ (q, rw (r, wait_timed))
          | inr r ↦
              let (q', e) = wait_timed_returns n ws (run q w.others) w.result h in
              (q', rw (r, wait_timed) e)
        ]

    pub wait_lem :
        (q : HostQueue A) (timeout_ms : ℕ) (ws : List (Wake A)) {q' : HostQueue A}
        → wait ready q timeout_ms ws ≡ some q'
        → (n : ℕ) × (q' ≡ run q (accesses n ws))
          × ((ready q' ≡ true)
              ⊎ (timeout_ms ≡ 0) × (n ≡ 0)
              ⊎ (timeout_ms ≢ u32_max) × TimedOut 0 n ws)
    unfolding wait run
    wait_lem q timeout_ms ws {q'} h = elim (Bool-cases (ready q || timeout_ms == 0)) [
      | inl r ↦
          let e : q ≡ q' = some_injective (rw r at h) in (0, sym e, rw (← e) (poll q timeout_ms r))
      | inr r ↦ elim (Bool-cases (timeout_ms == u32_max)) [
        | inl m ↦ let (n, e, r') = wait_forever_lem ws q (rw (r, m) at h) in (n, e, inl r')
        | inr m ↦ let (n, e, r') = wait_timed_lem ws q 0 (rw (r, m) at h) in (n, e, limit m r')
      ]
    ]

    -- A wait with a deadline ends once a wait for the signal gives up, if not before.
    pub wait_returns :
        (q : HostQueue A) (timeout_ms : ℕ) (ws : List (Wake A)) (n : ℕ)
        → (timeout_ms ≢ u32_max) × TimedOut 0 n ws
          ⊎ (timeout_ms ≡ u32_max) × (ready (run q (accesses n ws)) ≡ true)
        → (q' : HostQueue A) × (wait ready q timeout_ms ws ≡ some q')
    unfolding wait
    wait_returns q timeout_ms ws n h = elim (Bool-cases (ready q || timeout_ms == 0)) [
      | inl r ↦ (q, rw r)
      | inr r ↦ elim h [
        | inl (m, t) ↦
            let (q', e) = wait_timed_returns n ws q 0 t in
            let m' : (timeout_ms == u32_max) ≡ false = ground arith in (q', rw (r, m') e)
        | inr (m, t) ↦
            let (q', e) = wait_forever_returns n ws q t in
            let m' : (timeout_ms == u32_max) ≡ true = ground arith in (q', rw (r, m') e)
      ]
    ]
