-- ===== src/Diagnostics/SelfTest/Checks.antt =====
-- app/src/diagnostics/cfuture_selftest.c: the battery of checks and the task that runs it.
use Prim.Native.String.{String}
use stm32f407vgt.Base.{
  ℕ, zero, suc, Bool, true, false, not, ◌&&◌, Option, none, some, List, [], ◌∷◌, leb, ◌==◌,
  if◌then◌else◌, sub32, add32, u32_max,
}
use stm32f407vgt.Base.Programs.{done, ◌>>=◌, ◌>>◌}
use stm32f407vgt.Diagnostics.SelfTest.{
  Claim, Status, zero_status, minus_one, err_timeout, err_dropped, SelfTestProducerMode,
  produce_from_task, produce_from_isr, SelfTestRequest, Waited, Cancelled, Target, time, pal_time,
  resolved_at, create, event_create, exit, event_wait, event_destroy, sleep, wait_for, set_value,
  drop, cancel, cancel_unset, is_active, send, log, loop_start, loop_end, should_stop, mark_stopped,
  Test, ask, report, from_isr, self_test_pool_capacity, self_test_pause_ms, self_test_poison,
  waiter_name,
}

-- Behind the first measurement of `checkControls`.
unfoldable pub check_raw_wait : Target → Test (Unit {0})
check_raw_wait target = do
  made ← ask event_create
  elim made [
    | none ↦ done tt
    | some e ↦ do
      start ← ask time
      pal_start ← ask pal_time
      signalled ← ask (event_wait e 20)
      now ← ask time
      pal_now ← ask pal_time
      let elapsed = sub32 now start
      report "ctrl-rawwait20" (not signalled && leb elapsed 70) "osal elapsed ms, PAL elapsed ms"
          elapsed (sub32 pal_now pal_start)
      if target.destroys_events then ask (event_destroy e) else done tt
  ]

unfoldable pub check_controls : Target → Test (Unit {0})
check_controls target = do
  start ← ask time
  pal_start ← ask pal_time
  ask (sleep 20)
  now ← ask time
  let elapsed = sub32 now start
  pal_now ← ask pal_time
  let pal_elapsed = sub32 pal_now pal_start
  report "ctrl-delay20" (leb elapsed 70) "osal elapsed ms, PAL elapsed ms" elapsed pal_elapsed
  if target.has_events then check_raw_wait target else done tt

abbrev pub is_timeout : Status → Bool
is_timeout err_timeout = true
is_timeout _ = false

abbrev pub is_zero : Status → Bool
is_zero zero_status = true
is_zero _ = false

-- Never early, and late by 50 ms at most; `timeoutMs + 50U` is taken in 32 bits.
abbrev pub timed_out_well : ℕ → Waited → ℕ → Bool
timed_out_well timeout w elapsed =
    not w.completed && is_timeout w.status && leb timeout elapsed && leb elapsed (add32 timeout 50)

unfoldable pub check_timeout_accuracy : ℕ → Test (Unit {0})
check_timeout_accuracy timeout = do
  claimed ← ask create
  elim claimed [
    | none ↦ report "timeout" false "pool exhausted" timeout 0
    | some c ↦ do
      start ← ask time
      w ← ask (wait_for c timeout none (some zero_status))
      now ← ask time
      ask (drop c err_dropped)
      report "timeout" (timed_out_well timeout w (sub32 now start)) "requested ms, elapsed ms"
          timeout (sub32 now start)
  ]

abbrev pub delivered_well : SelfTestRequest → Waited → ℕ → ℕ → Bool
delivered_well r w elapsed latency =
    w.completed
    && is_zero w.status
    && w.value == r.value
    && leb r.delay_ms (add32 elapsed 1)
    && leb latency 20

-- Behind the claim, with the request that is built of it.
unfoldable pub deliver : String → SelfTestRequest → ℕ → Test (Unit {0})
deliver test r wait_ms = do
  start ← ask time
  sent ← ask (send r 0)
  elim sent [
    | false ↦ do
      c ← ask (cancel r.promise)
      report test false "queue full, cancelled" (if c.success then 1 else 0) 0
    | true ↦ do
      w ← ask (wait_for r.promise wait_ms (some 0) (some minus_one))
      now ← ask time
      resolved ← ask resolved_at
      let elapsed = sub32 now start
      let latency = sub32 now resolved
      report test (delivered_well r w elapsed latency) "elapsed ms, wake latency ms after resolve"
          elapsed latency
  ]

unfoldable pub check_delivery : Target → String → SelfTestProducerMode → ℕ → ℕ → Test (Unit {0})
check_delivery target test mode delay wait_ms = elim (from_isr mode && not target.raises_irq) [
  | true ↦ ask (log "cfst isr SKIP: target provides no test interrupt")
  | false ↦ do
    claimed ← ask create
    elim claimed [
      | none ↦ report test false "pool exhausted" 0 0
      | some c ↦
          deliver test
            (record { promise = c; delay_ms = delay; value = add32 0xC0FFEE00 delay; mode = mode })
            wait_ms
    ]
]

-- Behind the second claim; `stale` is the promise of the first.
unfoldable pub check_reuse : Claim → Claim → Test (Unit {0})
check_reuse stale next = do
  stale_active ← ask (is_active stale)
  ask (set_value stale self_test_poison minus_one)
  still_active ← ask (is_active next)
  ask (set_value next 42 zero_status)
  w ← ask (wait_for next 0 (some 0) none)
  let same_slot = next.slot_id == stale.slot_id
  report "stale" (same_slot && not stale_active && still_active && w.completed && w.value == 42)
      "slot reused, value seen by next occupant" (if same_slot then 1 else 0) w.value

unfoldable pub check_stale_handle : Test (Unit {0})
check_stale_handle = do
  claimed ← ask create
  elim claimed [
    | none ↦ report "stale" false "pool exhausted" 0 0
    | some c ↦ do
      ask (set_value c 1 zero_status)
      ask (wait_for c 0 (some 1) none)
      again ← ask create
      elim again [
        | none ↦ report "stale" false "pool exhausted on reuse" 0 0
        | some next ↦ check_reuse c next
      ]
  ]

-- `ok && cfuture_cancel(...)` and the test of the cleared handles.
unfoldable pub cancel_first : Test Bool
cancel_first = do
  claimed ← ask create
  elim claimed [
    | none ↦ done false
    | some c ↦ do x ← ask (cancel c); done (x.success && x.promise_cleared && x.future_cleared)
  ]

-- The first loop: what the handles at each index hold, of which `none` was never written.
unfoldable pub claim_all : ℕ → Test (List (Option Claim))
claim_all zero = done []
claim_all (suc n) = do claimed ← ask create; rest ← claim_all n; done (claimed ∷ rest)

-- `claimed`
abbrev pub claims : List (Option Claim) → ℕ
claims [] = 0
claims (none ∷ cs) = claims cs
claims (some c ∷ cs) = suc (claims cs)

abbrev pub cancel_at : Option Claim → Test Cancelled
cancel_at none = ask cancel_unset
cancel_at (some c) = ask (cancel c)

-- The second, over the first `n` indices: `ok = cfuture_cancel(...) && ok`.
unfoldable pub cancel_all : ℕ → List (Option Claim) → Bool → Test Bool
cancel_all zero cs ok = done ok
cancel_all (suc n) [] ok = done ok
cancel_all (suc n) (c ∷ cs) ok = do x ← cancel_at c; cancel_all n cs (x.success && ok)

-- Behind the first cancel.
unfoldable pub claim_and_report : Bool → Test (Unit {0})
claim_and_report first = do
  made ← claim_all self_test_pool_capacity
  ok ← cancel_all (claims made) made first
  report "cancel" (ok && claims made == self_test_pool_capacity)
      "slots claimable after all checks, capacity" (claims made) self_test_pool_capacity

unfoldable pub check_cancel_and_leaks : Test (Unit {0})
check_cancel_and_leaks = do first ← cancel_first; claim_and_report first

unfoldable pub battery : Target → Test (Unit {0})
battery target = do
  check_controls target
  check_timeout_accuracy 20
  check_timeout_accuracy 200
  check_timeout_accuracy 1000
  check_delivery target "task" produce_from_task 50 2000
  check_delivery target "forever" produce_from_task 100 u32_max
  check_delivery target "isr" produce_from_isr 30 2000
  check_stale_handle
  check_cancel_and_leaks

unfoldable pub waiter_turns : Target → ℕ → ℕ → Test Bool
waiter_turns target zero round = done false
waiter_turns target (suc fuel) round = do
  ask (loop_start waiter_name)
  stop ← ask (should_stop waiter_name)
  elim stop [
    | true ↦ do ask (mark_stopped waiter_name); ask exit; done true
    | false ↦ do
      report "round" true "starting battery" (add32 round 1) 0
      battery target
      ask (loop_end waiter_name)
      ask (sleep self_test_pause_ms)
      waiter_turns target fuel (add32 round 1)
  ]

pub waiter_task_entry : Target → ℕ → Test Bool
waiter_task_entry target fuel = waiter_turns target fuel 0
