-- ===== src/Storage/Client/Durations.antt =====
-- How long each scenario may take from one check-in to the next.
use Prim.Native.String.{String}
use stm32f407vgt.Base.{ℕ, ◌+◌, ◌≤◌, inl, inr, Bool-cases, arith}
use stm32f407vgt.Base.Programs.{each_option, each_bool}
use stm32f407vgt.Storage.Client.{Future, succeeded}
use stm32f407vgt.Storage.Client.Helpers.{write_block_sync, read_block_byte_sync, occupy_servicer}
use stm32f407vgt.Storage.Client.Scenarios.{
  read_back_scenario, run_happy_path_scenario, poll_and_compare, attempt_late_write,
  run_queue_timeout_scenario, run_late_completion_scenario, claim_second, poll_and_claim, go_stale,
  run_aba_isolation_scenario,
}
use stm32f407vgt.Storage.Client.Timing.{
  EndsBy, EndsBy-bind, log_scenario_result-EndsBy, write_block_sync-EndsBy,
  read_block_byte_sync-EndsBy, occupy_servicer-EndsBy, drain-then, report-drain, EndsBy-mono,
}

read_back_scenario-EndsBy : (waited : ℕ) → waited ≤ 2200 → EndsBy read_back_scenario waited 22250
unfolding read_back_scenario
read_back_scenario-EndsBy waited h = (
  omega arith,
  each_option _ (log_scenario_result-EndsBy _ _ _ _ _ (omega arith) (omega arith)) (λ f. (
    omega arith,
    each_bool _ (omega arith, λ _. log_scenario_result-EndsBy _ _ _ _ _ (omega arith) (omega arith))
        (omega arith, λ w. log_scenario_result-EndsBy _ _ _ _ _ (omega arith) (omega arith)),
  )),
)

pub run_happy_path_scenario-EndsBy : EndsBy run_happy_path_scenario 0 22250
unfolding run_happy_path_scenario
run_happy_path_scenario-EndsBy = (
  omega arith,
  each_option _ (log_scenario_result-EndsBy _ _ _ _ _ (omega arith) (omega arith)) (λ f. (
    omega arith,
    each_bool _ (omega arith, λ _. log_scenario_result-EndsBy _ _ _ _ _ (omega arith) (omega arith))
        (
          omega arith,
          λ w. elim (Bool-cases (succeeded w)) [
            | inl wrote ↦ rw wrote (read_back_scenario-EndsBy 2200 (omega arith))
            | inr failed ↦
                rw failed (log_scenario_result-EndsBy _ _ _ 2200 22250 (omega arith) (omega arith))
          ],
        ),
  )),
)

poll_and_compare-EndsBy :
    (name : String) (occupied future : Future) (waited : ℕ)
    → waited ≤ 20000
    → EndsBy (poll_and_compare name occupied future) waited 22250
unfolding poll_and_compare
poll_and_compare-EndsBy name occupied future waited h = (
  omega arith,
  λ w. drain-then name occupied _ (waited + 0) (omega arith) (λ later le. (
    omega arith,
    λ _.
        EndsBy-bind (read_block_byte_sync 2) _ (later + 50) (later + 50 + 2200) 22250
          (read_block_byte_sync-EndsBy 2 (later + 50) (omega arith))
          (λ back after le2. log_scenario_result-EndsBy _ _ _ _ _ (omega arith) (omega arith)),
  )),
)

attempt_late_write-EndsBy :
    (name : String) (occupied : Future) (waited : ℕ)
    → waited ≤ 10000
    → EndsBy (attempt_late_write name occupied) waited 22250
unfolding attempt_late_write
attempt_late_write-EndsBy name occupied waited h = (
  omega arith,
  each_option _
      (EndsBy-mono _ _ 20000 22250 (omega arith) (report-drain _ _ name occupied _ (omega arith)))
      (λ f. (
        omega arith,
        each_bool _
            (
              omega arith,
              λ _.
                  EndsBy-mono _ _ 20000 22250 (omega arith)
                    (report-drain _ _ name occupied _ (omega arith)),
            )
            (poll_and_compare-EndsBy name occupied f _ (omega arith)),
      )),
)

pub run_queue_timeout_scenario-EndsBy :
    (name : String) → EndsBy (run_queue_timeout_scenario name) 0 22250
unfolding run_queue_timeout_scenario
run_queue_timeout_scenario-EndsBy name =
    EndsBy-bind (write_block_sync 2 _) _ 0 2200 22250 (write_block_sync-EndsBy 2 _ 0 (omega arith))
      (each_bool _ (λ later le. log_scenario_result-EndsBy _ _ _ _ _ (omega arith) (omega arith))
        (λ later le.
          EndsBy-bind occupy_servicer _ later (later + 250) 22250
            (occupy_servicer-EndsBy later (omega arith))
            (each_option _
              (λ after le2. log_scenario_result-EndsBy _ _ _ _ _ (omega arith) (omega arith))
              (λ f after le2. attempt_late_write-EndsBy name f after (omega arith)))))

pub run_late_completion_scenario-EndsBy : EndsBy run_late_completion_scenario 0 22250
unfolding run_late_completion_scenario
run_late_completion_scenario-EndsBy = (
  omega arith,
  each_option _ (log_scenario_result-EndsBy _ _ _ _ _ (omega arith) (omega arith)) (λ f. (
    omega arith,
    each_bool _ (omega arith, λ _. log_scenario_result-EndsBy _ _ _ _ _ (omega arith) (omega arith))
        (
          omega arith,
          λ _. (
            omega arith,
            λ w. (
              omega arith,
              λ _. log_scenario_result-EndsBy _ _ _ _ _ (omega arith) (omega arith),
            ),
          ),
        ),
  )),
)

claim_second-EndsBy :
    (stale_slot waited : ℕ)
    → waited ≤ 10000
    → EndsBy (claim_second stale_slot) waited (waited + 2200)
unfolding claim_second
claim_second-EndsBy stale_slot waited h = (
  omega arith,
  each_option _ (omega arith) (λ f.
      (omega arith, each_bool _ (omega arith, λ _. omega arith) (omega arith, λ w. omega arith))),
)

poll_and_claim-EndsBy :
    (name : String) (occupied stale : Future) (waited : ℕ)
    → waited ≤ 10000
    → EndsBy (poll_and_claim name occupied stale) waited 22250
unfolding poll_and_claim
poll_and_claim-EndsBy name occupied stale waited h = (
  omega arith,
  λ w.
      EndsBy-bind (claim_second stale.slot_id) _ (waited + 0) (waited + 0 + 2200) 22250
        (claim_second-EndsBy stale.slot_id (waited + 0) (omega arith))
        (λ second later le. drain-then name occupied _ later (omega arith) (λ after le2.
          (omega arith, λ _. log_scenario_result-EndsBy _ _ _ _ _ (omega arith) (omega arith)))),
)

go_stale-EndsBy :
    (name : String) (occupied : Future) (waited : ℕ)
    → waited ≤ 5000
    → EndsBy (go_stale name occupied) waited 22250
unfolding go_stale
go_stale-EndsBy name occupied waited h = (
  omega arith,
  each_option _
      (EndsBy-mono _ _ 20000 22250 (omega arith) (report-drain _ _ name occupied _ (omega arith)))
      (λ f. (
        omega arith,
        each_bool _
            (
              omega arith,
              λ _.
                  EndsBy-mono _ _ 20000 22250 (omega arith)
                    (report-drain _ _ name occupied _ (omega arith)),
            )
            (poll_and_claim-EndsBy name occupied f _ (omega arith)),
      )),
)

pub run_aba_isolation_scenario-EndsBy :
    (name : String) → EndsBy (run_aba_isolation_scenario name) 0 22250
unfolding run_aba_isolation_scenario
run_aba_isolation_scenario-EndsBy name =
    EndsBy-bind occupy_servicer _ 0 250 22250 (occupy_servicer-EndsBy 0 (omega arith)) (
      each_option _ (λ after le. log_scenario_result-EndsBy _ _ _ _ _ (omega arith) (omega arith))
        (λ f after le. go_stale-EndsBy name f after (omega arith)))
