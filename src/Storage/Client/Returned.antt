-- ===== src/Storage/Client/Returned.antt =====
-- Every future that a scenario claims is given back: the four scenarios.
use Prim.Native.String.{String}
use stm32f407vgt.Base.{ℕ, ◌≡◌, refl, inl, inr, Bool-cases, List, ◌∷◌}
use stm32f407vgt.Base.Programs.{Follows, each_option, each_bool, Follows-bind}
use stm32f407vgt.Storage.Client.{Future, succeeded}
use stm32f407vgt.Storage.Client.Helpers.{write_block_sync, read_block_byte_sync, occupy_servicer}
use stm32f407vgt.Storage.Client.Scenarios.{
  read_back_scenario, run_happy_path_scenario, poll_and_compare, attempt_late_write,
  run_queue_timeout_scenario, run_late_completion_scenario, claim_second, poll_and_claim, go_stale,
  run_aba_isolation_scenario,
}
use stm32f407vgt.Storage.Client.Futures.{
  ownership, Returns, Returns-bind, log_scenario_result-Returns, write_block_sync-Returns,
  read_block_byte_sync-Returns, occupy_servicer-claims, drain-then, report-drain,
}

read_back_scenario-Returns : (held : List Future) → Returns read_back_scenario held
unfolding read_back_scenario
read_back_scenario-Returns held = (
  tt,
  each_option _ (log_scenario_result-Returns _ _ _ held) (λ f. (
    refl,
    each_bool _ (refl, λ _. log_scenario_result-Returns _ _ _ held)
        (refl, λ w. log_scenario_result-Returns _ _ _ held),
  )),
)

run_happy_path_scenario-Returns : (held : List Future) → Returns run_happy_path_scenario held
unfolding run_happy_path_scenario
run_happy_path_scenario-Returns held = (
  tt,
  each_option _ (log_scenario_result-Returns _ _ _ held) (λ f. (
    refl,
    each_bool _ (refl, λ _. log_scenario_result-Returns _ _ _ held)
        (
          refl,
          λ w. elim (Bool-cases (succeeded w)) [
            | inl wrote ↦ rw wrote (read_back_scenario-Returns held)
            | inr failed ↦ rw failed (log_scenario_result-Returns _ _ _ held)
          ],
        ),
  )),
)

poll_and_compare-gives_back :
    (name : String) (occupied future : Future) (held : List Future)
    → Follows ownership
        (poll_and_compare name occupied future)
        (future ∷ occupied ∷ held)
        (λ _ after. after ≡ held)
unfolding poll_and_compare
poll_and_compare-gives_back name occupied future held = (
  refl,
  λ w. drain-then name occupied _ held (
    tt,
    λ _.
        Returns-bind (read_block_byte_sync 2) _ held (read_block_byte_sync-Returns 2 held)
          (λ back. log_scenario_result-Returns _ _ _ held),
  ),
)

attempt_late_write-gives_back :
    (name : String) (occupied : Future) (held : List Future)
    → Follows ownership
        (attempt_late_write name occupied)
        (occupied ∷ held)
        (λ _ after. after ≡ held)
unfolding attempt_late_write
attempt_late_write-gives_back name occupied held = (
  tt,
  each_option _ (report-drain _ _ name occupied held) (λ f. (
    refl,
    each_bool _ (refl, λ _. report-drain _ _ name occupied held)
        (poll_and_compare-gives_back name occupied f held),
  )),
)

run_queue_timeout_scenario-Returns :
    (name : String) (held : List Future) → Returns (run_queue_timeout_scenario name) held
unfolding run_queue_timeout_scenario
run_queue_timeout_scenario-Returns name held =
    Returns-bind (write_block_sync 2 _) _ held (write_block_sync-Returns 2 _ held) (
      each_bool _ (log_scenario_result-Returns _ _ _ held) (
        Follows-bind ownership occupy_servicer _ held _ _ (occupy_servicer-claims held) (
          each_option _ (λ after same. rw same (log_scenario_result-Returns _ _ _ held))
            (λ f after same. rw same (attempt_late_write-gives_back name f held)))))

run_late_completion_scenario-Returns :
    (held : List Future) → Returns run_late_completion_scenario held
unfolding run_late_completion_scenario
run_late_completion_scenario-Returns held = (
  tt,
  each_option _ (log_scenario_result-Returns _ _ _ held) (λ f. (
    refl,
    each_bool _ (refl, λ _. log_scenario_result-Returns _ _ _ held)
        (tt, λ _. (refl, λ w. (tt, λ _. log_scenario_result-Returns _ _ _ held))),
  )),
)

claim_second-Returns :
    (stale_slot : ℕ) (held : List Future) → Returns (claim_second stale_slot) held
unfolding claim_second
claim_second-Returns stale_slot held =
    (tt, each_option _ refl (λ f. (refl, each_bool _ (refl, λ _. refl) (refl, λ w. refl))))

poll_and_claim-gives_back :
    (name : String) (occupied stale : Future) (held : List Future)
    → Follows ownership
        (poll_and_claim name occupied stale)
        (stale ∷ occupied ∷ held)
        (λ _ after. after ≡ held)
unfolding poll_and_claim
poll_and_claim-gives_back name occupied stale held = (
  refl,
  λ w.
      Follows-bind ownership (claim_second stale.slot_id) _ (occupied ∷ held) _ _
        (claim_second-Returns stale.slot_id (occupied ∷ held))
        (λ second after same.
          rw same
            (drain-then name occupied _ held (tt, λ _. log_scenario_result-Returns _ _ _ held))),
)

go_stale-gives_back :
    (name : String) (occupied : Future) (held : List Future)
    → Follows ownership (go_stale name occupied) (occupied ∷ held) (λ _ after. after ≡ held)
unfolding go_stale
go_stale-gives_back name occupied held = (
  tt,
  each_option _ (report-drain _ _ name occupied held) (λ f. (
    refl,
    each_bool _ (refl, λ _. report-drain _ _ name occupied held)
        (poll_and_claim-gives_back name occupied f held),
  )),
)

run_aba_isolation_scenario-Returns :
    (name : String) (held : List Future) → Returns (run_aba_isolation_scenario name) held
unfolding run_aba_isolation_scenario
run_aba_isolation_scenario-Returns name held =
    Follows-bind ownership occupy_servicer _ held _ _ (occupy_servicer-claims held) (
      each_option _ (λ after same. rw same (log_scenario_result-Returns _ _ _ held))
        (λ f after same. rw same (go_stale-gives_back name f held)))

-- Whatever the promise library, the queue and the service answer, and on every branch: each of the four
-- scenarios sends, waits for and abandons only the future that it claimed last, gives every future
-- that it claims back exactly once, and ends with the futures that it began with.
pub scenarios_return :
    (name : String) (held : List Future)
    → Returns run_happy_path_scenario held
      × Returns (run_queue_timeout_scenario name) held
      × Returns run_late_completion_scenario held
      × Returns (run_aba_isolation_scenario name) held
scenarios_return name held = (
  run_happy_path_scenario-Returns held,
  run_queue_timeout_scenario-Returns name held,
  run_late_completion_scenario-Returns held,
  run_aba_isolation_scenario-Returns name held,
)
