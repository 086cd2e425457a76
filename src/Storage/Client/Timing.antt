-- ===== src/Storage/Client/Timing.antt =====
-- How long a task blocks between two check-ins, at most, against the watchdog's patience. A send, a
-- wait and a delay take their whole timeout at most; the other calls take no time.
use Prim.Native.String.{String}
use stm32f407vgt.Base.{ℕ, ◌+◌, ◌≤◌, inl, inr, Bool-cases, Bool, true, false, arith, if◌then◌else◌}
use stm32f407vgt.Base.Programs.{
  done, call, ◌>>=◌, ◌>>◌, Rules, Follows, Follows-bind, each_option, each_bool,
}
use stm32f407vgt.Diagnostics.Watchdog.{watchdog_health_timeout_ms}
use stm32f407vgt.Storage.Client.{
  Future, Op, Ans, Client, send, wait_for, sleep, loop_start, loop_end, checkpoint,
  log_scenario_result,
}
use stm32f407vgt.Storage.Client.Helpers.{
  write_block_sync, read_block_byte_sync, occupy_servicer, drain_occupy_future,
}

abbrev pub most_ms : Op → ℕ
most_ms (send r f timeout) = timeout
most_ms (wait_for f timeout b) = timeout
most_ms (sleep ms) = ms
most_ms _ = 0

abbrev pub checks_in : Op → Bool
checks_in (loop_start name) = true
checks_in (loop_end name) = true
checks_in (checkpoint name point) = true
checks_in _ = false

-- Of the time since the last check-in: no call may bring it past the watchdog's timeout.
abbrev pub on_time : Rules Op Ans ℕ
on_time = record {
  allowed = λ op waited. waited + most_ms op ≤ watchdog_health_timeout_ms;
  after = λ op _ waited. if checks_in op then 0 else waited + most_ms op;
}

-- Ends at most `ms` after the last check-in.
abbrev pub EndsBy : {A : Type 0} → Client A → ℕ → ℕ → Type 0
EndsBy m waited ms = Follows on_time m waited (λ _ after. after ≤ ms)

pub EndsBy-bind :
    {A B : Type 0} (m : Client A) (k : A → Client B) (waited ms most : ℕ)
    → EndsBy m waited ms
    → ((a : A) (later : ℕ) → later ≤ ms → EndsBy (k a) later most)
    → EndsBy (m >>= k) waited most
EndsBy-bind m k waited ms most =
    Follows-bind on_time m k waited (λ _ after. after ≤ ms) (λ _ after. after ≤ most)

pub log_scenario_result-EndsBy :
    (name : String) (pass : Bool) (detail : String) (waited ms : ℕ)
    → waited ≤ ms
    → ms ≤ watchdog_health_timeout_ms
    → EndsBy (log_scenario_result name pass detail) waited ms
unfolding log_scenario_result
log_scenario_result-EndsBy name true detail waited ms h g = (omega arith, λ _. omega arith)
log_scenario_result-EndsBy name false detail waited ms h g =
    (omega arith, λ _. (omega arith, λ _. omega arith))

pub write_block_sync-EndsBy :
    (block value waited : ℕ)
    → waited ≤ 20000
    → EndsBy (write_block_sync block value) waited (waited + 2200)
unfolding write_block_sync
write_block_sync-EndsBy block value waited h = (
  omega arith,
  each_option _ (omega arith) (λ f.
      (omega arith, each_bool _ (omega arith, λ _. omega arith) (omega arith, λ w. omega arith))),
)

pub read_block_byte_sync-EndsBy :
    (block waited : ℕ) → waited ≤ 22000 → EndsBy (read_block_byte_sync block) waited (waited + 2200)
unfolding read_block_byte_sync
read_block_byte_sync-EndsBy block waited h = (
  omega arith,
  each_option _ (omega arith) (λ f.
      (omega arith, each_bool _ (omega arith, λ _. omega arith) (omega arith, λ w. omega arith))),
)

pub occupy_servicer-EndsBy :
    (waited : ℕ) → waited ≤ 20000 → EndsBy occupy_servicer waited (waited + 250)
unfolding occupy_servicer
occupy_servicer-EndsBy waited h = (
  omega arith,
  each_option _ (omega arith) (λ f.
      (omega arith, each_bool _ (omega arith, λ _. omega arith) (omega arith, λ w. omega arith))),
)

-- A drain checks in first.
pub drain_occupy_future-EndsBy :
    (name : String) (f : Future) (waited : ℕ)
    → waited ≤ 20000
    → EndsBy (drain_occupy_future name f) waited 20000
unfolding drain_occupy_future
drain_occupy_future-EndsBy name f waited h = (
  omega arith,
  λ _. (
    omega arith,
    λ w. elim (Bool-cases w.completed) [
      | inl in_time ↦ rw in_time (omega arith)
      | inr late ↦ rw late (omega arith, λ _. (omega arith, λ _. omega arith))
    ],
  ),
)

-- `drain_occupy_future` and what follows it.
pub drain-then :
    {B : Type 0} (name : String) (f : Future) (k : Client B) (waited : ℕ)
    → waited ≤ 20000
    → ((later : ℕ) → later ≤ 20000 → EndsBy k later 22250)
    → EndsBy (drain_occupy_future name f >> k) waited 22250
drain-then name f k waited h next =
    EndsBy-bind (drain_occupy_future name f) (λ _. k) waited 20000 22250
      (drain_occupy_future-EndsBy name f waited h) (λ _ later le. next later le)

pub report-drain :
    (scenario detail name : String) (f : Future) (waited : ℕ)
    → waited ≤ 20000
    → EndsBy (log_scenario_result scenario false detail >> drain_occupy_future name f) waited 20000
report-drain scenario detail name f waited h =
    EndsBy-bind (log_scenario_result scenario false detail) (λ _. drain_occupy_future name f) waited
      20000 20000 (log_scenario_result-EndsBy _ _ _ waited 20000 h (omega arith))
      (λ _ later le. drain_occupy_future-EndsBy name f later le)

pub EndsBy-mono :
    {A : Type 0} (m : Client A) (waited ms more : ℕ)
    → ms ≤ more
    → EndsBy m waited ms
    → EndsBy m waited more
EndsBy-mono (done a) waited ms more le h = omega arith
EndsBy-mono (call op k) waited ms more le (ok, h) = (ok, λ x. EndsBy-mono (k x) _ ms more le (h x))
