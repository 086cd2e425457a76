-- ===== src/Diagnostics/CrashDump/Armed.antt =====
-- What the early init of crash_dump.c leaves: the fault handlers enabled and the hardware watchdog armed.
use stm32f407vgt.Base.{
  ℕ, ◌+◌, ◌*◌, ◌/◌, ◌^◌, ◌≤◌, ◌≡◌, refl, Bool, true, false, ◌==◌, arith, if◌then◌else◌,
}
use stm32f407vgt.Base.Programs.{Rules, Follows}
use stm32f407vgt.Diagnostics.CrashDump.Hardware.{
  Op, Ans, shcsr_or, kr, pr, rlr, shcsr_enable, iwdg_key_enable_access, iwdg_key_start, early_init,
}
use stm32f407vgt.Diagnostics.Watchdog.{watchdog_health_timeout_ms, watchdog_refresh_interval_ms}

-- The IWDG of the reference manual: its registers can be written after the access key, until another key
-- is written.
pub record Iwdg : Type 0 where
  pub writable : Bool
  pub prescaler : ℕ
  pub reload : ℕ
  pub started : Bool
  pub handlers : ℕ

-- One count takes 4 * 2^PR cycles of the LSI clock, at its nominal 32 kHz.
abbrev pub period_ms : Iwdg → ℕ
period_ms w = 4 * 2 ^ w.prescaler * (w.reload + 1) / 32

-- The registers are written while they can be, and the watchdog started only with a period in which the
-- watchdog task finds a hung task and comes round once more.
abbrev pub arming : Rules Op Ans Iwdg
arming = record { allowed = allowed; after = after }
  where
    allowed : Op → Iwdg → Type 0
    allowed (pr v) w = w.writable ≡ true
    allowed (rlr v) w = w.writable ≡ true
    allowed (kr key) w =
        key ≡ iwdg_key_start
        → watchdog_health_timeout_ms + watchdog_refresh_interval_ms ≤ period_ms w
    allowed _ w = Unit {0}

    after : (op : Op) → Ans op → Iwdg → Iwdg
    after (shcsr_or v) x w = record w { handlers = v }
    after (pr v) x w = record w { prescaler = v }
    after (rlr v) x w = record w { reload = v }
    after (kr key) x w =
        if key == iwdg_key_start
        then record w { writable = false; started = true }
        else record w { writable = key == iwdg_key_enable_access }
    after op x w = w

-- The early init writes the prescaler and the reload value of the hardware watchdog while they can be
-- written, and starts it; by then its period, at the nominal clock, covers the 25 s after which the
-- watchdog task takes a task for hung and one more turn of that task. It ends with the watchdog started
-- and the handlers of MemManage, BusFault and UsageFault enabled.
pub early_init_arms :
    (w : Iwdg)
    → Follows arming early_init w (λ _ v. (v.started ≡ true) × (v.handlers ≡ shcsr_enable))
unfolding early_init
early_init_arms w = (
  tt,
  λ _. (
    (λ e. omega arith),
    λ _. (
      refl,
      λ _. (refl, λ _. ((λ e. omega arith), λ _. ((λ e. omega arith), λ _. (refl, refl)))),
    ),
  ),
)
