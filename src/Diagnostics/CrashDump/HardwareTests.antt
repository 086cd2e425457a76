-- ===== src/Diagnostics/CrashDump/HardwareTests.antt =====
-- The accesses of the fault handlers and of the early init at concrete states.
use stm32f407vgt.Base.{◌≡◌, [], true, false}
use stm32f407vgt.Base.Programs.{Follows}
use stm32f407vgt.Diagnostics.CrashDump.{Scb}
use stm32f407vgt.Diagnostics.CrashDump.Hardware.{shcsr_enable, early_init}
use stm32f407vgt.Diagnostics.CrashDump.Board.{Board}
use stm32f407vgt.Diagnostics.CrashDump.Armed.{Iwdg, arming, early_init_arms}

-- After a reset.
abbrev cold : Board
cold = record {
  uart = record { port_on = false; clock_on = false; pll = false; divider = 0; enabled = false };
  led = record { port_on = false; driven = false; toggles = 0 };
  traps = false;
  printed = [];
  was_reset = false;
}

abbrev divided : Scb
divided = record { hfsr = 0; cfsr = 0x2000000; mmfar = 0; bfar = 0 }

abbrev stopped : Iwdg
stopped = record { writable = false; prescaler = 0; reload = 0xFFF; started = false; handlers = 0 }

early_init_arms_example :
    Follows arming early_init stopped (λ _ v. (v.started ≡ true) × (v.handlers ≡ shcsr_enable))
early_init_arms_example = early_init_arms stopped
