-- ===== src/Diagnostics/Blinky.antt =====
-- app/src/diagnostics/blinky_task.c: the task that blinks the LED, as the calls that it makes.
use Prim.Native.String.{String}
use stm32f407vgt.Base.{ℕ, zero, suc, ◌+◌, ◌≤◌, ◌≡◌, refl, Bool, true, false, arith}
use stm32f407vgt.Base.Programs.{Program, done, call, ◌>>=◌, ◌>>◌, Rules, Follows, each_bool}
use stm32f407vgt.Diagnostics.Watchdog.{watchdog_health_timeout_ms}

pub data Op : Type 0 where
  led : Bool → Op
  log loop_start loop_end should_stop mark_stopped : String → Op
  sleep : ℕ → Op
  exit : Op

abbrev pub Ans : Op → Type 0
Ans (should_stop name) = Bool
Ans _ = Unit {0}

abbrev pub Blink : Type 0 → Type 0
Blink A = Program Op Ans A

abbrev ask : (op : Op) → Blink (Ans op)
ask op = call op done

abbrev pub task_name : String
task_name = "Blinky"

-- The loop is cut off by fuel: `false` is the answer of one that ran out of it.
unfoldable pub blinky_task_entry : ℕ → ℕ → ℕ → Blink Bool
blinky_task_entry on_time off_time zero = done false
blinky_task_entry on_time off_time (suc fuel) = do
  ask (loop_start task_name)
  stop ← ask (should_stop task_name)
  elim stop [
    | true ↦ do
      ask (led false)
      ask (log "Blinky stopped")
      ask (mark_stopped task_name)
      ask exit
      done true
    | false ↦ do
      ask (led true)
      ask (log "LED ON")
      ask (sleep on_time)
      ask (led false)
      ask (log "LED OFF")
      ask (sleep off_time)
      ask (loop_end task_name)
      blinky_task_entry on_time off_time fuel
  ]

-- The LED, and the time since the last check-in.
pub record Lamp : Type 0 where
  pub lit : Bool
  pub waited : ℕ

-- The task checks in and stops with the LED off, and sleeps no longer than the watchdog waits.
abbrev pub tidy : Rules Op Ans Lamp
tidy = record { allowed = allowed; after = after }
  where
    allowed : Op → Lamp → Type 0
    allowed (loop_end name) l = l.lit ≡ false
    allowed (mark_stopped name) l = l.lit ≡ false
    allowed exit l = l.lit ≡ false
    allowed (sleep ms) l = l.waited + ms ≤ watchdog_health_timeout_ms
    allowed _ l = Unit {0}

    after : (op : Op) → Ans op → Lamp → Lamp
    after (led on) x l = record l { lit = on }
    after (loop_start name) x l = record l { waited = 0 }
    after (loop_end name) x l = record l { waited = 0 }
    after (sleep ms) x l = record l { waited = l.waited + ms }
    after op x l = l

-- For on and off times that sum to the watchdog's 25 s at most, for any number of turns and whatever is
-- answered: the task ends every turn and stops with the LED off, and never sleeps past 25 s from its
-- last check-in.
blinky_task_entry-tidy :
    (on_time off_time fuel : ℕ) (l : Lamp)
    → on_time + off_time ≤ watchdog_health_timeout_ms
    → l.lit ≡ false
    → Follows tidy (blinky_task_entry on_time off_time fuel) l (λ _ m. m.lit ≡ false)
unfolding blinky_task_entry
blinky_task_entry-tidy on_time off_time zero l h off = off
blinky_task_entry-tidy on_time off_time (suc fuel) l h off = (
  tt,
  λ _. (
    tt,
    each_bool _
        (
          tt,
          λ _. (
            tt,
            λ _. (
              omega arith,
              λ _. (
                tt,
                λ _. (
                  tt,
                  λ _. (
                    omega arith,
                    λ _. (
                      refl,
                      λ _.
                          blinky_task_entry-tidy on_time off_time fuel
                            (record { lit = false; waited = 0 }) h refl,
                    ),
                  ),
                ),
              ),
            ),
          ),
        )
        (tt, λ _. (tt, λ _. (refl, λ _. (refl, λ _. refl)))),
  ),
)
