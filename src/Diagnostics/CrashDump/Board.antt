-- ===== src/Diagnostics/CrashDump/Board.antt =====
-- The order in which the fault handlers and the early init access the peripherals.
use mathlib.Core.List.{append-nil, append_assoc}
use stm32f407vgt.Base.{
  ℕ, suc, ◌*◌, ◌^◌, ◌≤◌, ◌≡◌, refl, ap, sym, ◌∙◌, Bool, true, false, List, [], ◌∷◌, ◌++◌, ◌==◌,
  arith,
}
use stm32f407vgt.Base.Programs.{Rules, Follows, Follows-bind, each_bool}
use stm32f407vgt.Diagnostics.CrashDump.{Item}
use stm32f407vgt.Diagnostics.CrashDump.Hardware.{
  uart_pins, led_pin, Op, Ans, pll_is_clock, gpioa_clock_on, usart1_clock_on, gpioc_clock_on,
  gpio_init, cr1, cr2, cr3, brr, ccr_or, send, toggle_led, system_reset, divide_by_zero, uart_baud,
  apb2_clock_hz, cr1_enable, raw_uart_init, raw_uart_puts, puts_all,
}

pub record Uart : Type 0 where
  pub port_on : Bool
  pub clock_on : Bool
  pub pll : Bool
  pub divider : ℕ
  pub enabled : Bool

pub record Led : Type 0 where
  pub port_on : Bool
  pub driven : Bool
  pub toggles : ℕ

pub record Board : Type 0 where
  pub uart : Uart
  pub led : Led
  pub traps : Bool
  pub printed : List Item
  pub was_reset : Bool

-- The baud rate is within 1 % of the nominal one for the clock that was read.
abbrev pub OnRate : Bool → ℕ → Type 0
OnRate pll divider =
    (divider * uart_baud ≤ apb2_clock_hz pll)
    × (apb2_clock_hz pll * 100 ≤ divider * uart_baud * 101)

-- A peripheral is accessed with its clock on, a byte sent only through an enabled UART that is on its
-- rate and before the LED is toggled, the LED toggled only once it is driven, a division by zero made only where it traps, and the
-- reset asked for after ten toggles.
abbrev pub orderly : Rules Op Ans Board
orderly = record { allowed = allowed; after = after }
  where
    allowed : Op → Board → Type 0
    allowed (gpio_init uart_pins) b = b.uart.port_on ≡ true
    allowed (gpio_init led_pin) b = b.led.port_on ≡ true
    allowed (cr1 v) b = b.uart.clock_on ≡ true
    allowed (cr2 v) b = b.uart.clock_on ≡ true
    allowed (cr3 v) b = b.uart.clock_on ≡ true
    allowed (brr v) b = (b.uart.clock_on ≡ true) × (b.uart.enabled ≡ false)
    allowed (send item) b =
        (b.uart.enabled ≡ true) × OnRate b.uart.pll b.uart.divider × (b.led.toggles ≡ 0)
    allowed toggle_led b = b.led.driven ≡ true
    allowed divide_by_zero b = b.traps ≡ true
    allowed system_reset b = b.led.toggles ≡ 10
    allowed _ b = Unit {0}

    after : (op : Op) → Ans op → Board → Board
    after gpioa_clock_on x b = record b { uart = record b.uart { port_on = true } }
    after usart1_clock_on x b = record b { uart = record b.uart { clock_on = true } }
    after gpioc_clock_on x b = record b { led = record b.led { port_on = true } }
    after (gpio_init led_pin) x b = record b { led = record b.led { driven = true } }
    after (cr1 v) x b = record b { uart = record b.uart { enabled = v == cr1_enable } }
    after pll_is_clock x b = record b { uart = record b.uart { pll = x } }
    after (brr v) x b = record b { uart = record b.uart { divider = v } }
    after (send item) x b = record b { printed = b.printed ++ (item ∷ []) }
    after toggle_led x b = record b { led = record b.led { toggles = suc b.led.toggles } }
    after (ccr_or v) x b = record b { traps = v == 2 ^ 4 }
    after system_reset x b = record b { was_reset = true }
    after op x b = b

-- `s_uartReady` is true only where the UART is enabled and on its rate.
abbrev pub Agrees : Bool → Uart → Type 0
Agrees ready u = ready ≡ true → (u.enabled ≡ true) × OnRate u.pll u.divider

-- After `items`: the UART is up, they have come out, and the LED is as it was.
abbrev pub Printed : List Item → Board → Bool → Board → Type 0
Printed items b ready c =
    (ready ≡ true)
    × (c.uart.enabled ≡ true)
    × OnRate c.uart.pll c.uart.divider
    × (c.led ≡ b.led)
    × (c.printed ≡ b.printed ++ items)

raw_uart_init-prints :
    (ready : Bool) (b : Board)
    → Agrees ready b.uart
    → Follows orderly (raw_uart_init ready) b (Printed [] b)
unfolding raw_uart_init
raw_uart_init-prints true b agrees =
    (refl, (agrees refl).0, (agrees refl).1, refl, sym (append-nil b.printed))
raw_uart_init-prints false b agrees = (
  tt,
  λ _. (
    tt,
    λ _. (
      refl,
      λ _. (
        refl,
        λ _. (
          refl,
          λ _. (
            refl,
            λ _. (
              tt,
              each_bool _
                  (
                    (refl, refl),
                    λ _. (
                      refl,
                      λ _. (
                        refl,
                        refl,
                        (omega arith, omega arith),
                        refl,
                        sym (append-nil b.printed),
                      ),
                    ),
                  )
                  (
                    (refl, refl),
                    λ _. (
                      refl,
                      λ _. (
                        refl,
                        refl,
                        (omega arith, omega arith),
                        refl,
                        sym (append-nil b.printed),
                      ),
                    ),
                  ),
            ),
          ),
        ),
      ),
    ),
  ),
)

pub raw_uart_puts-prints :
    (ready : Bool) (item : Item) (b : Board)
    → Agrees ready b.uart
    → b.led.toggles ≡ 0
    → Follows orderly (raw_uart_puts ready item) b (Printed (item ∷ []) b)
unfolding raw_uart_puts
raw_uart_puts-prints ready item b agrees dark =
    Follows-bind orderly (raw_uart_init ready) _ b (Printed [] b) (Printed (item ∷ []) b)
      (raw_uart_init-prints ready b agrees)
      (λ up c (is_up, on, rate, same, out). (
        (on, rate, ap (λ l. l.toggles) same ∙ dark),
        λ _. (is_up, on, rate, same, ap (λ l. l ++ (item ∷ [])) (out ∙ append-nil b.printed)),
      ))

pub puts_all-prints :
    (items : List Item) (ready : Bool) (b : Board)
    → Agrees ready b.uart
    → b.led.toggles ≡ 0
    → Follows orderly
        (puts_all ready items)
        b
        (λ up c. Agrees up c.uart × (c.led ≡ b.led) × (c.printed ≡ b.printed ++ items))
unfolding puts_all
puts_all-prints [] ready b agrees dark = (agrees, refl, sym (append-nil b.printed))
puts_all-prints (item ∷ items) ready b agrees dark =
    Follows-bind orderly (raw_uart_puts ready item) _ b (Printed (item ∷ []) b) _
      (raw_uart_puts-prints ready item b agrees dark)
      (λ up c (is_up, on, rate, same, out).
        rw (sym same, sym (append_assoc b.printed (item ∷ []) items), sym out)
          (puts_all-prints items up c (λ _. (on, rate)) (ap (λ l. l.toggles) same ∙ dark)))
