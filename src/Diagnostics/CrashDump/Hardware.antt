-- ===== src/Diagnostics/CrashDump/Hardware.antt =====
-- app/src/diagnostics/crash_dump.c: the set-up of the UART, the entry of the fault handlers with the
-- reset, the test faults and the early init, as accesses of the peripherals.
use stm32f407vgt.Base.{
  ℕ, zero, suc, ◌+◌, ◌/◌, ◌%◌, ◌^◌, ◌==◌, Bool, true, false, List, [], ◌∷◌, if◌then◌else◌,
}
use stm32f407vgt.Base.Programs.{Program, done, call, ◌>>=◌, ◌>>◌}
use stm32f407vgt.Diagnostics.CrashDump.{Scb, Item, text, capture, report}

pub data Pins : Type 0 where
  uart_pins led_pin : Pins

-- `pll_is_clock` answers whether RCC->CFGR has the PLL as the system clock. `send` is the polled output
-- of a string, or of a prefix and a hex line (Uart). The registers are those of USART1, SCB and IWDG;
-- `shcsr_or` and `ccr_or` set bits.
pub data Op : Type 0 where
  pll_is_clock gpioa_clock_on usart1_clock_on gpioc_clock_on : Op
  gpio_init : Pins → Op
  cr1 cr2 cr3 brr shcsr_or ccr_or kr pr rlr : ℕ → Op
  send : Item → Op
  toggle_led blink_delay system_reset : Op
  divide_by_zero undefined_instruction : Op
  write_word : ℕ → ℕ → Op

abbrev pub Ans : Op → Type 0
Ans pll_is_clock = Bool
Ans _ = Unit {0}

abbrev pub Access : Type 0 → Type 0
Access A = Program Op Ans A

abbrev pub ask : (op : Op) → Access (Ans op)
ask op = call op done

abbrev pub uart_baud : ℕ
uart_baud = 115200

abbrev pub apb2_clock_hz : Bool → ℕ
apb2_clock_hz true = 84000000
apb2_clock_hz false = 16000000

-- USART_CR1_UE | USART_CR1_TE | USART_CR1_RE
abbrev pub cr1_enable : ℕ
cr1_enable = 2 ^ 13 + 2 ^ 3 + 2 ^ 2

-- `s_uartReady` is the argument of these functions, and comes back.
unfoldable pub raw_uart_init : Bool → Access Bool
raw_uart_init true = done true
raw_uart_init false = do
  ask gpioa_clock_on
  ask usart1_clock_on
  ask (gpio_init uart_pins)
  ask (cr1 0)
  ask (cr2 0)
  ask (cr3 0)
  pll ← ask pll_is_clock
  ask (brr ((apb2_clock_hz pll / uart_baud) % 2 ^ 16))
  ask (cr1 cr1_enable)
  done true

unfoldable pub raw_uart_puts : Bool → Item → Access Bool
raw_uart_puts ready item = do up ← raw_uart_init ready; ask (send item); done up

-- The calls of `crashDumpReport`, in order.
unfoldable pub puts_all : Bool → List Item → Access Bool
puts_all ready [] = done ready
puts_all ready (item ∷ items) = do up ← raw_uart_puts ready item; puts_all up items

abbrev pub fault_blink_count : ℕ
fault_blink_count = 10

unfoldable pub blink : ℕ → Access (Unit {0})
blink zero = done tt
blink (suc n) = do ask toggle_led; ask blink_delay; blink n

-- The reset does not return.
unfoldable pub halt : Bool → Access (Unit {0})
halt ready = do
  ask gpioc_clock_on
  ask (gpio_init led_pin)
  raw_uart_puts ready (text "System will reset shortly...\r\n")
  blink fault_blink_count
  ask system_reset

unfoldable pub fault_entry : (ℕ → ℕ) → Scb → ℕ → Bool → Access (Unit {0})
fault_entry memory scb stack_frame ready = do
  up ← puts_all ready (report (capture memory scb stack_frame))
  halt up

abbrev trap_division : Bool → Access (Unit {0})
trap_division ready = do
  raw_uart_puts ready (text "Triggering divide by zero...\r\n")
  ask (ccr_or (2 ^ 4))
  ask divide_by_zero

abbrev write_badly : Bool → Access (Unit {0})
write_badly ready = do
  raw_uart_puts ready (text "Triggering invalid memory write...\r\n")
  ask (write_word 0xCCCCCCCC 0xDEADBEEF)

abbrev run_undefined : Bool → Access (Unit {0})
run_undefined ready = do
  raw_uart_puts ready (text "Triggering undefined instruction...\r\n")
  ask undefined_instruction

abbrev refuse : Bool → Access (Unit {0})
refuse ready = do raw_uart_puts ready (text "Unknown fault type\r\n"); done tt

unfoldable pub trigger_test_fault : ℕ → Bool → Access (Unit {0})
trigger_test_fault fault_type ready =
    if fault_type == 0
    then trap_division ready
    else if fault_type == 1
    then write_badly ready
    else if fault_type == 2
    then run_undefined ready
    else refuse ready

abbrev pub iwdg_prescaler_div256 : ℕ
iwdg_prescaler_div256 = 0x06

abbrev pub iwdg_reload_max : ℕ
iwdg_reload_max = 0x0FFF

abbrev pub iwdg_key_enable_access : ℕ
iwdg_key_enable_access = 0x5555

abbrev pub iwdg_key_refresh : ℕ
iwdg_key_refresh = 0xAAAA

abbrev pub iwdg_key_start : ℕ
iwdg_key_start = 0xCCCC

-- The enable bits of MemManage, BusFault and UsageFault.
abbrev pub shcsr_enable : ℕ
shcsr_enable = 2 ^ 16 + 2 ^ 17 + 2 ^ 18

unfoldable pub early_init : Access (Unit {0})
early_init = do
  ask (shcsr_or shcsr_enable)
  ask (kr iwdg_key_enable_access)
  ask (pr iwdg_prescaler_div256)
  ask (rlr iwdg_reload_max)
  ask (kr iwdg_key_refresh)
  ask (kr iwdg_key_start)
