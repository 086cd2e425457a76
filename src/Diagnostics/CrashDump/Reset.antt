-- ===== src/Diagnostics/CrashDump/Reset.antt =====
-- The fault handlers and the test faults on the board: what they print, and the reset.
use stm32f407vgt.Base.{ℕ, ◌≡◌, refl, Bool, true, List, [], ◌∷◌, ◌==◌, inl, inr, Bool-cases}
use stm32f407vgt.Base.Programs.{◌>>◌, Follows, Follows-bind}
use stm32f407vgt.Diagnostics.CrashDump.{Item, text}
use stm32f407vgt.Diagnostics.CrashDump.Hardware.{Access, raw_uart_puts, trigger_test_fault}
use stm32f407vgt.Diagnostics.CrashDump.Board.{Board, orderly, Agrees, Printed, raw_uart_puts-prints}

abbrev pub farewell : Item
farewell = text "System will reset shortly...\r\n"

-- The reset has been asked for after ten toggles, with `items` on the UART.
abbrev pub IsReset : List Item → Board → Type 0
IsReset items c = (c.was_reset ≡ true) × (c.led.toggles ≡ 10) × (c.printed ≡ items)

-- A test fault is announced through a UART that is up, and a division by zero made only where it traps.
trigger_test_fault-announces :
    (fault_type : ℕ) (ready : Bool) (b : Board)
    → Agrees ready b.uart
    → b.led.toggles ≡ 0
    → Follows orderly (trigger_test_fault fault_type ready) b (λ _ c. c.uart.enabled ≡ true)
unfolding trigger_test_fault
trigger_test_fault-announces fault_type ready b agrees dark = elim (Bool-cases (fault_type == 0)) [
  | inl zeroth ↦ rw zeroth (after_line _ _ (λ c on. (tt, λ _. (refl, λ _. on))))
  | inr e ↦ rw e (elim (Bool-cases (fault_type == 1)) [
    | inl first ↦ rw first (after_line _ _ (λ c on. (tt, λ _. on)))
    | inr f ↦ rw f (elim (Bool-cases (fault_type == 2)) [
      | inl second ↦ rw second (after_line _ _ (λ c on. (tt, λ _. on)))
      | inr g ↦ rw g (after_line _ _ (λ c on. on))
    ])
  ])
]
  where
    after_line :
        (item : Item) (m : Access (Unit {0}))
        → ((c : Board) → c.uart.enabled ≡ true → Follows orderly m c (λ _ d. d.uart.enabled ≡ true))
        → Follows orderly (raw_uart_puts ready item >> m) b (λ _ c. c.uart.enabled ≡ true)
    after_line item m next =
        Follows-bind orderly (raw_uart_puts ready item) _ b (Printed (item ∷ []) b) _
          (raw_uart_puts-prints ready item b agrees dark)
          (λ up c (is_up, on, rate, same, out). next c on)
