-- ===== src/Diagnostics/CrashDump/Tests.antt =====
-- The crash dump at concrete inputs.
use stm32f407vgt.Base.{
  ℕ, zero, suc, ◌+◌, ◌*◌, ◌^◌, ◌≤◌, ◌≡◌, refl, Bool, true, false, List, [], ◌∷◌, ◌++◌, drop, arith,
}
use stm32f407vgt.Diagnostics.CrashDump.{
  Scb, CrashContext, capture, framed, hex_line, text, hex, item_if, any_bits, mem_manage_report,
  bus_report, usage_report,
}
use stm32f407vgt.Diagnostics.CrashDump.Capture.{
  AgreeOnSram, capture-same, capture_full, no_flag_hidden,
}
use stm32f407vgt.Diagnostics.CrashDump.Hex.{read_hex, read_hex-hex_line}
use stm32f407vgt.Diagnostics.CrashDump.Uart.{puts, KeepsUp, puts_ends, puts_complete}

abbrev scb : Scb
scb = record { hfsr = 2 ^ 30; cfsr = 2 ^ 25; mmfar = 0; bfar = 0 }

abbrev ones : ℕ → ℕ
ones a = 1

abbrev low_zeros : ℕ → ℕ
low_zeros zero = 0
low_zeros (suc a) = 1

agree : AgreeOnSram ones low_zeros
agree zero low high aligned = absurd (omega arith)
agree (suc a) low high aligned = refl

capture-same_example : capture ones scb 0x20000100 ≡ capture low_zeros scb 0x20000100
capture-same_example = capture-same ones low_zeros scb 0x20000100 agree

capture_full_case : capture ones scb 0x20000100 ≡ framed ones 0x20000100 scb
capture_full_case = capture_full ones scb 0x20000100 (omega arith, omega arith, omega arith)

context : CrashContext
context = framed ones 0x20000100 scb

no_flag_hidden_case :
    (drop 1 (mem_manage_report context)
      ≡ item_if (any_bits context.cfsr (2 ^ 0)) (text "  -> Instruction access violation\r\n")
        ++ (item_if (any_bits context.cfsr (2 ^ 1)) (text "  -> Data access violation\r\n")
            ++ item_if (any_bits context.cfsr (2 ^ 7)) (hex "  -> MMFAR = 0x" context.mmfar)))
    × (drop 1 (bus_report context)
        ≡ item_if (any_bits context.cfsr (2 ^ 8)) (text "  -> Instruction bus error\r\n")
          ++ (item_if (any_bits context.cfsr (2 ^ 9)) (text "  -> Precise data bus error\r\n")
              ++ (item_if
                    (any_bits context.cfsr (2 ^ 10))
                    (text "  -> Imprecise data bus error\r\n")
                  ++ item_if (any_bits context.cfsr (2 ^ 15)) (hex "  -> BFAR = 0x" context.bfar))))
    × (drop 1 (usage_report context)
        ≡ item_if (any_bits context.cfsr (2 ^ 16)) (text "  -> Undefined instruction\r\n")
          ++ (item_if (any_bits context.cfsr (2 ^ 17)) (text "  -> Invalid state (EPSR.T)\r\n")
              ++ (item_if (any_bits context.cfsr (2 ^ 18)) (text "  -> Invalid PC (EXC_RETURN)\r\n")
                  ++ (item_if (any_bits context.cfsr (2 ^ 19)) (text "  -> Coprocessor error\r\n")
                      ++ (item_if
                            (any_bits context.cfsr (2 ^ 24))
                            (text "  -> Unaligned access\r\n")
                          ++ item_if
                              (any_bits context.cfsr (2 ^ 25))
                              (text "  -> Divide by zero\r\n"))))))
no_flag_hidden_case = no_flag_hidden context

read_hex-hex_line_example : read_hex 8 0 (hex_line 0xDEADBEEF) ≡ (0xDEADBEEF, 13 ∷ 10 ∷ [])
read_hex-hex_line_example = read_hex-hex_line 0xDEADBEEF (omega arith)

abbrev never : ℕ → Bool
never n = false

abbrev always : ℕ → Bool
always n = true

always-KeepsUp : KeepsUp always 5
always-KeepsUp n = (0, omega arith, refl)

puts_ends_case :
    ((puts always never 5 (72 ∷ 105 ∷ []) 0).1 ≤ 0 + (2 + 1) * (5 + 1))
    × ((unsent : List ℕ) × ((72 ∷ 105 ∷ []) ≡ (puts always never 5 (72 ∷ 105 ∷ []) 0).0 ++ unsent))
puts_ends_case = puts_ends always never 5 (72 ∷ 105 ∷ []) 0

puts_complete_case : (puts always never 5 (72 ∷ 105 ∷ []) 0).0 ≡ 72 ∷ 105 ∷ []
puts_complete_case = puts_complete always never 5 (72 ∷ 105 ∷ []) 0 always-KeepsUp
