-- ===== src/Diagnostics/CrashDump/Capture.antt =====
-- The capture of a stack frame never reads outside SRAM, and the report hides no flag.
use stm32f407vgt.Base.{
  ℕ, ◌+◌, ◌*◌, ◌%◌, ◌^◌, ◌≤◌, ◌<◌, ◌≡◌, refl, inl, inr, true, false, ◌++◌, drop, ◌==◌, arith,
  Bool-cases,
}
use stm32f407vgt.Base.Bits.{bit_and, bit_and_3, bit_and-within}
use stm32f407vgt.Diagnostics.CrashDump.{
  sram_base, sram_size_bytes, Scb, CrashContext, and32, stack_frame_valid, framed, capture, text,
  hex, item_if, any_bits, mem_manage_report, bus_report, usage_report,
}

-- Two memories that agree on the words of SRAM.
abbrev pub AgreeOnSram : (ℕ → ℕ) → (ℕ → ℕ) → Type 0
AgreeOnSram memory other =
    (address : ℕ)
    → sram_base ≤ address
    → address + 4 ≤ sram_base + sram_size_bytes
    → address % 4 ≡ 0
    → memory address ≡ other address

abbrev IsInSram : ℕ → Type 0
IsInSram frame =
    (frame % 4 ≡ 0) × (sram_base ≤ frame) × (frame + 8 * 4 ≤ sram_base + sram_size_bytes)

stack_frame_valid-IsInSram : (frame : ℕ) → stack_frame_valid frame ≡ true → IsInSram frame
unfolding stack_frame_valid
stack_frame_valid-IsInSram frame e = ground (arith, bit_and_3 30 frame)

IsInSram-stack_frame_valid : (frame : ℕ) → IsInSram frame → stack_frame_valid frame ≡ true
unfolding stack_frame_valid
IsInSram-stack_frame_valid frame (aligned, low, high) = ground (arith, bit_and_3 30 frame)

framed-same :
    (memory other : ℕ → ℕ) (scb : Scb) (frame : ℕ)
    → AgreeOnSram memory other
    → IsInSram frame
    → framed memory frame scb ≡ framed other frame scb
framed-same memory other scb frame agree (aligned, low, high) =
    let word : (k : ℕ) → k < 8 → memory (frame + 4 * k) ≡ other (frame + 4 * k) =
      λ k h. agree (frame + 4 * k) (omega arith) (omega arith) (omega arith) in
    let first : memory frame ≡ other frame = agree frame low (omega arith) aligned in
    rw
      (
        first,
        word 1 (omega arith),
        word 2 (omega arith),
        word 3 (omega arith),
        word 4 (omega arith),
        word 5 (omega arith),
        word 6 (omega arith),
        word 7 (omega arith),
      )
      refl

-- Whatever the stack pointer, the capture depends on no memory but the aligned words of SRAM: two
-- memories that agree there give the same context.
pub capture-same :
    (memory other : ℕ → ℕ) (scb : Scb) (stack_frame : ℕ)
    → AgreeOnSram memory other
    → capture memory scb stack_frame ≡ capture other scb stack_frame
unfolding capture
capture-same memory other scb stack_frame agree = elim (Bool-cases (stack_frame == 0)) [
  | inl null ↦ rw null refl
  | inr some_frame ↦ elim (Bool-cases (stack_frame_valid stack_frame)) [
    | inl valid ↦
        rw (some_frame, valid)
          (framed-same memory other scb stack_frame agree
            (stack_frame_valid-IsInSram stack_frame valid))
    | inr invalid ↦ rw (some_frame, invalid) refl
  ]
]

-- A frame whose eight words lie in SRAM, aligned, is captured in full, at its own address.
pub capture_full :
    (memory : ℕ → ℕ) (scb : Scb) (frame : ℕ)
    → (frame % 4 ≡ 0) × (sram_base ≤ frame) × (frame + 8 * 4 ≤ sram_base + sram_size_bytes)
    → capture memory scb frame ≡ framed memory frame scb
unfolding capture
capture_full memory scb frame inside =
    let valid : stack_frame_valid frame ≡ true = IsInSram-stack_frame_valid frame inside in
    let some_frame : (frame == 0) ≡ false = above frame inside.1 in rw (some_frame, valid) refl
  where
    above : (frame : ℕ) → sram_base ≤ frame → (frame == 0) ≡ false
    above frame h = ground arith

any_bits-within :
    (word bits mask : ℕ)
    → and32 bits mask ≡ bits
    → any_bits word mask ≡ false
    → any_bits word bits ≡ false
any_bits-within word bits mask e none_set = ground (arith, bit_and-within 32 word bits mask e)

-- The line of each flag is printed exactly if its bit is set: the heading's guard hides none. (Behind
-- the heading of each of the three groups stand the lines of its flags, whatever the guard.)
pub no_flag_hidden :
    (c : CrashContext)
    → (drop 1 (mem_manage_report c)
        ≡ item_if (any_bits c.cfsr (2 ^ 0)) (text "  -> Instruction access violation\r\n")
          ++ (item_if (any_bits c.cfsr (2 ^ 1)) (text "  -> Data access violation\r\n")
              ++ item_if (any_bits c.cfsr (2 ^ 7)) (hex "  -> MMFAR = 0x" c.mmfar)))
      × (drop 1 (bus_report c)
          ≡ item_if (any_bits c.cfsr (2 ^ 8)) (text "  -> Instruction bus error\r\n")
            ++ (item_if (any_bits c.cfsr (2 ^ 9)) (text "  -> Precise data bus error\r\n")
                ++ (item_if (any_bits c.cfsr (2 ^ 10)) (text "  -> Imprecise data bus error\r\n")
                    ++ item_if (any_bits c.cfsr (2 ^ 15)) (hex "  -> BFAR = 0x" c.bfar))))
      × (drop 1 (usage_report c)
          ≡ item_if (any_bits c.cfsr (2 ^ 16)) (text "  -> Undefined instruction\r\n")
            ++ (item_if (any_bits c.cfsr (2 ^ 17)) (text "  -> Invalid state (EPSR.T)\r\n")
                ++ (item_if (any_bits c.cfsr (2 ^ 18)) (text "  -> Invalid PC (EXC_RETURN)\r\n")
                    ++ (item_if (any_bits c.cfsr (2 ^ 19)) (text "  -> Coprocessor error\r\n")
                        ++ (item_if (any_bits c.cfsr (2 ^ 24)) (text "  -> Unaligned access\r\n")
                            ++ item_if
                                (any_bits c.cfsr (2 ^ 25))
                                (text "  -> Divide by zero\r\n"))))))
unfolding bit_and
no_flag_hidden c = (
  elim (Bool-cases (any_bits c.cfsr 0xFF)) [
    | inl shown ↦ rw shown refl
    | inr hidden ↦
        let off =
          λ (bits : ℕ) (e : and32 bits 0xFF ≡ bits). any_bits-within c.cfsr bits 0xFF e hidden in
        rw (hidden, off (2 ^ 0) refl, off (2 ^ 1) refl, off (2 ^ 7) refl) refl
  ],
  elim (Bool-cases (any_bits c.cfsr 0xFF00)) [
    | inl shown ↦ rw shown refl
    | inr hidden ↦
        let off = λ (bits : ℕ) (e : and32 bits 0xFF00 ≡ bits).
          any_bits-within c.cfsr bits 0xFF00 e hidden in
        rw (hidden, off (2 ^ 8) refl, off (2 ^ 9) refl, off (2 ^ 10) refl, off (2 ^ 15) refl) refl
  ],
  elim (Bool-cases (any_bits c.cfsr 0xFFFF0000)) [
    | inl shown ↦ rw shown refl
    | inr hidden ↦
        let off = λ (bits : ℕ) (e : and32 bits 0xFFFF0000 ≡ bits).
          any_bits-within c.cfsr bits 0xFFFF0000 e hidden in
        rw
          (
            hidden,
            off (2 ^ 16) refl,
            off (2 ^ 17) refl,
            off (2 ^ 18) refl,
            off (2 ^ 19) refl,
            off (2 ^ 24) refl,
            off (2 ^ 25) refl,
          )
          refl
  ],
)
