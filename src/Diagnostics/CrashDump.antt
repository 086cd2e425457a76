-- ===== src/Diagnostics/CrashDump.antt =====
-- app/src/diagnostics/crash_dump.c: what a fault handler captures and prints. Memory is a function
-- from addresses to words, and the fault status registers of the SCB are a record.
pub mod Capture
pub mod Hex
pub mod Uart
pub mod Hardware
pub mod Board
pub mod Reset
pub mod Armed
mod Tests
mod HardwareTests
use Prim.Native.String.{String}
use stm32f407vgt.Base.{
  ℕ, zero, suc, ◌+◌, ◌-◌, ◌*◌, ◌/◌, ◌%◌, ◌^◌, Bool, true, false, not, ◌||◌, ◌&&◌, Option, none,
  some, List, [], ◌∷◌, ◌++◌, ltb, ◌==◌, get_elem?, if◌then◌else◌,
}
use stm32f407vgt.Base.Bits.{bit_and}

abbrev pub sram_base : ℕ
sram_base = 0x20000000

abbrev pub sram_size_bytes : ℕ
sram_size_bytes = 128 * 1024

pub record Scb : Type 0 where
  pub hfsr : ℕ
  pub cfsr : ℕ
  pub mmfar : ℕ
  pub bfar : ℕ

pub record CrashContext : Type 0 where
  pub r0 : ℕ
  pub r1 : ℕ
  pub r2 : ℕ
  pub r3 : ℕ
  pub r12 : ℕ
  pub lr : ℕ
  pub pc : ℕ
  pub psr : ℕ
  pub sp : ℕ
  pub hfsr : ℕ
  pub cfsr : ℕ
  pub mmfar : ℕ
  pub bfar : ℕ

abbrev pub and32 : ℕ → ℕ → ℕ
and32 a b = bit_and 32 a b

unfoldable pub stack_frame_valid : ℕ → Bool
stack_frame_valid address =
    if not (and32 address 3 == 0)
    then false
    else not (ltb address sram_base || ltb (sram_base + sram_size_bytes - 8 * 4) address)

-- The eight words of the exception frame, by index.
abbrev pub framed : (ℕ → ℕ) → ℕ → Scb → CrashContext
framed memory frame scb = record {
  r0 = memory frame;
  r1 = memory (frame + 4 * 1);
  r2 = memory (frame + 4 * 2);
  r3 = memory (frame + 4 * 3);
  r12 = memory (frame + 4 * 4);
  lr = memory (frame + 4 * 5);
  pc = memory (frame + 4 * 6);
  psr = memory (frame + 4 * 7);
  sp = frame;
  hfsr = scb.hfsr;
  cfsr = scb.cfsr;
  mmfar = scb.mmfar;
  bfar = scb.bfar;
}

abbrev pub unframed : Scb → CrashContext
unframed scb = record {
  r0 = 0;
  r1 = 0;
  r2 = 0;
  r3 = 0;
  r12 = 0;
  lr = 0;
  pc = 0;
  psr = 0;
  sp = 0;
  hfsr = scb.hfsr;
  cfsr = scb.cfsr;
  mmfar = scb.mmfar;
  bfar = scb.bfar;
}

-- NULL is the address 0.
unfoldable pub capture : (ℕ → ℕ) → Scb → ℕ → CrashContext
capture memory scb stack_frame =
    if not (stack_frame == 0) && not (stack_frame_valid stack_frame)
    then unframed scb
    else if not (stack_frame == 0)
    then framed memory stack_frame scb
    else unframed scb

-- ASCII "0123456789ABCDEF".
abbrev pub hex_digit : ℕ → ℕ
hex_digit d = if ltb d 10 then 48 + d else 55 + d

-- The loop that fills `buf` from its end: `n` digits are left, and `buf` holds those behind them.
unfoldable pub hex_digits : ℕ → ℕ → List ℕ → List ℕ
hex_digits zero value buf = buf
hex_digits (suc n) value buf = hex_digits n (value / 2 ^ 4) (hex_digit (and32 value 0xF) ∷ buf)

-- `buf` up to its terminator, with "\r\n".
unfoldable pub hex_line : ℕ → List ℕ
hex_line value = hex_digits 8 value (13 ∷ 10 ∷ [])

-- What the report prints: a string, or a prefix and a word in hex.
pub data Item : Type 0 where
  text : String → Item
  hex : String → ℕ → Item

-- Appends the item if the condition holds.
abbrev pub item_if : Bool → Item → List Item
item_if b item = if b then item ∷ [] else []

abbrev pub any_bits : ℕ → ℕ → Bool
any_bits word mask = not (and32 word mask == 0)

abbrev pub hfsr_report : CrashContext → List Item
hfsr_report c =
    item_if (any_bits c.hfsr (2 ^ 30)) (text "  -> FORCED: Escalated fault\r\n")
    ++ item_if (any_bits c.hfsr (2 ^ 1)) (text "  -> VECTTBL: Vector table read error\r\n")

abbrev pub mem_manage_report : CrashContext → List Item
mem_manage_report c =
    if any_bits c.cfsr 0xFF
    then text "MemManage Fault:\r\n"
      ∷ (item_if (any_bits c.cfsr (2 ^ 0)) (text "  -> Instruction access violation\r\n")
          ++ (item_if (any_bits c.cfsr (2 ^ 1)) (text "  -> Data access violation\r\n")
              ++ item_if (any_bits c.cfsr (2 ^ 7)) (hex "  -> MMFAR = 0x" c.mmfar)))
    else []

abbrev pub bus_report : CrashContext → List Item
bus_report c =
    if any_bits c.cfsr 0xFF00
    then text "BusFault:\r\n"
      ∷ (item_if (any_bits c.cfsr (2 ^ 8)) (text "  -> Instruction bus error\r\n")
          ++ (item_if (any_bits c.cfsr (2 ^ 9)) (text "  -> Precise data bus error\r\n")
              ++ (item_if (any_bits c.cfsr (2 ^ 10)) (text "  -> Imprecise data bus error\r\n")
                  ++ item_if (any_bits c.cfsr (2 ^ 15)) (hex "  -> BFAR = 0x" c.bfar))))
    else []

abbrev pub usage_report : CrashContext → List Item
usage_report c =
    if any_bits c.cfsr 0xFFFF0000
    then text "UsageFault:\r\n"
      ∷ (item_if (any_bits c.cfsr (2 ^ 16)) (text "  -> Undefined instruction\r\n")
          ++ (item_if (any_bits c.cfsr (2 ^ 17)) (text "  -> Invalid state (EPSR.T)\r\n")
              ++ (item_if (any_bits c.cfsr (2 ^ 18)) (text "  -> Invalid PC (EXC_RETURN)\r\n")
                  ++ (item_if (any_bits c.cfsr (2 ^ 19)) (text "  -> Coprocessor error\r\n")
                      ++ (item_if (any_bits c.cfsr (2 ^ 24)) (text "  -> Unaligned access\r\n")
                          ++ item_if (any_bits c.cfsr (2 ^ 25))
                              (text "  -> Divide by zero\r\n"))))))
    else []

abbrev pub register_dump : CrashContext → List Item
register_dump c =
    hex "Fault PC  = 0x" c.pc
    ∷ hex "Fault LR  = 0x" c.lr
    ∷ text "\r\n"
    ∷ text "--- Register Dump ---\r\n"
    ∷ hex "R0  = 0x" c.r0
    ∷ hex "R1  = 0x" c.r1
    ∷ hex "R2  = 0x" c.r2
    ∷ hex "R3  = 0x" c.r3
    ∷ hex "R12 = 0x" c.r12
    ∷ hex "LR  = 0x" c.lr
    ∷ hex "PC  = 0x" c.pc
    ∷ hex "PSR = 0x" c.psr
    ∷ hex "SP  = 0x" c.sp
    ∷ text "\r\n"
    ∷ text "--- Fault Status ---\r\n"
    ∷ hex "HFSR  = 0x" c.hfsr
    ∷ hex "CFSR  = 0x" c.cfsr
    ∷ []

pub report : CrashContext → List Item
report c =
    text "\r\n\r\n========================================\r\n"
    ∷ text "          HARD FAULT DETECTED\r\n"
    ∷ text "========================================\r\n\r\n"
    ∷ (register_dump c
        ++ (hfsr_report c
            ++ (mem_manage_report c
                ++ (bus_report c
                    ++ (usage_report c
                        ++ (text "\r\n========================================\r\n" ∷ []))))))
