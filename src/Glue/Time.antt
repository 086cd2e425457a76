-- ===== src/Glue/Time.antt =====
-- app/include/pal/pal_time.h and app/src/storage/fatfs_time.c: the time stamp of a file.
pub mod Fields
mod Tests
use stm32f407vgt.Base.{
  ℕ, Bool, true, false, Option, none, some, if◌then◌else◌, ◌*◌, ◌/◌, ◌%◌, ◌^◌, sub32,
}
use stm32f407vgt.Base.Bits.{bit_or}

pub record DateTime : Type 0 where
  pub has_date : Bool
  pub year : ℕ
  pub month : ℕ
  pub day : ℕ
  pub hours : ℕ
  pub minutes : ℕ
  pub seconds : ℕ

-- `get` of a source, which returns nothing where it answers false; `State` is its `context`.
pub record PalTimeSource (State : Type 0) : Type 0 where
  pub get : State → Option DateTime × State

abbrev pub fallback_year : ℕ
fallback_year = 2026

abbrev pub fallback_month : ℕ
fallback_month = 1

abbrev pub fallback_day : ℕ
fallback_day = 1

-- `(DWORD)field << bits`.
abbrev pub shift_left : ℕ → ℕ → ℕ
shift_left field bits = (field * 2 ^ bits) % 2 ^ 32

abbrev pub or32 : ℕ → ℕ → ℕ
or32 a b = bit_or 32 a b

-- `|` is associated from the right here; no bit depends on that.
unfoldable pub pack_fat_time : ℕ → ℕ → ℕ → ℕ → ℕ → ℕ → ℕ
pack_fat_time year month day hours minutes seconds = or32 (shift_left (sub32 year 1980) 25) (
    or32 (shift_left month 21) (
      or32 (shift_left day 16)
        (or32 (shift_left hours 11) (or32 (shift_left minutes 5) (seconds / 2)))))

unfoldable pub fallback : ℕ
fallback = pack_fat_time fallback_year fallback_month fallback_day 0 0 0

abbrev pub stamp : DateTime → ℕ
stamp now =
    if now.has_date
    then pack_fat_time now.year now.month now.day now.hours now.minutes now.seconds
    else fallback

-- `s_timeSource` is `none` while its `get` is NULL.
pub get_fattime : {S : Type 0} → Option (PalTimeSource S) → S → ℕ × S
get_fattime none s = (fallback, s)
get_fattime (some source) s =
    let (found, s') = source.get s in (elim found [ none ↦ fallback | some now ↦ stamp now ], s')
