-- ===== src/Glue/Time/Fields.antt =====
-- What FatFS reads back from the packed time stamp.
use stm32f407vgt.Base.{
  ℕ, ◌+◌, ◌-◌, ◌*◌, ◌/◌, ◌%◌, ◌^◌, ◌≤◌, ◌<◌, ◌≡◌, refl, Bool, true, false, Option, none, some,
  arith, sub32, if◌then◌else◌,
}
use stm32f407vgt.Base.Bits.{bit_or-disjoint}
use stm32f407vgt.Glue.Time.{
  DateTime, PalTimeSource, pack_fat_time, get_fattime, fallback, shift_left, or32, stamp,
}

-- A date and time that the FAT format can hold.
pub record IsFatDate (t : DateTime) : Type 0 where
  pub year_from : 1980 ≤ t.year
  pub year_to : t.year < 2108
  pub month : t.month < 16
  pub day : t.day < 32
  pub hours : t.hours < 32
  pub minutes : t.minutes < 64
  pub seconds : t.seconds < 64

-- The fields of the FAT directory entry, as the FAT specification lays them out: the seconds count
-- in twos.
abbrev pub decode : ℕ → DateTime
decode w = record {
  has_date = true;
  year = w / 2 ^ 25 + 1980;
  month = (w / 2 ^ 21) % 16;
  day = (w / 2 ^ 16) % 32;
  hours = (w / 2 ^ 11) % 32;
  minutes = (w / 2 ^ 5) % 64;
  seconds = 2 * (w % 32);
}

abbrev pub even_second : DateTime → DateTime
even_second t = record t { has_date = true; seconds = t.seconds - t.seconds % 2 }

abbrev pub build_date : DateTime
build_date = record {
  has_date = true;
  year = 2026;
  month = 1;
  day = 1;
  hours = 0;
  minutes = 0;
  seconds = 0;
}

field_or :
    (k field b : ℕ)
    → k ≤ 32
    → b < 2 ^ k
    → field * 2 ^ k < 2 ^ 32
    → or32 (shift_left field k) b ≡ field * 2 ^ k + b
field_or k field b hk hb hf =
    let small : shift_left field k ≡ field * 2 ^ k = omega arith in
    rw small (bit_or-disjoint 32 k field b hb hk hf)

pack_sum :
    (t : DateTime)
    → IsFatDate t
    → pack_fat_time t.year t.month t.day t.hours t.minutes t.seconds
      ≡ (t.year - 1980) * 2 ^ 25
        + (t.month * 2 ^ 21
            + (t.day * 2 ^ 16 + (t.hours * 2 ^ 11 + (t.minutes * 2 ^ 5 + t.seconds / 2))))
unfolding pack_fat_time
pack_sum t v =
    let y : sub32 t.year 1980 ≡ t.year - 1980 = omega (arith, v.year_from, v.year_to) in
    let s =
      field_or 5 t.minutes (t.seconds / 2) (omega arith) (omega (arith, v.seconds))
        (omega (arith, v.minutes)) in
    let h =
      field_or 11 t.hours (t.minutes * 2 ^ 5 + t.seconds / 2) (omega arith)
        (omega (arith, v.seconds, v.minutes)) (omega (arith, v.hours)) in
    let d =
      field_or 16 t.day (t.hours * 2 ^ 11 + (t.minutes * 2 ^ 5 + t.seconds / 2)) (omega arith)
        (omega (arith, v.seconds, v.minutes, v.hours)) (omega (arith, v.day)) in
    let m =
      field_or 21 t.month
        (t.day * 2 ^ 16 + (t.hours * 2 ^ 11 + (t.minutes * 2 ^ 5 + t.seconds / 2))) (omega arith)
        (omega (arith, v.seconds, v.minutes, v.hours, v.day)) (omega (arith, v.month)) in
    let a =
      field_or 25 (t.year - 1980)
        (t.month * 2 ^ 21
          + (t.day * 2 ^ 16 + (t.hours * 2 ^ 11 + (t.minutes * 2 ^ 5 + t.seconds / 2))))
        (omega arith) (omega (arith, v.seconds, v.minutes, v.hours, v.day, v.month))
        (omega (arith, v.year_to)) in
    rw (y, s, h, d, m) a

module _ (y m d h i s : ℕ) (hm : m < 16) (hd : d < 32) (hh : h < 32) (hi : i < 64)
    (hs : s < 32) where
  abbrev packed : ℕ
  packed = y * 2 ^ 25 + (m * 2 ^ 21 + (d * 2 ^ 16 + (h * 2 ^ 11 + (i * 2 ^ 5 + s))))

  packed_year : packed / 2 ^ 25 ≡ y
  packed_year = omega arith

  packed_month : (packed / 2 ^ 21) % 16 ≡ m
  packed_month = omega arith

  packed_day : (packed / 2 ^ 16) % 32 ≡ d
  packed_day = omega arith

  packed_hours : (packed / 2 ^ 11) % 32 ≡ h
  packed_hours = omega arith

  packed_minutes : (packed / 2 ^ 5) % 64 ≡ i
  packed_minutes = omega arith

  packed_seconds : packed % 32 ≡ s
  packed_seconds = omega arith

decode_pack :
    (t : DateTime)
    → IsFatDate t
    → decode (pack_fat_time t.year t.month t.day t.hours t.minutes t.seconds) ≡ even_second t
decode_pack t v =
    let hs : t.seconds / 2 < 32 = omega (arith, v.seconds) in
    let ey : t.year - 1980 + 1980 ≡ t.year = omega (arith, v.year_from) in
    let es : 2 * (t.seconds / 2) ≡ t.seconds - t.seconds % 2 = omega arith in
    rw
      (
        pack_sum t v,
        packed_year (t.year - 1980) t.month t.day t.hours t.minutes (t.seconds / 2) v.month v.day
            v.hours v.minutes hs,
        packed_month (t.year - 1980) t.month t.day t.hours t.minutes (t.seconds / 2) v.month v.day
            v.hours v.minutes hs,
        packed_day (t.year - 1980) t.month t.day t.hours t.minutes (t.seconds / 2) v.month v.day
            v.hours v.minutes hs,
        packed_hours (t.year - 1980) t.month t.day t.hours t.minutes (t.seconds / 2) v.month v.day
            v.hours v.minutes hs,
        packed_minutes (t.year - 1980) t.month t.day t.hours t.minutes (t.seconds / 2) v.month v.day
            v.hours v.minutes hs,
        packed_seconds (t.year - 1980) t.month t.day t.hours t.minutes (t.seconds / 2) v.month v.day
            v.hours v.minutes hs,
        ey,
        es,
      )
      refl

-- The date and time that `get_fattime` is to stamp: that of the source, if it has one, and else a fixed one.
abbrev pub wanted : {S : Type 0} → Option (PalTimeSource S) → S → DateTime
wanted none s = build_date
wanted (some source) s = elim (source.get s).0 [
  | none ↦ build_date
  | some now ↦ if now.has_date then now else build_date
]

build_date-IsFatDate : IsFatDate build_date
build_date-IsFatDate = record {
  year_from = omega arith;
  year_to = omega arith;
  month = omega arith;
  day = omega arith;
  hours = omega arith;
  minutes = omega arith;
  seconds = omega arith;
}

decode-fallback : decode fallback ≡ build_date
unfolding fallback
decode-fallback = decode_pack build_date build_date-IsFatDate

decode_dated :
    (has : Bool) (now : DateTime)
    → IsFatDate (if has then now else build_date)
    → decode (
        if has
        then pack_fat_time now.year now.month now.day now.hours now.minutes now.seconds
        else fallback)
      ≡ even_second (if has then now else build_date)
decode_dated true now v = decode_pack now v
decode_dated false now v = decode-fallback

-- The stamp decodes, by the layout of the FAT directory entry, to the date that the bound source
-- reports, down to the even second, if that date is one that FAT can hold; and to 1 January 2026,
-- midnight, if no source is bound, if the source fails, or if it does not know the date.
pub decode-get_fattime :
    {S : Type 0} (source : Option (PalTimeSource S)) (s : S)
    → IsFatDate (wanted source s)
    → decode (get_fattime source s).0 ≡ even_second (wanted source s)
unfolding get_fattime
decode-get_fattime none s v = decode-fallback
decode-get_fattime (some source) s v = decode_found (source.get s).0 v
  where
    decode_found :
        (found : Option DateTime)
        → IsFatDate
            (elim found [ none ↦ build_date | some now ↦ if now.has_date then now else build_date ])
        → decode (elim found [ none ↦ fallback | some now ↦ stamp now ])
          ≡ even_second (elim found [
            | none ↦ build_date
            | some now ↦ if now.has_date then now else build_date
          ])
    decode_found none v = decode-fallback
    decode_found (some now) v = decode_dated now.has_date now v
