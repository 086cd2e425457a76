-- ===== src/Core/Logger/Lines.antt =====
-- What reaches the sink: the whole line if it fits in the buffer, and else its beginning.
use stm32f407vgt.Base.{
  ℕ, suc, ◌+◌, ◌-◌, ◌≤◌, ◌<◌, ◌≡◌, refl, sym, ap, ◌∙◌, inl, inr, true, some, List, [], ◌∷◌, ◌++◌,
  length, take, ltb, arith, length-append, length-take, Bool-cases, if◌then◌else◌,
}
use stm32f407vgt.Base.Slices.{take-length}
use stm32f407vgt.Glue.Time.{DateTime, PalTimeSource}
use stm32f407vgt.Core.Logger.{
  logger_max_line_length, LogLevel, event, error, log_level_name, two_digits, four_digits,
  clock_text, date_text, stamp_text, full_line, time_of, log,
}

-- A calendar time of four and two digits.
pub record IsPrintable (t : DateTime) : Type 0 where
  pub year : t.year < 10000
  pub month : t.month < 100
  pub day : t.day < 100
  pub hours : t.hours < 100
  pub minutes : t.minutes < 100
  pub seconds : t.seconds < 100

-- What stands before the message.
abbrev pub header : DateTime → LogLevel → List ℕ
header t level = stamp_text t ++ (91 ∷ (log_level_name level ++ (93 ∷ 32 ∷ [])))

abbrev pub line_end : List ℕ
line_end = 13 ∷ 10 ∷ []

take-append : (xs ys : List ℕ) (k : ℕ) → take (length xs + k) (xs ++ ys) ≡ xs ++ take k ys
take-append [] ys k = let start : 0 + k ≡ k = omega arith in rw start refl
take-append (x ∷ xs) ys k =
    let next : suc (length xs) + k ≡ suc (length xs + k) = omega arith in
    rw next (ap (λ zs. x ∷ zs) (take-append xs ys k))

length-two_digits : (n : ℕ) → n < 100 → length (two_digits n) ≡ 2
unfolding two_digits
length-two_digits n h = let small : ltb n 100 ≡ true = ground arith in rw small refl

length-four_digits : (n : ℕ) → n < 10000 → length (four_digits n) ≡ 4
unfolding four_digits
length-four_digits n h = let small : ltb n 10000 ≡ true = ground arith in rw small refl

-- The cut keeps 95 characters.
cut :
    (line : List ℕ)
    → take
        (if ltb (length line) logger_max_line_length
          then length line
          else logger_max_line_length - 1)
        line
      ≡ take 95 line
cut line = elim (Bool-cases (ltb (length line) logger_max_line_length)) [
  | inl short ↦
      let small : length line ≤ 95 = ground arith in
      rw short (take-length (length line) line (omega arith) ∙ sym (take-length 95 line small))
  | inr long ↦ rw long refl
]

module _ (t : DateTime) (v : IsPrintable t) where
  length-clock_text : length (clock_text t) ≡ 8
  length-clock_text = omega (
    arith,
    length-append (two_digits t.hours) (58 ∷ (two_digits t.minutes ++ (58 ∷ two_digits t.seconds))),
    length-append (two_digits t.minutes) (58 ∷ two_digits t.seconds),
    length-two_digits t.hours v.hours,
    length-two_digits t.minutes v.minutes,
    length-two_digits t.seconds v.seconds,
  )

  length-date_text : length (date_text t) ≡ 19
  length-date_text = omega (
    arith,
    length-append (four_digits t.year)
        (45 ∷ (two_digits t.month ++ (45 ∷ (two_digits t.day ++ (32 ∷ clock_text t))))),
    length-append (two_digits t.month) (45 ∷ (two_digits t.day ++ (32 ∷ clock_text t))),
    length-append (two_digits t.day) (32 ∷ clock_text t),
    length-four_digits t.year v.year,
    length-two_digits t.month v.month,
    length-two_digits t.day v.day,
    length-clock_text,
  )

  length-stamp_text : t.has_date ≡ true → length (stamp_text t) ≡ 22
  length-stamp_text dated =
      rw dated (omega (arith, length-append (date_text t) (93 ∷ 32 ∷ []), length-date_text))

length-log_level_name : (level : LogLevel) → length (log_level_name level) ≡ 5
length-log_level_name event = refl
length-log_level_name error = refl

length-header :
    (t : DateTime) (level : LogLevel)
    → IsPrintable t
    → t.has_date ≡ true
    → length (header t level) ≡ 30
length-header t level v dated = omega (
  arith,
  length-append (stamp_text t) (91 ∷ (log_level_name level ++ (93 ∷ 32 ∷ []))),
  length-append (log_level_name level) (93 ∷ 32 ∷ []),
  length-stamp_text t v dated,
  length-log_level_name level,
)

++-assoc : (xs ys zs : List ℕ) → (xs ++ ys) ++ zs ≡ xs ++ (ys ++ zs)
++-assoc [] ys zs = refl
++-assoc (x ∷ xs) ys zs = ap (λ l. x ∷ l) (++-assoc xs ys zs)

full_line_lem :
    (t : DateTime) (level : LogLevel) (message : List ℕ)
    → full_line t level message ≡ header t level ++ (message ++ line_end)
unfolding full_line
full_line_lem t level message = sym (
    ++-assoc (stamp_text t) (91 ∷ (log_level_name level ++ (93 ∷ 32 ∷ []))) (message ++ line_end)
    ∙ ap (λ l. stamp_text t ++ (91 ∷ l))
        (++-assoc (log_level_name level) (93 ∷ 32 ∷ []) (message ++ line_end)))

-- At a calendar time of four and two digits the sink gets the time stamp, the level and the first 65
-- characters of the message with its line end: a message of up to 63 characters arrives whole, and of
-- a longer one the line end is cut off.
pub log_dated :
    {S : Type 0} (source : PalTimeSource S) (s s' : S) (t : DateTime) (level : LogLevel)
    (message : List ℕ)
    → source.get s ≡ (some t, s')
    → IsPrintable t
    → t.has_date ≡ true
    → log source s level message ≡ (header t level ++ take 65 (message ++ line_end), s')
unfolding log
log_dated source s s' t level message got v dated = rw got (
    ap (λ l. (l, s'))
      (cut (full_line t level message)
        ∙ ap (take 95) (full_line_lem t level message)
        ∙ ap (λ n. take n (header t level ++ (message ++ line_end))) size
        ∙ take-append (header t level) (message ++ line_end) 65))
  where
    size : 95 ≡ length (header t level) + 65
    size = omega (arith, length-header t level v dated)

-- No call of the sink gets more than 95 bytes, whatever the time, the level and the message.
pub log_bound :
    {S : Type 0} (source : PalTimeSource S) (s : S) (level : LogLevel) (message : List ℕ)
    → length (log source s level message).0 ≤ 95
unfolding log
log_bound source s level message =
    let line = full_line (time_of (source.get s).0) level message in
    omega (arith, ap length (cut line), length-take 95 line)
