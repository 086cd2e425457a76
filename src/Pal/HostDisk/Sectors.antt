-- ===== src/Pal/HostDisk/Sectors.antt =====
-- The host disk as an array of sectors: what is written is read back, and nothing lies out of bounds.
use stm32f407vgt.Base.{
  ℕ, ◌+◌, ◌≤◌, ◌≡◌, ◌≢◌, refl, sym, ap, ◌∙◌, ◌⊎◌, inl, inr, Bool, true, false, not, ◌||◌, Option,
  none, some, List, [], length, take, drop, arith, ltb, ◌==◌, if◌then◌else◌, length-take,
  length-drop, length-replicate, Bool-cases,
}
use mathlib.Core.Path.{subst}
use stm32f407vgt.Base.Slices.{
  slice, slice-overwrite, slice-overwrite_before, slice-overwrite_after, length-overwrite_same,
}
use stm32f407vgt.Pal.Storage.{ok, not_ready, param_error}
use stm32f407vgt.Pal.HostDisk.{
  PalHostDisk, offset, buffer, is_some, init, read, write, create, destroy, stored,
}

-- A disk that is ready has its memory, and the memory has a byte for each byte of a sector.
pub record IsValid (d : PalHostDisk) : Type 0 where
  pub has_memory : d.ready ≡ true → is_some d.storage ≡ true
  pub full : is_some d.storage ≡ true → length (buffer d) ≡ offset d.sector_count

abbrev pub ValidResult : Option PalHostDisk → Type 0
ValidResult none = ⊥
ValidResult (some d) = IsValid d

-- A disk that is created, brought up or destroyed is valid.
pub lifecycle-IsValid :
    (d : PalHostDisk) (sectors : ℕ) (has_out memory : Bool)
    → IsValid d
    → ValidResult (create (some d) sectors has_out memory).1
      × ValidResult (init (some d)).1
      × ValidResult (destroy (some d))
unfolding create init destroy
lifecycle-IsValid d sectors has_out memory v = (
  elim (Bool-cases (not has_out || sectors == 0)) [
    | inl bad ↦ rw bad v
    | inr good ↦ elim (Bool-cases memory) [
      | inl there ↦
          rw (good, there)
            (record {
              has_memory = λ e. absurd (cc);
              full = λ e. length-replicate {A = ℕ} (offset sectors) 0;
            })
      | inr gone ↦ rw (good, gone) v
    ]
  ],
  elim (Bool-cases (is_some d.storage)) [
    | inl there ↦ rw there (record { has_memory = λ e. there; full = v.full })
    | inr gone ↦ rw gone v
  ],
  record { has_memory = λ e. absurd (cc); full = λ e. absurd (cc) },
)

-- A read that reports success lies inside the disk and fills all the sectors that it was asked for.
pub read_in_bounds :
    (d : PalHostDisk) (has_buffer : Bool) (sector count : ℕ) (bytes : List ℕ)
    → IsValid d
    → read (some d) has_buffer sector count ≡ (ok, bytes)
    → (sector + count ≤ d.sector_count) × (length bytes ≡ offset count)
unfolding read
read_in_bounds d has_buffer sector count bytes v e = ground (
  arith,
  length-take (offset count) (drop (offset sector) (buffer d)),
  length-drop (offset sector) (buffer d),
)

write_inv :
    (d d' : PalHostDisk) (bytes : List ℕ) (sector count : ℕ)
    → write (some d) (some bytes) sector count ≡ (ok, some d')
    → (count ≢ 0)
      × (d.ready ≡ true)
      × (sector + count ≤ d.sector_count)
      × (d' ≡ record d { storage = some (stored d bytes sector count) })
unfolding write
write_inv d d' bytes sector count e = ground arith

module _ (d : PalHostDisk) (bytes : List ℕ) (sector count : ℕ) (v : IsValid d)
    (enough : offset count ≤ length bytes) (up : d.ready ≡ true)
    (in_range : sector + count ≤ d.sector_count) where
  length-sent : length (take (offset count) bytes) ≡ offset count
  length-sent = omega (arith, length-take (offset count) bytes)

  capacity : length (buffer d) ≡ offset d.sector_count
  capacity = v.full (v.has_memory up)

  fits : offset sector + length (take (offset count) bytes) ≤ length (buffer d)
  fits = omega (arith, length-sent, capacity)

  after : PalHostDisk
  after = record d { storage = some (stored d bytes sector count) }

  after-IsValid : IsValid after
  unfolding after
  after-IsValid = record {
    has_memory = λ e. refl;
    full = λ e.
        length-overwrite_same (offset sector) (take (offset count) bytes) (buffer d)
          (omega (arith, fits)) fits
        ∙ capacity;
  }

  read_same : count ≢ 0 → read (some after) true sector count ≡ (ok, take (offset count) bytes)
  unfolding after read
  read_same some_count =
      let back =
        slice-overwrite (offset sector) (take (offset count) bytes) (buffer d)
          (omega (arith, fits)) in
      let z : (count == 0) ≡ false = ground arith in
      let r : ltb d.sector_count (sector + count) ≡ false = ground arith in
      simp (z, up, r)
        (ap (λ xs. (ok, xs))
          (ap (λ k. slice (offset sector) k (stored d bytes sector count)) (sym length-sent)
            ∙ back))

  read_other :
      (s c : ℕ)
      → (s + c ≤ sector) ⊎ (sector + count ≤ s)
      → read (some after) true s c ≡ read (some d) true s c
  unfolding after read
  read_other s c apart =
      ap
        (λ xs.
          if c == 0
          then (param_error, [])
          else if not d.ready
          then (not_ready, [])
          else if ltb d.sector_count (s + c)
          then (param_error, [])
          else (ok, xs))
        (elim apart [
          | inl before ↦
              slice-overwrite_before (offset sector) (take (offset count) bytes) (buffer d)
                (omega (arith, fits)) (offset s) (offset c) (omega arith)
          | inr behind ↦
              slice-overwrite_after (offset sector) (take (offset count) bytes) (buffer d)
                (omega (arith, fits)) (offset s) (offset c) (omega (arith, length-sent))
        ])

-- After a write that reports success, from a buffer that holds the sectors, the disk is valid, a read
-- of the same sectors returns the bytes that were written, and a read of sectors apart from them
-- answers what it answered before.
pub read-write :
    (d d' : PalHostDisk) (bytes : List ℕ) (sector count : ℕ)
    → IsValid d
    → offset count ≤ length bytes
    → write (some d) (some bytes) sector count ≡ (ok, some d')
    → IsValid d'
      × (read (some d') true sector count ≡ (ok, take (offset count) bytes))
      × ((s c : ℕ)
          → (s + c ≤ sector) ⊎ (sector + count ≤ s)
          → read (some d') true s c ≡ read (some d) true s c)
unfolding after
read-write d d' bytes sector count v enough e =
    let (some_count, up, in_range, same) = write_inv d d' bytes sector count e in
    (
      subst IsValid (sym same) (after-IsValid d bytes sector count v enough up in_range),
      ap (λ r. read (some r) true sector count) same
          ∙ read_same d bytes sector count v enough up in_range some_count,
      λ s c apart.
          ap (λ r. read (some r) true s c) same
          ∙ read_other d bytes sector count v enough up in_range s c apart,
    )
