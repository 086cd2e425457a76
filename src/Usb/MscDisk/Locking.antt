-- ===== src/Usb/MscDisk/Locking.antt =====
-- Every call of the USB host library is made under the lock.
use stm32f407vgt.Base.{
  ℕ, ◌+◌, ◌≡◌, refl, inl, inr, Bool, true, false, not, ◌&&◌, Option, none, some, List, [], ◌∷◌,
  ◌++◌, ltb, Bool-cases,
}
use stm32f407vgt.Usb.Host.{
  UsbHost, Call, lock_taken, lock_refused, unlocked, lun_info, unit_ready, read_blocks,
  write_blocks, locked, usb_host_lock,
}
use stm32f407vgt.Usb.MscDisk.{
  MscLun, is_there, is_ready, translate_error, query_capacity, init, status, finish_read,
  transfer_read, read_on, read, finish_write, transfer_write, write_on, write, get_sector_count,
  get_sector_size,
}

-- From a state in which the lock is held or not: the lock is asked for only while it is not held,
-- given back only while it is, every other call is made while it is, and at the end it is free.
abbrev pub disciplined : Bool → List Call → Bool
disciplined held [] = not held
disciplined held (lock_taken ∷ cs) = not held && disciplined true cs
disciplined held (lock_refused ∷ cs) = not held && disciplined false cs
disciplined held (unlocked ∷ cs) = held && disciplined false cs
disciplined held (lun_info ∷ cs) = held && disciplined true cs
disciplined held (unit_ready ∷ cs) = held && disciplined true cs
disciplined held (read_blocks sector count ∷ cs) = held && disciplined true cs
disciplined held (write_blocks sector count ∷ cs) = held && disciplined true cs

disciplined-append :
    (held : Bool) (cs ds : List Call)
    → disciplined held cs ≡ true
    → disciplined false ds ≡ true
    → disciplined held (cs ++ ds) ≡ true
disciplined-append false [] ds e f = f
disciplined-append true [] ds e f = absurd (cc)
disciplined-append false (lock_taken ∷ cs) ds e f = disciplined-append true cs ds e f
disciplined-append true (lock_taken ∷ cs) ds e f = absurd (cc)
disciplined-append false (lock_refused ∷ cs) ds e f = disciplined-append false cs ds e f
disciplined-append true (lock_refused ∷ cs) ds e f = absurd (cc)
disciplined-append false (unlocked ∷ cs) ds e f = absurd (cc)
disciplined-append true (unlocked ∷ cs) ds e f = disciplined-append false cs ds e f
disciplined-append false (lun_info ∷ cs) ds e f = absurd (cc)
disciplined-append true (lun_info ∷ cs) ds e f = disciplined-append true cs ds e f
disciplined-append false (unit_ready ∷ cs) ds e f = absurd (cc)
disciplined-append true (unit_ready ∷ cs) ds e f = disciplined-append true cs ds e f
disciplined-append false (read_blocks sector count ∷ cs) ds e f = absurd (cc)
disciplined-append true (read_blocks sector count ∷ cs) ds e f = disciplined-append true cs ds e f
disciplined-append false (write_blocks sector count ∷ cs) ds e f = absurd (cc)
disciplined-append true (write_blocks sector count ∷ cs) ds e f = disciplined-append true cs ds e f

module _ {S : Type 0} (usb : UsbHost S MscLun) where
  disciplined-locked :
      {A : Type 0} (c : Call) (call : S → A × S) (s : S)
      → disciplined true (c ∷ unlocked ∷ []) ≡ true
      → disciplined false (locked usb c call s).2 ≡ true
  unfolding locked
  disciplined-locked c call s e = elim (Bool-cases (usb_host_lock usb s).0) [
    | inl taken ↦ rw taken e
    | inr refused ↦ rw refused refl
  ]

  disciplined-query_capacity : (s : S) → disciplined false (query_capacity usb s).2 ≡ true
  unfolding query_capacity
  disciplined-query_capacity s = elim (Bool-cases (is_ready (usb.msc_status s))) [
    | inl up ↦ rw up (disciplined-locked lun_info usb.get_lun_info s refl)
    | inr down ↦ rw down refl
  ]

  disciplined-status : (s : S) → disciplined false (status usb s).2 ≡ true
  unfolding status
  disciplined-status s =
      let first = disciplined-query_capacity s in
      let s1 = (query_capacity usb s).1 in
      elim (Bool-cases (is_there (query_capacity usb s).0)) [
        | inl there ↦ rw there (
            disciplined-append false (query_capacity usb s).2
              (locked usb unit_ready usb.unit_is_ready s1).2 first
              (disciplined-locked unit_ready usb.unit_is_ready s1 refl))
        | inr gone ↦ rw gone first
      ]

  disciplined-translate_error :
      (is_write : Bool) (s : S) → disciplined false (translate_error usb is_write s).2 ≡ true
  unfolding translate_error
  disciplined-translate_error is_write s = disciplined-locked lun_info usb.get_lun_info s refl

  disciplined-finish_read :
      (p : Option (Option (List ℕ)) × S × List Call)
      → disciplined false p.2 ≡ true
      → disciplined false (finish_read usb p).3 ≡ true
  unfolding finish_read
  disciplined-finish_read (none, s, calls) e = e
  disciplined-finish_read (some (some bytes), s, calls) e = e
  disciplined-finish_read (some none, s, calls) e =
      disciplined-append false calls (translate_error usb false s).2 e
        (disciplined-translate_error false s)

  disciplined-transfer_read :
      (info : MscLun) (sector count : ℕ) (s : S)
      → disciplined false (transfer_read usb info sector count s).3 ≡ true
  unfolding transfer_read
  disciplined-transfer_read info sector count s =
      elim (Bool-cases (ltb info.block_nbr (sector + count))) [
        | inl past ↦ rw past refl
        | inr inside ↦ rw inside (
            disciplined-finish_read
              (locked usb (read_blocks sector count) (usb.read sector count) s)
              (disciplined-locked (read_blocks sector count) (usb.read sector count) s refl))
      ]

  disciplined-finish_write :
      (p : Option Bool × S × List Call)
      → disciplined false p.2 ≡ true
      → disciplined false (finish_write usb p).2 ≡ true
  unfolding finish_write
  disciplined-finish_write (none, s, calls) e = e
  disciplined-finish_write (some true, s, calls) e = e
  disciplined-finish_write (some false, s, calls) e =
      disciplined-append false calls (translate_error usb true s).2 e
        (disciplined-translate_error true s)

  disciplined-transfer_write :
      (info : MscLun) (bytes : List ℕ) (sector count : ℕ) (s : S)
      → disciplined false (transfer_write usb info bytes sector count s).2 ≡ true
  unfolding transfer_write
  disciplined-transfer_write info bytes sector count s =
      elim (Bool-cases (ltb info.block_nbr (sector + count))) [
        | inl past ↦ rw past refl
        | inr inside ↦ rw inside (
            disciplined-finish_write
              (locked usb (write_blocks sector count) (usb.write sector count bytes) s)
              (disciplined-locked (write_blocks sector count) (usb.write sector count bytes) s
                refl))
      ]

  disciplined-read_on :
      (sector count : ℕ) (q : Option MscLun × S × List Call)
      → disciplined false q.2 ≡ true
      → disciplined false (read_on usb sector count q).3 ≡ true
  unfolding read_on
  disciplined-read_on sector count (none, s, calls) e = e
  disciplined-read_on sector count (some info, s, calls) e =
      disciplined-append false calls (transfer_read usb info sector count s).3 e
        (disciplined-transfer_read info sector count s)

  disciplined-write_on :
      (bytes : List ℕ) (sector count : ℕ) (q : Option MscLun × S × List Call)
      → disciplined false q.2 ≡ true
      → disciplined false (write_on usb bytes sector count q).2 ≡ true
  unfolding write_on
  disciplined-write_on bytes sector count (none, s, calls) e = e
  disciplined-write_on bytes sector count (some info, s, calls) e =
      disciplined-append false calls (transfer_write usb info bytes sector count s).2 e
        (disciplined-transfer_write info bytes sector count s)

  -- Every operation of the device, on every branch, calls the USB host library only while it holds the
  -- lock, asks for the lock only while it does not hold it, and has given it back when it returns;
  -- where the lock is refused it makes no call.
  pub operations_disciplined :
      (bytes : List ℕ) (sector count : ℕ) (s : S)
      → (disciplined false (init usb s).2 ≡ true)
        × (disciplined false (status usb s).2 ≡ true)
        × (disciplined false (read usb sector count s).3 ≡ true)
        × (disciplined false (write usb bytes sector count s).2 ≡ true)
        × (disciplined false (get_sector_count usb s).2 ≡ true)
        × (disciplined false (get_sector_size usb s).2 ≡ true)
  unfolding init read write get_sector_count get_sector_size
  operations_disciplined bytes sector count s =
      let first = disciplined-query_capacity s in
      (
        first,
        disciplined-status s,
        disciplined-read_on sector count (query_capacity usb s) first,
        disciplined-write_on bytes sector count (query_capacity usb s) first,
        first,
        first,
      )
