-- ===== src/Usb/MscDisk.antt =====
-- app/src/usb/usbh_msc_disk.c: the USB stick as a block device. Every operation returns, beside its
-- answer, the calls that it made.
pub mod Locking
pub mod Transfers
mod Tests
use stm32f407vgt.Base.{
  ℕ, ◌+◌, Bool, true, false, not, ◌&&◌, Option, none, some, List, [], ◌∷◌, ◌++◌, ltb, ◌==◌,
  if◌then◌else◌,
}
use stm32f407vgt.Pal.Storage.{
  PalStorageResult, PalStorage, ok, error, write_protected, not_ready, param_error,
}
use stm32f407vgt.Storage.Protocol.{storage_block_size}
use stm32f407vgt.Usb.Host.{
  UsbHost, UsbHostMscStatus, disconnected, connected, ready, Call, lun_info, unit_ready,
  read_blocks, write_blocks, locked,
}

-- The additional sense codes that the translation tells apart.
pub data Asc : Type 0 where
  asc_write_protected asc_logical_unit_not_ready asc_medium_not_present : Asc
  asc_not_ready_to_ready_change asc_other : Asc

pub record MscLun : Type 0 where
  pub block_nbr : ℕ
  pub block_size : ℕ
  pub asc : Asc

abbrev pub is_ready : UsbHostMscStatus → Bool
is_ready ready = true
is_ready _ = false

abbrev pub sense_result : Bool → Asc → PalStorageResult
sense_result is_write asc_write_protected = if is_write then write_protected else error
sense_result is_write asc_logical_unit_not_ready = not_ready
sense_result is_write asc_medium_not_present = not_ready
sense_result is_write asc_not_ready_to_ready_change = not_ready
sense_result is_write asc_other = error

-- Of the answer under the lock: no lock, no information, or a sense code.
abbrev pub error_result : Bool → Option (Option MscLun) → PalStorageResult
error_result is_write none = not_ready
error_result is_write (some none) = error
error_result is_write (some (some info)) = sense_result is_write info.asc

abbrev pub supported : Option (Option MscLun) → Option MscLun
supported none = none
supported (some none) = none
supported (some (some info)) = if info.block_size == storage_block_size then some info else none

abbrev pub is_there : Option MscLun → Bool
is_there none = false
is_there (some info) = true

module _ {S : Type 0} (usb : UsbHost S MscLun) where
  open usb use {msc_status, get_lun_info, unit_is_ready}

  unfoldable pub translate_error : Bool → S → PalStorageResult × S × List Call
  translate_error is_write s =
      let (info, s1, calls) = locked usb lun_info get_lun_info s in
      (error_result is_write info, s1, calls)

  -- `outInfo` where the answer is true.
  unfoldable pub query_capacity : S → Option MscLun × S × List Call
  query_capacity s =
      let (info, s1, calls) = locked usb lun_info get_lun_info s in
      if not (is_ready (msc_status s)) then (none, s, []) else (supported info, s1, calls)

  unfoldable pub init : S → Bool × S × List Call
  init s = let (info, s1, calls) = query_capacity s in (is_there info, s1, calls)

  abbrev pub unit_answer : Option Bool → Bool
  unit_answer none = false
  unit_answer (some up) = up

  unfoldable pub status : S → Bool × S × List Call
  status s =
      let (info, s1, calls) = query_capacity s in
      let (up, s2, more) = locked usb unit_ready unit_is_ready s1 in
      if not (is_there info) then (false, s1, calls) else (unit_answer up, s2, calls ++ more)

  -- Behind `USBH_MSC_Read`; the outer `none` is a lock that was refused.
  unfoldable pub finish_read :
      Option (Option (List ℕ)) × S × List Call → PalStorageResult × List ℕ × S × List Call
  finish_read (none, s, calls) = (not_ready, [], s, calls)
  finish_read (some (some bytes), s, calls) = (ok, bytes, s, calls)
  finish_read (some none, s, calls) =
      let (result, s1, more) = translate_error false s in (result, [], s1, calls ++ more)

  unfoldable pub transfer_read : MscLun → ℕ → ℕ → S → PalStorageResult × List ℕ × S × List Call
  transfer_read info sector count s =
      if ltb info.block_nbr (sector + count)
      then (param_error, [], s, [])
      else finish_read (locked usb (read_blocks sector count) (usb.read sector count) s)

  -- Behind the query of the capacity.
  unfoldable pub read_on :
      ℕ → ℕ → Option MscLun × S × List Call → PalStorageResult × List ℕ × S × List Call
  read_on sector count (none, s, calls) = (not_ready, [], s, calls)
  read_on sector count (some info, s, calls) =
      let (result, bytes, s1, more) = transfer_read info sector count s in
      (result, bytes, s1, calls ++ more)

  unfoldable pub read : ℕ → ℕ → S → PalStorageResult × List ℕ × S × List Call
  read sector count s = read_on sector count (query_capacity s)

  unfoldable pub finish_write : Option Bool × S × List Call → PalStorageResult × S × List Call
  finish_write (none, s, calls) = (not_ready, s, calls)
  finish_write (some true, s, calls) = (ok, s, calls)
  finish_write (some false, s, calls) =
      let (result, s1, more) = translate_error true s in (result, s1, calls ++ more)

  unfoldable pub transfer_write : MscLun → List ℕ → ℕ → ℕ → S → PalStorageResult × S × List Call
  transfer_write info bytes sector count s =
      if ltb info.block_nbr (sector + count)
      then (param_error, s, [])
      else finish_write (locked usb (write_blocks sector count) (usb.write sector count bytes) s)

  unfoldable pub write_on :
      List ℕ → ℕ → ℕ → Option MscLun × S × List Call → PalStorageResult × S × List Call
  write_on bytes sector count (none, s, calls) = (not_ready, s, calls)
  write_on bytes sector count (some info, s, calls) =
      let (result, s1, more) = transfer_write info bytes sector count s in
      (result, s1, calls ++ more)

  unfoldable pub write : List ℕ → ℕ → ℕ → S → PalStorageResult × S × List Call
  write bytes sector count s = write_on bytes sector count (query_capacity s)

  pub sync : S → PalStorageResult × S × List Call
  sync s = (ok, s, [])

  abbrev pub nbr : Option MscLun → Option ℕ
  nbr none = none
  nbr (some info) = some info.block_nbr

  abbrev pub size : Option MscLun → Option ℕ
  size none = none
  size (some info) = some info.block_size

  unfoldable pub get_sector_count : S → Option ℕ × S × List Call
  get_sector_count s = let (info, s1, calls) = query_capacity s in (nbr info, s1, calls)

  unfoldable pub get_sector_size : S → Option ℕ × S × List Call
  get_sector_size s = let (info, s1, calls) = query_capacity s in (size info, s1, calls)

  -- `usbhMscDiskInit`, for the layers above, which do not see the calls.
  pub hooks : PalStorage S
  hooks = record {
    init = λ s. let (up, s1, calls) = init s in (up, s1);
    status = λ s. let (up, s1, calls) = status s in (up, s1);
    read = λ sector count s.
        let (result, bytes, s1, calls) = read sector count s in (result, bytes, s1);
    write = λ bytes sector count s.
        let (result, s1, calls) = write bytes sector count s in (result, s1);
    sync = λ s. let (result, s1, calls) = sync s in (result, s1);
    get_sector_count = λ s. let (n, s1, calls) = get_sector_count s in (n, s1);
    get_sector_size = λ s. let (n, s1, calls) = get_sector_size s in (n, s1);
  }
