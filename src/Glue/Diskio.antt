-- ===== src/Glue/Diskio.antt =====
-- app/src/storage/fatfs_diskio.c: FatFS's disk calls over the bound block device. `s_storage` is
-- `none` while nothing is bound; `State` is what the device's `context` points at.
mod Dispatch
mod Tests
use stm32f407vgt.Base.{
  ℕ, Bool, true, false, not, ◌||◌, Option, none, some, List, [], ◌==◌, if◌then◌else◌, ◌%◌, ◌^◌,
}
use stm32f407vgt.Pal.Storage.{PalStorageResult, PalStorage}

pub data Dresult : Type 0 where
  res_ok res_error res_wrprt res_notrdy res_parerr : Dresult

-- `disk_status` and `disk_initialize` answer 0 or STA_NOINIT.
pub data Dstatus : Type 0 where
  ready sta_noinit : Dstatus

-- diskio.h's commands that the switch names; `other` is every other code.
pub data Command : Type 0 where
  ctrl_sync get_sector_count get_sector_size get_block_size other : Command

-- What an ioctl leaves in `*buff`.
abbrev pub Answer : Type 0
Answer = Dresult × Option ℕ

abbrev pub fatfs_diskio_drive : ℕ
fatfs_diskio_drive = 0

unfoldable pub to_dresult : PalStorageResult → Dresult
to_dresult PalStorageResult.ok = res_ok
to_dresult PalStorageResult.write_protected = res_wrprt
to_dresult PalStorageResult.not_ready = res_notrdy
to_dresult PalStorageResult.param_error = res_parerr
to_dresult PalStorageResult.error = res_error

abbrev pub dstatus : Bool → Dstatus
dstatus true = ready
dstatus false = sta_noinit

abbrev pub answer : Option ℕ → Answer
answer none = (res_error, none)
answer (some n) = (res_ok, some n)

-- A size is cut to the 16-bit WORD.
abbrev pub word : Option ℕ → Option ℕ
word none = none
word (some n) = some (n % 2 ^ 16)

module _ {S : Type 0} where
  -- `fatfsDiskioBind`.
  pub bind : PalStorage S → Option (PalStorage S) → Option (PalStorage S)
  bind device s_storage = some device

  pub disk_status : Option (PalStorage S) → ℕ → S → Dstatus × S
  disk_status none pdrv s = (sta_noinit, s)
  disk_status (some device) pdrv s =
      if not (pdrv == fatfs_diskio_drive)
      then (sta_noinit, s)
      else let (up, s') = device.status s in (dstatus up, s')

  pub disk_initialize : Option (PalStorage S) → ℕ → S → Dstatus × S
  disk_initialize none pdrv s = (sta_noinit, s)
  disk_initialize (some device) pdrv s =
      let (done, s') = device.init s in
      let (up, s'') = device.status s' in
      if not (pdrv == fatfs_diskio_drive)
      then (sta_noinit, s)
      else if not done
      then (sta_noinit, s')
      else (dstatus up, s'')

  pub disk_read : Option (PalStorage S) → ℕ → ℕ → ℕ → S → Dresult × List ℕ × S
  disk_read none pdrv sector count s = (res_notrdy, [], s)
  disk_read (some device) pdrv sector count s =
      if not (pdrv == fatfs_diskio_drive)
      then (res_notrdy, [], s)
      else let (result, bytes, s') = device.read sector count s in (to_dresult result, bytes, s')

  unfoldable pub disk_write : Option (PalStorage S) → ℕ → List ℕ → ℕ → ℕ → S → Dresult × S
  disk_write none pdrv buff sector count s = (res_notrdy, s)
  disk_write (some device) pdrv buff sector count s =
      if not (pdrv == fatfs_diskio_drive)
      then (res_notrdy, s)
      else let (result, s') = device.write buff sector count s in (to_dresult result, s')

  abbrev pub ioctl_sector_count : PalStorage S → S → Answer × S
  ioctl_sector_count device s = let (found, s') = device.get_sector_count s in (answer found, s')

  abbrev pub ioctl_sector_size : PalStorage S → S → Answer × S
  ioctl_sector_size device s =
      let (found, s') = device.get_sector_size s in (answer (word found), s')

  abbrev pub ioctl : PalStorage S → Command → S → Answer × S
  ioctl device ctrl_sync s = let (result, s') = device.sync s in ((to_dresult result, none), s')
  ioctl device get_sector_count s = ioctl_sector_count device s
  ioctl device get_sector_size s = ioctl_sector_size device s
  ioctl device get_block_size s = ((res_ok, some 1), s)
  ioctl device other s = ((res_parerr, none), s)

  pub disk_ioctl : Option (PalStorage S) → ℕ → Command → S → Answer × S
  disk_ioctl none pdrv cmd s = ((res_notrdy, none), s)
  disk_ioctl (some device) pdrv cmd s =
      if not (pdrv == fatfs_diskio_drive) then ((res_notrdy, none), s) else ioctl device cmd s
