-- ===== src/Glue/Diskio/Dispatch.antt =====
-- What FatFS sees of the block device that is bound.
use stm32f407vgt.Base.{
  ℕ, ◌≤◌, ◌≡◌, refl, ap, false, Option, none, some, List, [], length, take, arith, ◌==◌,
  if◌then◌else◌,
}
use stm32f407vgt.Pal.Storage.{PalStorageResult, PalStorage}
use stm32f407vgt.Pal.HostDisk
use stm32f407vgt.Pal.HostDisk.{PalHostDisk, offset, hooks}
use stm32f407vgt.Pal.HostDisk.Sectors.{IsValid, read-write}
use stm32f407vgt.Glue.Diskio.{
  Dresult, Command, res_ok, res_notrdy, sta_noinit, fatfs_diskio_drive, to_dresult, disk_status,
  disk_initialize, disk_read, disk_write, disk_ioctl,
}

-- The device that a call for drive `pdrv` goes to.
abbrev pub target : {S : Type 0} → Option (PalStorage S) → ℕ → Option (PalStorage S)
target none pdrv = none
target (some device) pdrv = if pdrv == fatfs_diskio_drive then some device else none

-- With no device behind the drive (nothing is bound, or the drive is not 0) every call of FatFS is
-- refused as not ready, and none touches the device's state.
pub no_device :
    {S : Type 0} (bound : Option (PalStorage S)) (pdrv sector count : ℕ) (buff : List ℕ)
    (cmd : Command) (s : S)
    → target bound pdrv ≡ none
    → (disk_status bound pdrv s ≡ (sta_noinit, s))
      × (disk_initialize bound pdrv s ≡ (sta_noinit, s))
      × (disk_read bound pdrv sector count s ≡ (res_notrdy, [], s))
      × (disk_write bound pdrv buff sector count s ≡ (res_notrdy, s))
      × (disk_ioctl bound pdrv cmd s ≡ ((res_notrdy, none), s))
unfolding disk_status disk_initialize disk_read disk_write disk_ioctl
no_device none pdrv sector count buff cmd s h = (refl, refl, refl, refl, refl)
no_device (some device) pdrv sector count buff cmd s h =
    let other : (pdrv == 0) ≡ false = ground arith in rw other (refl, refl, refl, refl, refl)

to_dresult-ok : (r : PalStorageResult) → to_dresult r ≡ res_ok → r ≡ PalStorageResult.ok
unfolding to_dresult
to_dresult-ok PalStorageResult.ok e = refl
to_dresult-ok PalStorageResult.error e = absurd (cc)
to_dresult-ok PalStorageResult.write_protected e = absurd (cc)
to_dresult-ok PalStorageResult.not_ready e = absurd (cc)
to_dresult-ok PalStorageResult.param_error e = absurd (cc)

translated :
    {S : Type 0} (w : PalStorageResult × S) (s : S)
    → ◌≡◌ {A = Dresult × S} (to_dresult w.0, w.1) (res_ok, s)
    → w ≡ (PalStorageResult.ok, s)
translated (r, s') s e =
    let fine : r ≡ PalStorageResult.ok = to_dresult-ok r (ap (λ x. x.0) e) in
    let same : s' ≡ s = ap (λ x. x.1) e in rw (fine, same) refl

-- Over the host disk: sectors that `disk_write` reports as written, from a buffer that holds them,
-- are what `disk_read` of the same sectors returns.
pub disk_read-disk_write :
    (d d' : PalHostDisk) (bytes : List ℕ) (sector count : ℕ)
    → IsValid d
    → offset count ≤ length bytes
    → disk_write (some hooks) fatfs_diskio_drive bytes sector count (some d) ≡ (res_ok, some d')
    → disk_read (some hooks) fatfs_diskio_drive sector count (some d')
      ≡ (res_ok, take (offset count) bytes, some d')
unfolding disk_write disk_read to_dresult
disk_read-disk_write d d' bytes sector count v enough e =
    let fine : HostDisk.write (some d) (some bytes) sector count ≡ (PalStorageResult.ok, some d') =
      translated (HostDisk.write (some d) (some bytes) sector count) (some d') e in
    let (v', back, others) = read-write d d' bytes sector count v enough fine in rw back refl
