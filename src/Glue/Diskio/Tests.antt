-- ===== src/Glue/Diskio/Tests.antt =====
-- FatFS's disk calls at concrete inputs, over a host disk of one sector.
use stm32f407vgt.Base.{◌≡◌, refl, true, none, some, [], take, replicate, arith}
use stm32f407vgt.Base.Slices.{overwrite}
use stm32f407vgt.Pal.HostDisk
use stm32f407vgt.Pal.HostDisk.{PalHostDisk, offset, hooks}
use stm32f407vgt.Glue.Diskio.{
  res_ok, res_notrdy, sta_noinit, ctrl_sync, to_dresult, disk_status, disk_initialize, disk_read,
  disk_write, disk_ioctl,
}
use stm32f407vgt.Glue.Diskio.Dispatch.{no_device, disk_read-disk_write}

abbrev disk : PalHostDisk
disk = record { storage = some (replicate 512 0); sector_count = 1; ready = true }

abbrev written : PalHostDisk
written = record disk { storage = some (overwrite 0 (replicate 512 7) (replicate 512 0)) }

no_device_case :
    (disk_status (some hooks) 1 (some disk) ≡ (sta_noinit, some disk))
    × (disk_initialize (some hooks) 1 (some disk) ≡ (sta_noinit, some disk))
    × (disk_read (some hooks) 1 0 1 (some disk) ≡ (res_notrdy, [], some disk))
    × (disk_write (some hooks) 1 [] 0 1 (some disk) ≡ (res_notrdy, some disk))
    × (disk_ioctl (some hooks) 1 ctrl_sync (some disk) ≡ ((res_notrdy, none), some disk))
no_device_case = no_device (some hooks) 1 0 1 [] ctrl_sync (some disk) refl

write-disk : disk_write (some hooks) 0 (replicate 512 7) 0 1 (some disk) ≡ (res_ok, some written)
unfolding disk_write HostDisk.write to_dresult
write-disk = refl

disk_read-disk_write_case :
    disk_read (some hooks) 0 0 1 (some written)
    ≡ (res_ok, take (offset 1) (replicate 512 7), some written)
disk_read-disk_write_case =
    disk_read-disk_write disk written (replicate 512 7) 0 1
      (record { has_memory = λ e. refl; full = λ e. refl }) (omega arith) write-disk
