-- ===== src/Usb/MscDisk/Tests.antt =====
-- The USB stick at concrete inputs: a stick of eight blocks whose lock is free.
use stm32f407vgt.Base.{◌≡◌, refl, Bool, true, false, some, [], ◌∷◌}
use stm32f407vgt.Pal.Storage.{ok, param_error}
use stm32f407vgt.Usb.Host.{UsbHost, ready, locked, lock_taken, unlocked, lun_info, read_blocks}
use stm32f407vgt.Usb.MscDisk.{
  MscLun, asc_other, query_capacity, finish_read, transfer_read, read_on, init, status, read, write,
  get_sector_count, get_sector_size,
}
use stm32f407vgt.Usb.MscDisk.Locking.{disciplined, operations_disciplined}
use stm32f407vgt.Usb.MscDisk.Transfers.{MayTransfer, read_write_cleared}

abbrev lun : MscLun
lun = record { block_nbr = 8; block_size = 512; asc = asc_other }

abbrev stick : UsbHost Bool MscLun
stick = record {
  msc_status = λ s. ready;
  lock_created = λ s. true;
  mutex_lock = λ s. (true, s);
  mutex_unlock = λ s. s;
  get_lun_info = λ s. (some lun, s);
  unit_is_ready = λ s. (true, s);
  read = λ sector count s. (some (1 ∷ []), s);
  write = λ sector count bytes s. (true, s);
}

reads : read stick 3 2 false ≡ (
  ok,
  1 ∷ [],
  false,
  lock_taken ∷ lun_info ∷ unlocked ∷ lock_taken ∷ read_blocks 3 2 ∷ unlocked ∷ [],
)
unfolding read query_capacity read_on transfer_read finish_read locked
reads = refl

refuses : read stick 7 2 false ≡ (param_error, [], false, lock_taken ∷ lun_info ∷ unlocked ∷ [])
unfolding read query_capacity read_on transfer_read finish_read locked
refuses = refl

operations_disciplined_example :
    (disciplined false (init stick false).2 ≡ true)
    × (disciplined false (status stick false).2 ≡ true)
    × (disciplined false (read stick 3 2 false).3 ≡ true)
    × (disciplined false (write stick [] 3 2 false).2 ≡ true)
    × (disciplined false (get_sector_count stick false).2 ≡ true)
    × (disciplined false (get_sector_size stick false).2 ≡ true)
operations_disciplined_example = operations_disciplined stick [] 3 2 false

read_write_cleared_example :
    MayTransfer stick false 3 2 (read stick 3 2 false).3
    × MayTransfer stick false 3 2 (write stick [] 3 2 false).2
read_write_cleared_example = read_write_cleared stick false [] 3 2
