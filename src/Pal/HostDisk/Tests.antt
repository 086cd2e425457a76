-- ===== src/Pal/HostDisk/Tests.antt =====
-- The host disk at concrete inputs: a disk of two sectors.
use stm32f407vgt.Base.{
  ℕ, ◌+◌, ◌≤◌, ◌≡◌, ◌⊎◌, refl, true, some, List, length, take, replicate, arith,
}
use stm32f407vgt.Base.Slices.{overwrite}
use stm32f407vgt.Pal.Storage.{ok, param_error}
use stm32f407vgt.Pal.HostDisk.{PalHostDisk, offset, init, read, write, create, destroy}
use stm32f407vgt.Pal.HostDisk.Sectors.{
  IsValid, ValidResult, lifecycle-IsValid, read_in_bounds, read-write,
}

abbrev disk : PalHostDisk
disk = record { storage = some (replicate 1024 0); sector_count = 2; ready = true }

abbrev ones : List ℕ
ones = replicate 512 1

abbrev written : PalHostDisk
written = record disk { storage = some (overwrite 512 ones (replicate 1024 0)) }

disk-IsValid : IsValid disk
disk-IsValid = record { has_memory = λ e. refl; full = λ e. refl }

write-disk : write (some disk) (some ones) 1 1 ≡ (ok, some written)
unfolding write
write-disk = refl

write_past_end : write (some disk) (some ones) 2 1 ≡ (param_error, some disk)
unfolding write
write_past_end = refl

read-disk : read (some disk) true 0 1 ≡ (ok, replicate 512 0)
unfolding read
read-disk = refl

lifecycle-IsValid_case :
    ValidResult (create (some disk) 8 true true).1
    × ValidResult (init (some disk)).1
    × ValidResult (destroy (some disk))
lifecycle-IsValid_case = lifecycle-IsValid disk 8 true true disk-IsValid

read_in_bounds_case : (0 + 1 ≤ 2) × (length (replicate {A = ℕ} 512 0) ≡ offset 1)
read_in_bounds_case = read_in_bounds disk true 0 1 (replicate 512 0) disk-IsValid read-disk

read-write_example :
    IsValid written
    × (read (some written) true 1 1 ≡ (ok, take (offset 1) ones))
    × ((s c : ℕ)
        → (s + c ≤ 1) ⊎ (1 + 1 ≤ s)
        → read (some written) true s c ≡ read (some disk) true s c)
read-write_example = read-write disk written ones 1 1 disk-IsValid (omega arith) write-disk
