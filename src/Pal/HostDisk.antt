-- ===== src/Pal/HostDisk.antt =====
-- targets/host/pal/src/pal_host_disk.c: a block device in memory. A NULL pointer is `none`; the
-- buffer of a read and a write is there or not.
pub mod Sectors
mod Tests
use stm32f407vgt.Base.{
  ℕ, ◌+◌, ◌*◌, ◌^◌, Bool, true, false, not, ◌||◌, ◌&&◌, Option, none, some, List, [], ◌++◌, length,
  take, drop, replicate, ltb, ◌==◌, if◌then◌else◌,
}
use stm32f407vgt.Base.Slices.{overwrite}
use stm32f407vgt.Pal.Storage.{PalStorage, PalStorageResult, ok, not_ready, param_error}

abbrev pub sector_size : ℕ
sector_size = 512

-- `storage` is NULL before `pal_host_disk_create` and after `pal_host_disk_destroy`.
pub record PalHostDisk : Type 0 where
  pub storage : Option (List ℕ)
  pub sector_count : ℕ
  pub ready : Bool

abbrev pub is_some {ℓ} : {A : Type ℓ} → Option A → Bool
is_some none = false
is_some (some x) = true

-- The bytes at `storage`; none through a NULL pointer, which no call below follows.
abbrev pub buffer : PalHostDisk → List ℕ
buffer d = elim d.storage [ none ↦ [] | some bytes ↦ bytes ]

pub init : Option PalHostDisk → Bool × Option PalHostDisk
init none = (false, none)
init (some d) =
    if not (is_some d.storage) then (false, some d) else (true, some (record d { ready = true }))

pub status : Option PalHostDisk → Bool
status none = false
status (some d) = d.ready

-- The sum of the two 32-bit numbers is taken in 64 bits, and the offsets in the 64-bit `size_t` of
-- the host.
abbrev past_end : PalHostDisk → ℕ → ℕ → Bool
past_end d sector count = ltb d.sector_count (sector + count)

abbrev pub offset : ℕ → ℕ
offset sector = sector * sector_size

pub read : Option PalHostDisk → Bool → ℕ → ℕ → PalStorageResult × List ℕ
read none has_buffer sector count = (param_error, [])
read (some d) has_buffer sector count =
    if not has_buffer || count == 0
    then (param_error, [])
    else if not d.ready
    then (not_ready, [])
    else if past_end d sector count
    then (param_error, [])
    else (ok, take (offset count) (drop (offset sector) (buffer d)))

-- `memcpy` of the first `count` sectors of the caller's buffer.
abbrev pub stored : PalHostDisk → List ℕ → ℕ → ℕ → List ℕ
stored d bytes sector count = overwrite (offset sector) (take (offset count) bytes) (buffer d)

unfoldable pub write :
    Option PalHostDisk → Option (List ℕ) → ℕ → ℕ → PalStorageResult × Option PalHostDisk
write none source sector count = (param_error, none)
write (some d) none sector count = (param_error, some d)
write (some d) (some bytes) sector count =
    if count == 0
    then (param_error, some d)
    else if not d.ready
    then (not_ready, some d)
    else if past_end d sector count
    then (param_error, some d)
    else (ok, some (record d { storage = some (stored d bytes sector count) }))

pub sync : Option PalHostDisk → PalStorageResult
sync none = param_error
sync (some d) = if not d.ready then not_ready else ok

pub get_sector_count : Option PalHostDisk → Bool → Option ℕ
get_sector_count none has_out = none
get_sector_count (some d) has_out =
    if not (is_some d.storage) || not has_out then none else some d.sector_count

pub get_sector_size : Option PalHostDisk → Bool → Option ℕ
get_sector_size none has_out = none
get_sector_size (some d) has_out =
    if not (is_some d.storage) || not has_out then none else some sector_size

-- `calloc` hands out zeroed memory or, if `memory` is false, NULL.
pub create : Option PalHostDisk → ℕ → Bool → Bool → Bool × Option PalHostDisk
create none sectors has_out memory = (false, none)
create (some d) sectors has_out memory =
    if not has_out || sectors == 0
    then (false, some d)
    else if not memory
    then (false, some d)
    else (
      true,
      some (record {
        storage = some (replicate (offset sectors) 0);
        sector_count = sectors;
        ready = false;
      }),
    )

pub destroy : Option PalHostDisk → Option PalHostDisk
destroy none = none
destroy (some d) = some (record { storage = none; sector_count = 0; ready = false })

-- The hooks that `pal_host_disk_create` puts in `*outStorage`, with the disk as their context. The
-- callers pass buffers that are there.
abbrev pub hooks : PalStorage (Option PalHostDisk)
hooks = record {
  init = init;
  status = λ d. (status d, d);
  read = λ sector count d. let (result, bytes) = read d true sector count in (result, bytes, d);
  write = λ bytes sector count d. write d (some bytes) sector count;
  sync = λ d. (sync d, d);
  get_sector_count = λ d. (get_sector_count d true, d);
  get_sector_size = λ d. (get_sector_size d true, d);
}
