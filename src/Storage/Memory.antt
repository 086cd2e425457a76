-- ===== src/Storage/Memory.antt =====
-- A small file system in memory, for tests: the file is a list of bytes, and a seek past its end grows
-- it.
use Prim.Native.Nat.{min}
use stm32f407vgt.Base.{
  ℕ, ◌+◌, ◌-◌, ◌≡◌, refl, ap, List, [], ◌∷◌, ◌++◌, length, take, drop, replicate, arith,
  length-append, length-replicate,
}
use stm32f407vgt.Storage.Fatfs.{Fatfs, FileLaws}
use stm32f407vgt.Base.Slices.{overwrite}

pub record Disk : Type 0 where
  pub bytes : List ℕ
  pub pos : ℕ

abbrev grow : ℕ → List ℕ → List ℕ
grow n xs = xs ++ replicate (n - length xs) 0

abbrev pub memory : Fatfs
memory = record {
  State = Disk;
  mount = λ d. (0, d);
  mkfs = λ d. (0, d);
  open_file = λ d. (0, d);
  lseek = λ ofs d. (0, record { bytes = grow ofs d.bytes; pos = ofs });
  tell = λ d. d.pos;
  read = λ n d.
      (0, take n (drop d.pos d.bytes), record d { pos = d.pos + min n (length d.bytes - d.pos) });
  write = λ bs d.
      (0, length bs, record { bytes = overwrite d.pos bs d.bytes; pos = d.pos + length bs });
  sync = λ d. (0, d);
  close = λ d. d;
  unmount = λ d. d;
}

take-grow : (xs ys : List ℕ) → take (length xs) (xs ++ ys) ≡ xs
take-grow [] ys = refl
take-grow (x ∷ xs) ys = ap (λ zs. x ∷ zs) (take-grow xs ys)

pub memory_laws : FileLaws memory (λ d. d.bytes)
memory_laws = record {
  lseek_keeps = λ ofs d. take-grow d.bytes (replicate (ofs - length d.bytes) 0);
  lseek_reaches = λ ofs d. omega (
    arith,
    length-append d.bytes (replicate (ofs - length d.bytes) 0),
    length-replicate (ofs - length d.bytes) (let z : ℕ = 0 in z),
  );
  short_seek_blocks_write = λ ofs d bs short pos e. absurd (short refl);
  write_overwrites = λ bs d ok all. refl;
  read_takes = λ n d ok. refl;
  read_keeps = λ n d. refl;
  sync_keeps = λ d. refl;
}
