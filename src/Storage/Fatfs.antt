-- ===== src/Storage/Fatfs.antt =====
-- The calls of the FatFS library that the storage service makes, on one volume and one file. The
-- library itself is external/fatfs; what it does is a parameter, with its documented behaviour as
-- the laws of `FileLaws`.
use stm32f407vgt.Base.Slices.{overwrite}
use stm32f407vgt.Base.{ℕ, ◌≤◌, ◌<◌, ◌≡◌, ◌≢◌, List, length, take, drop}

-- Values of FRESULT that the service tells apart.
abbrev pub fr_ok : ℕ
fr_ok = 0

abbrev pub fr_no_filesystem : ℕ
fr_no_filesystem = 13

pub record Fatfs : Type 1 where
  pub State : Type 0
  pub mount : State → ℕ × State
  pub mkfs : State → ℕ × State
  pub open_file : State → ℕ × State
  pub lseek : ℕ → State → ℕ × State
  pub tell : State → ℕ
  -- The answer, the bytes that it puts in the buffer, whose number is `*br`, and the new state.
  pub read : ℕ → State → ℕ × List ℕ × State
  -- The answer, `*bw` and the new state.
  pub write : List ℕ → State → ℕ × ℕ × State
  pub sync : State → ℕ × State
  pub close : State → State
  pub unmount : State → State

-- The documented effect of the file calls on the bytes of the open file and the read/write pointer.
pub record FileLaws (fs : Fatfs) (content : Fatfs.State fs → List ℕ) : Type 0 where
  -- A seek of a file that is open for writing may grow the file by bytes of any value. It keeps the
  -- bytes that are there, and its pointer stays in the file.
  pub lseek_keeps :
      (ofs : ℕ) (s : Fatfs.State fs)
      → take (length (content s)) (content (fs.lseek ofs s).1) ≡ content s
  pub lseek_reaches :
      (ofs : ℕ) (s : Fatfs.State fs)
      → fs.tell (fs.lseek ofs s).1 ≤ length (content (fs.lseek ofs s).1)
  -- A seek that succeeds and stops short has found the volume full at a cluster boundary, where no
  -- byte can be written.
  pub short_seek_blocks_write :
      (ofs : ℕ) (s : Fatfs.State fs) (bytes : List ℕ)
      → fs.tell (fs.lseek ofs s).1 ≢ ofs
      → 0 < length bytes
      → (fs.write bytes (fs.lseek ofs s).1).1 ≢ length bytes
  -- A write that succeeds in full overwrites the bytes from the pointer on.
  pub write_overwrites :
      (bytes : List ℕ) (s : Fatfs.State fs)
      → (fs.write bytes s).0 ≡ fr_ok
      → (fs.write bytes s).1 ≡ length bytes
      → content (fs.write bytes s).2 ≡ overwrite (fs.tell s) bytes (content s)
  pub read_takes :
      (n : ℕ) (s : Fatfs.State fs)
      → (fs.read n s).0 ≡ fr_ok
      → (fs.read n s).1 ≡ take n (drop (fs.tell s) (content s))
  pub read_keeps : (n : ℕ) (s : Fatfs.State fs) → content (fs.read n s).2 ≡ content s
  pub sync_keeps : (s : Fatfs.State fs) → content (fs.sync s).1 ≡ content s
