-- ===== src/Storage/Service/Blocks.antt =====
-- The file as an array of blocks: a block that is written is read back, and no other changes.
use native.Mathlib.Decide.{ℕ_discrete}
use mathlib.Core.Path.{subst}
use mathlib.Core.List.{append-nil}
use stm32f407vgt.Base.{
  ℕ, ◌+◌, ◌-◌, ◌*◌, ◌^◌, ◌≤◌, ◌<◌, ◌≡◌, ◌≢◌, refl, sym, ap, ◌∙◌, ◌⊎◌, inl, inr, none, some, List,
  [], ◌∷◌, ◌++◌, length, take, drop, replicate, arith, ltb, u32_max, if◌then◌else◌, length-take,
  length-drop,
}
use stm32f407vgt.Storage.Protocol.{storage_block_size, error_ok, StorageResult}
use stm32f407vgt.Storage.Fatfs.{Fatfs, FileLaws, fr_ok}
use stm32f407vgt.Storage.Service.{compute_block_offset, handle_read, handle_write, finish_read}
use stm32f407vgt.Base.Slices.{
  overwrite, slice, take-length, slice-prefix, slice-overwrite, slice-overwrite_before,
  slice-overwrite_after, length-overwrite,
}

-- A block has an offset exactly if its id is below 2 ^ 23; the offset is then the product itself, and
-- the whole block ends within 4 GiB.
pub compute_block_offset_lem :
    (block_id : ℕ)
    → (compute_block_offset block_id
        ≡ (if ltb block_id (2 ^ 23) then some (block_id * storage_block_size) else none))
      × (block_id < 2 ^ 23 → block_id * storage_block_size + storage_block_size ≤ 2 ^ 32)
unfolding compute_block_offset
compute_block_offset_lem block_id = (ground arith, omega arith)

module _ (fs : Fatfs) where
  open fs use {State, lseek, tell, read, write, sync}

  -- The steps of a write that reports success.
  write_inv :
      (block_id size : ℕ) (bytes : List ℕ) (s s' : State)
      → handle_write fs block_id bytes size s ≡ (error_ok, s')
      → (size ≤ storage_block_size)
        × (block_id * storage_block_size ≤ u32_max)
        × ((write (take size bytes) (lseek (block_id * storage_block_size) s).1).0 ≡ fr_ok)
        × ((write (take size bytes) (lseek (block_id * storage_block_size) s).1).1 ≡ size)
        × (s' ≡ (sync (write (take size bytes) (lseek (block_id * storage_block_size) s).1).2).1)
  unfolding handle_write compute_block_offset
  write_inv block_id size bytes s s' h = ground arith

  -- The steps of a read that reports success.
  read_inv :
      (block_id : ℕ) (s s' : State) {r : StorageResult}
      → handle_read fs block_id s ≡ (error_ok, r, s')
      → let s1 = (lseek (block_id * storage_block_size) s).1 in
        (tell s1 ≡ block_id * storage_block_size)
        × ((read storage_block_size s1).0 ≡ fr_ok)
        × (s' ≡ (read storage_block_size s1).2)
        × (r.block_id ≡ block_id)
        × (r.length ≡ length (read storage_block_size s1).1)
        × (r.bytes
            ≡ (read storage_block_size s1).1
              ++ replicate (storage_block_size - length (read storage_block_size s1).1) 0)
  unfolding handle_read compute_block_offset finish_read
  read_inv block_id s s' h = ground arith

whole : (bytes : List ℕ) → length bytes ≡ storage_block_size → take storage_block_size bytes ≡ bytes
whole bytes full = take-length storage_block_size bytes (omega arith)

nothing_left : (p : ℕ) (xs : List ℕ) → length xs ≤ p → slice p storage_block_size xs ≡ []
nothing_left p xs h =
    no_items (slice p storage_block_size xs)
      (omega (arith, length-take storage_block_size (drop p xs), length-drop p xs))
  where
    no_items : (ys : List ℕ) → length ys ≡ 0 → ys ≡ []
    no_items [] e = refl
    no_items (y ∷ ys) e = absurd (omega arith)

-- A slice that is as full as one that lies inside its list lies inside its own.
length_of_slice :
    (q : ℕ) (xs ys : List ℕ)
    → q + storage_block_size ≤ length xs
    → slice q storage_block_size ys ≡ slice q storage_block_size xs
    → q + storage_block_size ≤ length ys
length_of_slice q xs ys h same = omega (
  arith,
  ap length same,
  length-take storage_block_size (drop q xs),
  length-take storage_block_size (drop q ys),
  length-drop q xs,
  length-drop q ys,
)

-- With the documented behaviour of the file calls, over the bytes of the file.
module _ (fs : Fatfs) (content : Fatfs.State fs → List ℕ) (laws : FileLaws fs content) where
  open fs use {State, lseek, tell, read, write, sync}

  abbrev start : ℕ → ℕ
  start block_id = block_id * storage_block_size

  -- The state after the seek of a write that succeeds, and the bytes that it leaves.
  module _ (block_id size : ℕ) (bytes : List ℕ) (s s' : State)
      (full : length bytes ≡ storage_block_size) (some_bytes : 0 < size)
      (done : handle_write fs block_id bytes size s ≡ (error_ok, s')) where
    sought : State
    sought = (lseek (start block_id) s).1

    length-sent : length (take size bytes) ≡ size
    length-sent =
        omega (arith, length-take size bytes, (write_inv fs block_id size bytes s s' done).0)

    arrives : tell sought ≡ start block_id
    unfolding sought
    arrives = elim (ℕ_discrete (tell sought) (start block_id)) [
      | yes e ↦ e
      | no short ↦ absurd (
          laws.short_seek_blocks_write (start block_id) s (take size bytes) short
            (omega (arith, length-sent))
            ((write_inv fs block_id size bytes s s' done).3 ∙ sym length-sent))
    ]

    content_after : content s' ≡ overwrite (start block_id) (take size bytes) (content sought)
    unfolding sought
    content_after =
        let (_, _, ok, all, last) = write_inv fs block_id size bytes s s' done in
        ap content last
        ∙ laws.sync_keeps _
        ∙ laws.write_overwrites (take size bytes) sought ok (all ∙ sym length-sent)
        ∙ ap (λ p. overwrite p (take size bytes) (content sought)) arrives

    inside : start block_id ≤ length (content sought)
    unfolding sought
    inside = rw (← arrives) (laws.lseek_reaches (start block_id) s)

    -- A write that reports success has stored its bytes at its block, and changed no other byte of the
    -- file as it was.
    pub handle_write_stores :
        (slice (block_id * storage_block_size) size (content s') ≡ take size bytes)
        × ((q n : ℕ)
            → q + n ≤ length (content s)
            → (q + n ≤ block_id * storage_block_size) ⊎ (block_id * storage_block_size + size ≤ q)
            → slice q n (content s') ≡ slice q n (content s))
        × (block_id * storage_block_size + size ≤ length (content s'))
    unfolding sought
    handle_write_stores = (
      rw content_after (
          subst
            (λ k.
              slice (start block_id) k
                (overwrite (start block_id) (take size bytes) (content sought))
              ≡ take size bytes)
            length-sent
            (slice-overwrite (start block_id) (take size bytes) (content sought) inside)),
      (λ q n h side.
          ap (slice q n) content_after
          ∙ elim side [
            | inl before ↦
                slice-overwrite_before (start block_id) (take size bytes) (content sought) inside q
                  n before
            | inr after ↦
                slice-overwrite_after (start block_id) (take size bytes) (content sought) inside q n
                  (omega (arith, length-sent))
          ]
          ∙ slice-prefix q n (content s) (content sought) (laws.lseek_keeps (start block_id) s) h),
      rw content_after (
          omega (
            arith,
            length-sent,
            length-overwrite (start block_id) (take size bytes) (content sought) inside,
          )),
    )

  -- A read that reports success has returned the bytes of its block that the file has after the
  -- seek, and left every byte that the file had.
  read_returns :
      (block_id : ℕ) (s s' : State) {r : StorageResult}
      → handle_read fs block_id s ≡ (error_ok, r, s')
      → block_id * storage_block_size + storage_block_size ≤ length (content s)
      → (r.block_id ≡ block_id)
        × (r.length ≡ storage_block_size)
        × (r.bytes ≡ slice (block_id * storage_block_size) storage_block_size (content s))
        × (take (length (content s)) (content s') ≡ content s)
  read_returns block_id s s' {r} done within =
      let (at, ok, last, id, len, all) = read_inv fs block_id s s' done in
      let s1 : State = (lseek (start block_id) s).1 in
      let got : (read storage_block_size s1).1
          ≡ slice (start block_id) storage_block_size (content s) =
        laws.read_takes storage_block_size s1 ok
        ∙ ap (λ p. slice p storage_block_size (content s1)) at
        ∙ slice-prefix (start block_id) storage_block_size (content s) (content s1)
            (laws.lseek_keeps (start block_id) s) within in
      let size : length (read storage_block_size s1).1 ≡ storage_block_size =
        ap length got
        ∙ omega (
          arith,
          length-take storage_block_size (drop (start block_id) (content s)),
          length-drop (start block_id) (content s),
        ) in
      (
        id,
        len ∙ size,
        all
            ∙ ap (λ k. (read storage_block_size s1).1 ++ replicate (storage_block_size - k) 0) size
            ∙ append-nil _
            ∙ got,
        ap (take (length (content s))) (ap content last ∙ laws.read_keeps storage_block_size s1)
            ∙ laws.lseek_keeps (start block_id) s,
      )

  -- A block that lies wholly past the end of the file is not refused when the seek grows the file up to
  -- it: the read reports success with no bytes and a zeroed buffer, and the file has grown.
  pub read_past_end :
      (block_id : ℕ) (s : State)
      → block_id < 2 ^ 23
      → length (content s) ≤ block_id * storage_block_size
      → let s1 = (lseek (block_id * storage_block_size) s).1 in
        (lseek (block_id * storage_block_size) s).0 ≡ fr_ok
        → tell s1 ≡ block_id * storage_block_size
        → length (content s1) ≡ block_id * storage_block_size
        → (read storage_block_size s1).0 ≡ fr_ok
        → let (code, r, s') = handle_read fs block_id s in
          (code ≡ error_ok)
          × (r.length ≡ 0)
          × (r.bytes ≡ replicate storage_block_size 0)
          × (length (content s') ≡ block_id * storage_block_size)
  unfolding handle_read compute_block_offset finish_read
  read_past_end block_id s small past sought at grown ok =
      let s1 : State = (lseek (start block_id) s).1 in
      let none_left : (read storage_block_size s1).1 ≡ [] =
        laws.read_takes storage_block_size s1 ok
        ∙ ap (λ p. slice p storage_block_size (content s1)) at
        ∙ nothing_left (start block_id) (content s1) (omega arith) in
      ground (arith, none_left, laws.read_keeps storage_block_size s1)

  -- After a write of a whole block that reports success, a read of that block that reports success
  -- returns exactly the bytes that were written, and a read of any other block that the file already
  -- held returns what it held before the write.
  pub read_after_write :
      (block_id other_id : ℕ) (bytes : List ℕ) (s s1 s2 : State) {r : StorageResult}
      → length bytes ≡ storage_block_size
      → handle_write fs block_id bytes storage_block_size s ≡ (error_ok, s1)
      → handle_read fs other_id s1 ≡ (error_ok, r, s2)
      → (other_id ≡ block_id
          → (r.bytes ≡ bytes) × (r.length ≡ storage_block_size) × (r.block_id ≡ block_id))
        × (other_id ≢ block_id
            → other_id * storage_block_size + storage_block_size ≤ length (content s)
            → (r.bytes ≡ slice (other_id * storage_block_size) storage_block_size (content s))
              × (r.length ≡ storage_block_size)
              × (r.block_id ≡ other_id))
  read_after_write block_id other_id bytes s s1 s2 {r} full wrote got =
      let (stored, kept, grown) =
        handle_write_stores block_id storage_block_size bytes s s1 full (omega arith) wrote in
      (
        λ same.
            let (id, len, data_eq, _) = read_returns other_id s1 s2 got (omega arith) in
            (
              data_eq
                  ∙ ap (λ k. slice (k * storage_block_size) storage_block_size (content s1)) same
                  ∙ stored
                  ∙ whole bytes full,
              len,
              id ∙ same,
            ),
        λ differs held.
            let apart : (other_id * storage_block_size + storage_block_size
                  ≤ block_id * storage_block_size)
                ⊎ (block_id * storage_block_size + storage_block_size
                    ≤ other_id * storage_block_size) =
              omega arith in
            let same = kept (other_id * storage_block_size) storage_block_size held apart in
            let longer : other_id * storage_block_size + storage_block_size ≤ length (content s1) =
              omega (
                arith,
                length_of_slice (other_id * storage_block_size) (content s) (content s1) held same,
              ) in
            let (id, len, data_eq, _) = read_returns other_id s1 s2 got longer in
            (data_eq ∙ same, len, id),
      )
