-- ===== src/Storage/Client/Served.antt =====
-- The requester of scenario 1 and the storage service together: a world in which the service takes the
-- requests and the promise library hands its answers over.
use stm32f407vgt.Base.{
  ℕ, zero, suc, ◌≤◌, ==-refl, ◌≡◌, refl, true, some, List, [], ◌∷◌, replicate, length,
  length-replicate, arith,
}
use stm32f407vgt.Base.Programs.{World, run}
use stm32f407vgt.Storage.Protocol.{
  storage_block_size, error_ok, StorageResult, StorageRequest, zero_result,
}
use stm32f407vgt.Storage.Fatfs.{Fatfs, FileLaws}
use stm32f407vgt.Storage.Service.{perform, handle_read, handle_write}
use stm32f407vgt.Storage.Service.Blocks.{read_after_write}
use stm32f407vgt.Storage.Client.{
  Future, Op, Ans, create, send, wait_for, storage, happy_wait_timeout_ms, queue_send_timeout_ms,
  uninitialised, log_scenario_result, write_request, read_request,
}
use stm32f407vgt.Storage.Client.Scenarios.{
  same_bytes, pattern_byte, read_back_scenario, run_happy_path_scenario,
}

-- What the world relies on. A slot is free and a send goes through; a request that the service performs
-- with success, on the file system as it is when the request was sent, completes its future with the
-- service's result within the requester's patience.
pub record IsServed (fs : Fatfs) {S : Type 0} (world : World Op Ans S) (disk : S → Fatfs.State fs)
    : Type 0 where
  pub creates : (s : S) → (f : Future) × ((world create s).0 ≡ some f)
  pub create_keeps : (s : S) → disk (world create s).1 ≡ disk s
  pub sends :
      (r : StorageRequest) (f : Future) (s : S)
      → (world (send r f queue_send_timeout_ms) s).0 ≡ true
  pub completes :
      (r : StorageRequest) (f : Future) (s : S) (result : StorageResult) (d : Fatfs.State fs)
      → perform fs r (disk s) ≡ (error_ok, result, d)
      → let s1 = (world (send r f queue_send_timeout_ms) s).1 in
        let (w, s2) = world (wait_for f happy_wait_timeout_ms uninitialised) s1 in
        (w ≡ record { completed = true; status = storage error_ok; result = result })
        × (disk s2 ≡ d)

same_bytes_refl : (n : ℕ) (xs : List ℕ) → n ≤ length xs → same_bytes n xs xs ≡ true
unfolding same_bytes
same_bytes_refl zero xs h = refl
same_bytes_refl (suc n) [] h = absurd (omega arith)
same_bytes_refl (suc n) (x ∷ xs) h = rw (==-refl x) (same_bytes_refl n xs (omega arith))

abbrev pub pattern : List ℕ
pattern = replicate storage_block_size pattern_byte

matches : (bytes : List ℕ) → bytes ≡ pattern → same_bytes storage_block_size bytes pattern ≡ true
matches bytes same = rw same (
    same_bytes_refl storage_block_size pattern
      (omega (arith, length-replicate storage_block_size pattern_byte)))

module _ (fs : Fatfs) {S : Type 0} (world : World Op Ans S) (disk : S → Fatfs.State fs)
    (served : IsServed fs world disk) where
  read_back_passes :
      (s : S) (r : StorageResult) (d : Fatfs.State fs)
      → handle_read fs 1 (disk s) ≡ (error_ok, r, d)
      → r.bytes ≡ pattern
      → r.length ≡ storage_block_size
      → (s1 : S) × (run world read_back_scenario s
          ≡ run world (log_scenario_result "scenario1" true "write/read roundtrip verified") s1)
        × (disk s1 ≡ d)
  unfolding read_back_scenario perform
  read_back_passes s r d got same size =
      let (f, claimed) = served.creates s in
      let s1 = (world create s).1 in
      let s2 = (world (send (read_request 1) f queue_send_timeout_ms) s1).1 in
      let (answer, after) =
        served.completes (read_request 1) f s1 r d (rw (served.create_keeps s) got) in
      let s3 = (world (wait_for f happy_wait_timeout_ms uninitialised) s2).1 in
      (
        s3,
        rw (claimed, run, served.sends (read_request 1) f s1, answer, size, matches r.bytes same)
            refl,
        after,
      )

  module _ (content : Fatfs.State fs → List ℕ) (laws : FileLaws fs content) where
    -- Where a slot is free, the queue is served and the file system answers the write of block 1 and
    -- then the read of block 1 with success, scenario 1 ends in its report of PASS: its run is the run of
    -- that report from some state, in which the file system is as the read has left it.
    pub run_happy_path_scenario-passes :
        (s : S) (r : StorageResult) (d1 d2 : Fatfs.State fs)
        → handle_write fs 1 pattern storage_block_size (disk s) ≡ (error_ok, d1)
        → handle_read fs 1 d1 ≡ (error_ok, r, d2)
        → (s1 : S) × (run world run_happy_path_scenario s
            ≡ run world (log_scenario_result "scenario1" true "write/read roundtrip verified") s1)
          × (disk s1 ≡ d2)
    unfolding run_happy_path_scenario perform
    run_happy_path_scenario-passes s r d1 d2 wrote got =
        let (f, claimed) = served.creates s in
        let s1 = (world create s).1 in
        let s2 = (world (send (write_request 1 pattern_byte) f queue_send_timeout_ms) s1).1 in
        let (answer, after) =
          served.completes (write_request 1 pattern_byte) f s1 zero_result d1
            (rw (served.create_keeps s, wrote) refl) in
        let s3 = (world (wait_for f happy_wait_timeout_ms uninitialised) s2).1 in
        let (same, _) =
          read_after_write fs content laws 1 1 pattern (disk s) d1 d2
            (length-replicate storage_block_size pattern_byte) wrote got in
        let (bytes_eq, size, _) = same refl in
        let (s4, passed, there) = read_back_passes s3 r d2 (rw after got) bytes_eq size in
        (
          s4,
          rw (claimed, run, served.sends (write_request 1 pattern_byte) f s1, answer) passed,
          there,
        )
