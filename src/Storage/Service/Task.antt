-- ===== src/Storage/Service/Task.antt =====
-- The loop of `storageServiceTaskEntry`, one event of its queue at a time.
use stm32f407vgt.Base.{ℕ, Bool, true, false, not, List, [], ◌∷◌, ◌++◌, if◌then◌else◌}
use stm32f407vgt.Storage.Protocol.{StorageRequest}
use stm32f407vgt.Storage.Fatfs.{Fatfs}
use stm32f407vgt.Storage.Service.{
  Effect, log, marked_stopped, task_exit, mount_volume, open_block_file, service_request,
}

-- What the top of the loop finds: a request to stop, an empty queue within the poll time, or a
-- request, with the answer that `cpromise_is_active` will give.
pub data Event : Type 0 where
  stop_asked : Event
  idle : Event
  arrives : StorageRequest → Bool → Event

abbrev pub storage_service_idle_poll_ms : ℕ
storage_service_idle_poll_ms = 1000

abbrev pub storage_service_mount_probe_ms : ℕ
storage_service_mount_probe_ms = 100

-- The task's variables; `published` is `s_volumeReady`.
pub record Service (fs : Fatfs) : Type 0 where
  pub state : Fatfs.State fs
  pub volume_ready : Bool
  pub mounted : Bool
  pub file_open : Bool
  pub published : Bool

module _ (fs : Fatfs) where
  abbrev pub start : Fatfs.State fs → Service fs
  start s = record {
    state = s;
    volume_ready = false;
    mounted = false;
    file_open = false;
    published = false;
  }

  pub poll_ms : Service fs → ℕ
  poll_ms v =
      if v.volume_ready then storage_service_idle_poll_ms else storage_service_mount_probe_ms

  -- The two blocks that mount the volume and then open the file.
  unfoldable pub bring_up : Bool → Service fs → Service fs × List Effect
  bring_up quiet v =
      let (ready, s1, logs) = mount_volume fs quiet v.state in
      if ready
      then (let (opened, s2, more) = open_block_file fs s1 in
          (
            record v { state = s2; volume_ready = opened; mounted = true; file_open = opened },
            logs ++ more,
          ))
      else (record v { state = s1; volume_ready = false }, logs)

  abbrev pub publish : Service fs × List Effect → Service fs × List Effect
  publish (v, es) = (record v { published = v.volume_ready }, es)

  unfoldable pub serve : StorageRequest → Bool → Service fs × List Effect → Service fs × List Effect
  serve r active (v, es) =
      let (ready, s1, more) = service_request fs active v.volume_ready r v.state in
      publish (record v { state = s1; volume_ready = ready }, es ++ more)

  -- One turn of the loop.
  unfoldable pub on_idle : Service fs → Service fs × List Effect
  on_idle v = if not v.volume_ready then publish (bring_up true v) else (v, [])

  unfoldable pub on_request : StorageRequest → Bool → Service fs → Service fs × List Effect
  on_request r active v = serve r active (if not v.volume_ready then bring_up false v else (v, []))

  -- Behind the loop.
  unfoldable pub tear_down : Service fs → Service fs × List Effect
  tear_down v =
      let s1 = if v.file_open then fs.close v.state else v.state in
      let s2 = if v.mounted then fs.unmount s1 else s1 in
      (record v { state = s2 }, log "storage: Servicer stopped" ∷ marked_stopped ∷ task_exit ∷ [])

  -- The task over the events that it meets: it ends at the first request to stop.
  unfoldable pub run : List Event → Service fs → Service fs × List Effect
  run [] v = (v, [])
  run (stop_asked ∷ evs) v = tear_down v
  run (idle ∷ evs) v = let (v1, es) = on_idle v in let (v2, fs') = run evs v1 in (v2, es ++ fs')
  run (arrives r active ∷ evs) v =
      let (v1, es) = on_request r active v in let (v2, fs') = run evs v1 in (v2, es ++ fs')
