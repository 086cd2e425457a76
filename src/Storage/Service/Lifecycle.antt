-- ===== src/Storage/Service/Lifecycle.antt =====
-- The service task over any sequence of events.
use stm32f407vgt.Base.{
  ℕ, suc, ◌+◌, ◌≡◌, refl, inl, inr, Bool, true, false, List, [], ◌∷◌, arith, Bool-cases,
}
use stm32f407vgt.Storage.Protocol.{StorageRequest}
use stm32f407vgt.Storage.Fatfs.{Fatfs}
use stm32f407vgt.Storage.Service.{
  Effect, mount_volume, finish_mount, open_block_file, service_request,
}
use stm32f407vgt.Storage.Service.Requests.{
  volume_lost, resolutions, resolutions-append, service_request-resolves_once,
}
use stm32f407vgt.Storage.Service.Task.{
  Event, stop_asked, idle, arrives, Service, bring_up, serve, on_idle, on_request, tear_down, run,
}

-- The requests that the task takes before it is asked to stop.
abbrev pub taken : List Event → ℕ
taken [] = 0
taken (stop_asked ∷ evs) = 0
taken (idle ∷ evs) = taken evs
taken (arrives r active ∷ evs) = suc (taken evs)

-- A ready volume is mounted and its file open, and what clients see is the flag itself.
pub record IsSound (fs : Fatfs) (v : Service fs) : Type 0 where
  pub has_volume : v.volume_ready ≡ true → v.mounted ≡ true
  pub has_file : v.volume_ready ≡ true → v.file_open ≡ true
  pub seen : v.published ≡ v.volume_ready

module _ (fs : Fatfs) where
  mount_volume-silent :
      (quiet : Bool) (s : Fatfs.State fs) → resolutions (mount_volume fs quiet s).2 ≡ 0
  unfolding mount_volume finish_mount
  mount_volume-silent quiet s = ground arith

  open_block_file-silent : (s : Fatfs.State fs) → resolutions (open_block_file fs s).2 ≡ 0
  unfolding open_block_file
  open_block_file-silent s = ground arith

  bring_up-silent : (quiet : Bool) (v : Service fs) → resolutions (bring_up fs quiet v).1 ≡ 0
  unfolding bring_up
  bring_up-silent quiet v = ground (
    arith,
    mount_volume-silent quiet v.state,
    open_block_file-silent (mount_volume fs quiet v.state).1,
    resolutions-append (mount_volume fs quiet v.state).2
        (open_block_file fs (mount_volume fs quiet v.state).1).2,
  )

  on_idle-silent : (v : Service fs) → resolutions (on_idle fs v).1 ≡ 0
  unfolding on_idle
  on_idle-silent v = ground (arith, bring_up-silent true v)

  serve-resolves :
      (r : StorageRequest) (active : Bool) (p : Service fs × List Effect)
      → resolutions (serve fs r active p).1 ≡ resolutions p.1 + 1
  unfolding serve
  serve-resolves r active (v, es) = omega (
    arith,
    resolutions-append es (service_request fs active v.volume_ready r v.state).2,
    service_request-resolves_once fs active v.volume_ready r v.state,
  )

  on_request-resolves :
      (r : StorageRequest) (active : Bool) (v : Service fs)
      → resolutions (on_request fs r active v).1 ≡ 1
  unfolding on_request
  on_request-resolves r active v = elim (Bool-cases v.volume_ready) [
    | inl up ↦ simp up (serve-resolves r active (v, []))
    | inr down ↦
        simp down
          (omega (arith, serve-resolves r active (bring_up fs false v), bring_up-silent false v))
  ]

  -- Over any run every request that the task takes is answered exactly once, and nothing else is.
  pub run-resolves : (evs : List Event) (v : Service fs) → resolutions (run fs evs v).1 ≡ taken evs
  unfolding run tear_down
  run-resolves [] v = refl
  run-resolves (stop_asked ∷ evs) v = refl
  run-resolves (idle ∷ evs) v = omega (
    arith,
    resolutions-append (on_idle fs v).1 (run fs evs (on_idle fs v).0).1,
    on_idle-silent v,
    run-resolves evs (on_idle fs v).0,
  )
  run-resolves (arrives r active ∷ evs) v = omega (
    arith,
    resolutions-append (on_request fs r active v).1 (run fs evs (on_request fs r active v).0).1,
    on_request-resolves r active v,
    run-resolves evs (on_request fs r active v).0,
  )

  bring_up-has :
      (quiet : Bool) (v : Service fs)
      → let w = (bring_up fs quiet v).0 in
        (w.volume_ready ≡ true → w.mounted ≡ true) × (w.volume_ready ≡ true → w.file_open ≡ true)
  unfolding bring_up
  bring_up-has quiet v = ground arith

  on_idle-IsSound : (v : Service fs) → IsSound fs v → IsSound fs (on_idle fs v).0
  unfolding on_idle
  on_idle-IsSound v h = ground (arith, bring_up-has true v)

  serve-IsSound :
      (r : StorageRequest) (active : Bool) (p : Service fs × List Effect)
      → (p.0.volume_ready ≡ true → p.0.mounted ≡ true)
      → (p.0.volume_ready ≡ true → p.0.file_open ≡ true)
      → IsSound fs (serve fs r active p).0
  unfolding serve
  serve-IsSound r active (v, es) hm hf = record {
    has_volume = λ e. hm ((volume_lost fs active v.volume_ready r v.state).0 e).0;
    has_file = λ e. hf ((volume_lost fs active v.volume_ready r v.state).0 e).0;
    seen = refl;
  }

  on_request-IsSound :
      (r : StorageRequest) (active : Bool) (v : Service fs)
      → IsSound fs v
      → IsSound fs (on_request fs r active v).0
  unfolding on_request
  on_request-IsSound r active v h = elim (Bool-cases v.volume_ready) [
    | inl up ↦ simp up (serve-IsSound r active (v, []) h.has_volume h.has_file)
    | inr down ↦
        let (m, f) = bring_up-has false v in
        simp down (serve-IsSound r active (bring_up fs false v) m f)
  ]

  -- Through any run `storageServiceIsReady` answers true only while the volume is mounted and the
  -- block file is open, and answers what the task itself believes.
  pub run-IsSound : (evs : List Event) (v : Service fs) → IsSound fs v → IsSound fs (run fs evs v).0
  unfolding run tear_down
  run-IsSound [] v h = h
  run-IsSound (stop_asked ∷ evs) v h = record {
    has_volume = h.has_volume;
    has_file = h.has_file;
    seen = h.seen;
  }
  run-IsSound (idle ∷ evs) v h = run-IsSound evs (on_idle fs v).0 (on_idle-IsSound v h)
  run-IsSound (arrives r active ∷ evs) v h =
      run-IsSound evs (on_request fs r active v).0 (on_request-IsSound r active v h)
