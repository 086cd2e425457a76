-- ===== src/Osal/EventFlags/Zephyr.antt =====
-- targets/zephyr/osal/src/cfuture_sync_ops.c: the events over a k_event of Zephyr.
use stm32f407vgt.Base.{ℕ, Bool, true, false, not, ◌==◌, u32_max, if◌then◌else◌}

pub data Timeout : Type 0 where
  no_wait forever : Timeout
  msec : ℕ → Timeout

-- The event object, as far as it is called: `wait` has the mask, the flag `reset` and the timeout, and
-- answers the events that it met, or 0.
pub record ZephyrEvents (G : Type 0) : Type 0 where
  pub init : G → G
  pub post : ℕ → G → G
  pub clear : ℕ → G → G
  pub wait : ℕ → Bool → Timeout → G → ℕ × G

abbrev pub timeout_of : ℕ → Timeout
timeout_of timeout_ms =
    if timeout_ms == 0 then no_wait else if timeout_ms == u32_max then forever else msec timeout_ms

module _ {G : Type 0} (kernel : ZephyrEvents G) where
  open kernel use {init, post, clear, wait}

  pub event_destroy : ℕ → G → G
  event_destroy handle g = g

  unfoldable pub event_set : ℕ → G → G
  event_set handle g = post handle g

  unfoldable pub event_wait : ℕ → ℕ → G → Bool × G
  event_wait handle timeout_ms g =
      let (met, g1) = wait handle true (timeout_of timeout_ms) g in (not (met == 0), g1)

  unfoldable pub event_reset : ℕ → G → G
  event_reset handle g = clear handle g

  -- `cfuture_sync_ops_get`, with `s_initialized` as an argument that comes back.
  pub sync_ops_get : Bool → G → Bool × G
  sync_ops_get true g = (true, g)
  sync_ops_get false g = (true, init g)
