-- ===== src/Osal/EventFlags/Threadx.antt =====
-- targets/threadx/osal/src/cfuture_sync_ops.c: the events over a group of ThreadX. The conversion of a
-- timeout to ticks is the one of its osal.c, repeated.
use stm32f407vgt.Base.{ℕ, Bool, true, false}
use stm32f407vgt.Osal.EventFlags.{complement}
use stm32f407vgt.Osal.ThreadxQueue.{Ticks, ms_to_ticks}

-- The group, as far as it is called: `flags_get` is with TX_OR_CLEAR, and it and `flags_create` answer
-- whether ThreadX returned TX_SUCCESS.
pub record ThreadxFlags (G : Type 0) : Type 0 where
  pub flags_create : G → Bool × G
  pub flags_set_or : ℕ → G → G
  pub flags_set_and : ℕ → G → G
  pub flags_get : ℕ → Ticks → G → Bool × G

module _ {G : Type 0} (kernel : ThreadxFlags G) where
  open kernel use {flags_create, flags_set_or, flags_set_and, flags_get}

  pub event_destroy : ℕ → G → G
  event_destroy handle g = g

  unfoldable pub event_set : ℕ → G → G
  event_set handle g = flags_set_or handle g

  unfoldable pub event_wait : ℕ → ℕ → G → Bool × G
  event_wait handle timeout g = flags_get handle (ms_to_ticks timeout) g

  unfoldable pub event_reset : ℕ → G → G
  event_reset handle g = flags_set_and (complement handle) g

  -- `cfuture_sync_ops_get`, with `s_initialized` as an argument that comes back.
  pub sync_ops_get : Bool → G → Bool × G
  sync_ops_get true g = (true, g)
  sync_ops_get false g = flags_create g
