-- ===== src/Usb/Host.antt =====
-- app/src/usb/usb_host.c: the connection state that the USB host library's events drive, and the lock
-- around every call of that library.
pub mod Events
pub mod Process
mod Tests
use stm32f407vgt.Base.{ℕ, Bool, true, false, not, Option, none, some, List, [], ◌∷◌, if◌then◌else◌}

pub data UsbHostMscStatus : Type 0 where
  disconnected connected ready : UsbHostMscStatus

-- The HOST_USER_* event ids; `other` is every id that the switch leaves to its default.
pub data HostUserEvent : Type 0 where
  connection class_active disconnection unrecovered_error other : HostUserEvent

unfoldable pub user_process : HostUserEvent → UsbHostMscStatus → UsbHostMscStatus
user_process connection status = connected
user_process class_active status = ready
user_process disconnection status = disconnected
user_process unrecovered_error status = disconnected
user_process other status = status

-- `s_mscStatus` after a sequence of events.
unfoldable pub status_after : List HostUserEvent → UsbHostMscStatus → UsbHostMscStatus
status_after [] status = status
status_after (e ∷ es) status = status_after es (user_process e status)

-- What the block device calls of the USB host library and of the OS's mutex, over a state of theirs.
-- `mutex_lock` answers false at a timeout.
pub record UsbHost (State Info : Type 0) : Type 0 where
  pub msc_status : State → UsbHostMscStatus
  pub lock_created : State → Bool
  pub mutex_lock : State → Bool × State
  pub mutex_unlock : State → State
  pub get_lun_info : State → Option Info × State
  pub unit_is_ready : State → Bool × State
  pub read : ℕ → ℕ → State → Option (List ℕ) × State
  pub write : ℕ → ℕ → List ℕ → State → Bool × State

-- The calls that are made, for the order in which they are made.
pub data Call : Type 0 where
  lock_taken lock_refused unlocked lun_info unit_ready : Call
  read_blocks write_blocks : ℕ → ℕ → Call

module _ {S I : Type 0} (usb : UsbHost S I) where
  -- `usbHostLock`.
  abbrev pub usb_host_lock : S → Bool × S
  usb_host_lock s = if not (usb.lock_created s) then (false, s) else usb.mutex_lock s

  abbrev pub usb_host_unlock : S → S
  usb_host_unlock s = if usb.lock_created s then usb.mutex_unlock s else s

  -- `if (!usbHostLock()) return ...; x = call(...); usbHostUnlock();`, where `none` is that return.
  unfoldable pub locked : {A : Type 0} → Call → (S → A × S) → S → Option A × S × List Call
  locked c call s =
      let (taken, s1) = usb_host_lock s in
      let (x, s2) = call s1 in
      if not taken
      then (none, s1, lock_refused ∷ [])
      else (some x, usb_host_unlock s2, lock_taken ∷ c ∷ unlocked ∷ [])
