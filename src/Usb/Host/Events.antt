-- ===== src/Usb/Host/Events.antt =====
-- The connection state over any sequence of the USB host library's events.
use stm32f407vgt.Base.{◌≡◌, refl, ◌∙◌, List, [], ◌∷◌}
use stm32f407vgt.Usb.Host.{
  UsbHostMscStatus, HostUserEvent, connection, class_active, disconnection, unrecovered_error,
  other, user_process, status_after,
}

abbrev later : HostUserEvent → HostUserEvent → HostUserEvent
later other e = e
later connection e = connection
later class_active e = class_active
later disconnection e = disconnection
later unrecovered_error e = unrecovered_error

-- The last event that is not ignored, if there is one, in a sequence read from its end.
abbrev pub last_event : List HostUserEvent → HostUserEvent
last_event [] = other
last_event (e ∷ es) = later (last_event es) e

user_process-later :
    (last e : HostUserEvent) (status : UsbHostMscStatus)
    → user_process last (user_process e status) ≡ user_process (later last e) status
unfolding user_process
user_process-later other e status = refl
user_process-later connection e status = refl
user_process-later class_active e status = refl
user_process-later disconnection e status = refl
user_process-later unrecovered_error e status = refl

-- After any sequence of events the state is the one that the last event that counts sets: connected
-- for a connection, ready for an activation of the class, disconnected for a disconnection or an
-- unrecovered error; and the state from before if no event counts.
pub status_after_lem :
    (es : List HostUserEvent) (status : UsbHostMscStatus)
    → status_after es status ≡ user_process (last_event es) status
unfolding status_after user_process
status_after_lem [] status = untouched status
  where
    untouched : (status : UsbHostMscStatus) → status ≡ user_process other status
    untouched status = refl
status_after_lem (e ∷ es) status =
    status_after_lem es (user_process e status) ∙ user_process-later (last_event es) e status
