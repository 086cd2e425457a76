-- ===== src/Usb/Host/Tests.antt =====
-- The connection state at a concrete sequence of events.
use stm32f407vgt.Base.{◌≡◌, refl, false, [], ◌∷◌}
use stm32f407vgt.Base.Programs.{Follows}
use stm32f407vgt.Usb.Host.Process.{orderly, process_task_entry, process_task_entry-orderly}
use stm32f407vgt.Usb.Host.{
  ready, disconnected, connection, class_active, other, user_process, status_after,
}
use stm32f407vgt.Usb.Host.Events.{last_event, status_after_lem}

status_after_lem_case :
    status_after (connection ∷ other ∷ class_active ∷ other ∷ []) disconnected
    ≡ user_process (last_event (connection ∷ other ∷ class_active ∷ other ∷ [])) disconnected
status_after_lem_case =
    status_after_lem (connection ∷ other ∷ class_active ∷ other ∷ []) disconnected

plugged_in : status_after (connection ∷ other ∷ class_active ∷ other ∷ []) disconnected ≡ ready
unfolding status_after user_process
plugged_in = refl

process_task_entry-orderly_example :
    Follows orderly
      (process_task_entry 4)
      (record { held = false; waited = 0 })
      (λ _ t. t.held ≡ false)
process_task_entry-orderly_example = process_task_entry-orderly 4
