-- ===== src/Usb/Conf/Tests.antt =====
-- Two pipes, one in each direction.
use stm32f407vgt.Base.{ℕ, ◌≡◌, ◌≢◌, some, [], ◌∷◌, arith}
use stm32f407vgt.Usb.Conf.{Channels, usbh_ll_set_toggle, usbh_ll_get_toggle}
use stm32f407vgt.Usb.Conf.Toggles.{usbh_ll_get_toggle-usbh_ll_set_toggle}

abbrev pipes : Channels
pipes =
    record { ep_is_in = 1; toggle_in = 0; toggle_out = 0 }
    ∷ record { ep_is_in = 0; toggle_in = 0; toggle_out = 1 }
    ∷ []

usbh_ll_get_toggle-usbh_ll_set_toggle_case :
    (usbh_ll_get_toggle 0 (usbh_ll_set_toggle 0 1 pipes) ≡ some 1)
    × (◌≢◌ {A = ℕ} 1 0
        → usbh_ll_get_toggle 1 (usbh_ll_set_toggle 0 1 pipes) ≡ usbh_ll_get_toggle 1 pipes)
usbh_ll_get_toggle-usbh_ll_set_toggle_case =
    usbh_ll_get_toggle-usbh_ll_set_toggle 0 1 1 pipes (omega arith)
