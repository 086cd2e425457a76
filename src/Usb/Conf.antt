-- ===== src/Usb/Conf.antt =====
-- app/src/usb/usbh_conf.c: the driver between the USB host library and the HAL's host controller. What
-- only forwards a call is a program of that one call; the pipes' data toggles are state of this file's.
pub mod Toggles
mod Tests
use stm32f407vgt.Base.{
  ℕ, zero, suc, ◌==◌, Bool, true, false, not, Option, none, some, List, [], ◌∷◌, get_elem?, set,
  if◌then◌else◌,
}
use stm32f407vgt.Base.Programs.{Program, done, call, ◌>>=◌, ◌>>◌}

-- Of `HCD_HCTypeDef`, what this file uses.
pub record Channel : Type 0 where
  pub ep_is_in : ℕ
  pub toggle_in : ℕ
  pub toggle_out : ℕ

abbrev pub Channels : Type 0
Channels = List Channel

abbrev pub toggled : ℕ → Channel → Channel
toggled toggle c =
    if not (c.ep_is_in == 0)
    then record c { toggle_in = toggle }
    else record c { toggle_out = toggle }

-- An index past the array is undefined in C: nothing is written, and nothing is read.
unfoldable pub usbh_ll_set_toggle : ℕ → ℕ → Channels → Channels
usbh_ll_set_toggle pipe toggle hc = elim (get_elem? hc pipe) [
  | none ↦ hc
  | some c ↦ set hc pipe (toggled toggle c)
]

abbrev pub toggle_of : Channel → ℕ
toggle_of c = if not (c.ep_is_in == 0) then c.toggle_in else c.toggle_out

unfoldable pub usbh_ll_get_toggle : ℕ → Channels → Option ℕ
usbh_ll_get_toggle pipe hc = elim (get_elem? hc pipe) [ none ↦ none | some c ↦ some (toggle_of c) ]

pub data UsbhSpeed : Type 0 where
  speed_high speed_full speed_low : UsbhSpeed

-- `USBH_LL_GetSpeed`, of the answer of `HAL_HCD_GetCurrentSpeed`.
abbrev pub usbh_ll_get_speed : ℕ → UsbhSpeed
usbh_ll_get_speed current =
    if current == 0
    then speed_high
    else if current == 1
    then speed_full
    else if current == 2
    then speed_low
    else speed_full

-- The fields that `USBH_LL_Init` sets.
pub record HcdInit : Type 0 where
  pub host_channels : ℕ
  pub dma_enable : ℕ
  pub low_power_enable : ℕ
  pub sof_enable : ℕ
  pub vbus_sensing_enable : ℕ
  pub lpm_enable : ℕ

abbrev pub hcd_init_fields : HcdInit
hcd_init_fields = record {
  host_channels = 11;
  dma_enable = 0;
  low_power_enable = 0;
  sof_enable = 0;
  vbus_sensing_enable = 0;
  lpm_enable = 0;
}

-- The calls of the HAL, of the target and of the library. `hcd_init` answers whether the HAL returned
-- HAL_OK. The embedded PHY and full speed are constants of the call.
pub data Op : Type 0 where
  gpioa_clock_on usb_clock_on usb_clock_off irq_init irq_disable error_handler : Op
  hcd_deinit hcd_start hcd_stop reset_port current_frame : Op
  inc_timer connect disconnect port_enabled port_disabled : Op
  gpio_init gpio_deinit : ℕ → Op
  hcd_init : HcdInit → Op
  set_timer hc_halt xfer_count urb_state delay : ℕ → Op
  hc_init submit_request : ℕ → ℕ → ℕ → ℕ → ℕ → ℕ → Op

abbrev pub Ans : Op → Type 0
Ans (hcd_init i) = Bool
Ans current_frame = ℕ
Ans (xfer_count pipe) = ℕ
Ans (urb_state pipe) = ℕ
Ans _ = Unit {0}

abbrev pub Driver : Type 0 → Type 0
Driver A = Program Op Ans A

abbrev pub ask : (op : Op) → Driver (Ans op)
ask op = call op done

-- PA11 and PA12.
abbrev pub usb_pins : ℕ
usb_pins = 0x1800

-- `is_otg_fs` says whether the handle's instance is USB_OTG_FS.
pub hal_hcd_msp_init : Bool → Driver (Unit {0})
hal_hcd_msp_init false = done tt
hal_hcd_msp_init true = do
  ask gpioa_clock_on
  ask (gpio_init usb_pins)
  ask usb_clock_on
  ask irq_init

pub hal_hcd_msp_deinit : Bool → Driver (Unit {0})
hal_hcd_msp_deinit false = done tt
hal_hcd_msp_deinit true = do ask usb_clock_off; ask (gpio_deinit usb_pins); ask irq_disable

-- The return value USBH_OK is `tt`.
pub usbh_ll_init : Driver (Unit {0})
usbh_ll_init = do
  ok ← ask (hcd_init hcd_init_fields)
  if ok then done tt else ask error_handler
  frame ← ask current_frame
  ask (set_timer frame)

pub usbh_ll_deinit : Driver (Unit {0})
usbh_ll_deinit = ask hcd_deinit

pub usbh_ll_start : Driver (Unit {0})
usbh_ll_start = ask hcd_start

pub usbh_ll_stop : Driver (Unit {0})
usbh_ll_stop = ask hcd_stop

pub usbh_ll_reset_port : Driver (Unit {0})
usbh_ll_reset_port = ask reset_port

pub usbh_ll_get_last_xfer_size : ℕ → Driver ℕ
usbh_ll_get_last_xfer_size pipe = ask (xfer_count pipe)

pub usbh_ll_close_pipe : ℕ → Driver (Unit {0})
usbh_ll_close_pipe pipe = ask (hc_halt pipe)

pub usbh_ll_open_pipe : ℕ → ℕ → ℕ → ℕ → ℕ → ℕ → Driver (Unit {0})
usbh_ll_open_pipe pipe epnum address speed ep_type mps =
    ask (hc_init pipe epnum address speed ep_type mps)

pub usbh_ll_activate_pipe : Driver (Unit {0})
usbh_ll_activate_pipe = done tt

-- The buffer is handed on as it is.
pub usbh_ll_submit_urb : ℕ → ℕ → ℕ → ℕ → ℕ → ℕ → Driver (Unit {0})
usbh_ll_submit_urb pipe direction ep_type token size do_ping =
    ask (submit_request pipe direction ep_type token size do_ping)

pub usbh_ll_get_urb_state : ℕ → Driver ℕ
usbh_ll_get_urb_state pipe = ask (urb_state pipe)

-- The callbacks of the HAL.
pub hal_hcd_sof_callback : Driver (Unit {0})
hal_hcd_sof_callback = ask inc_timer

pub hal_hcd_connect_callback : Driver (Unit {0})
hal_hcd_connect_callback = ask connect

pub hal_hcd_disconnect_callback : Driver (Unit {0})
hal_hcd_disconnect_callback = ask disconnect

pub hal_hcd_port_enabled_callback : Driver (Unit {0})
hal_hcd_port_enabled_callback = ask port_enabled

pub hal_hcd_port_disabled_callback : Driver (Unit {0})
hal_hcd_port_disabled_callback = ask port_disabled

pub hal_hcd_hc_notify_urb_change_callback : Driver (Unit {0})
hal_hcd_hc_notify_urb_change_callback = done tt

pub usbh_ll_driver_vbus : Driver (Unit {0})
usbh_ll_driver_vbus = ask (delay 200)

pub usbh_delay : ℕ → Driver (Unit {0})
usbh_delay ms = ask (delay ms)
