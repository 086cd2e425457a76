-- ===== src/Usb/Host/Process.antt =====
-- app/src/usb/usb_host.c: the start of the USB host library and the task that pumps it, as the calls
-- that they make.
use Prim.Native.String.{String}
use stm32f407vgt.Base.{
  ℕ, zero, suc, ◌+◌, ◌≤◌, ◌≡◌, refl, Bool, true, false, Option, none, some, arith, if◌then◌else◌,
}
use stm32f407vgt.Base.Programs.{
  Program, done, call, ◌>>=◌, ◌>>◌, Rules, Follows, Follows-bind, each_bool,
}
use stm32f407vgt.Diagnostics.Watchdog.{watchdog_health_timeout_ms}

-- `usbh_init`, `register_class` and `usbh_start` answer whether the call returned USBH_OK; `lock` and
-- `unlock` are `usbHostLock` and `usbHostUnlock`, and `process` is USBH_Process.
pub data Op : Type 0 where
  mutex_create usbh_init register_class usbh_start error_handler lock process unlock exit : Op
  loop_start loop_end should_stop mark_stopped : String → Op
  checkpoint : String → String → Op
  sleep : ℕ → Op

abbrev pub Ans : Op → Type 0
Ans mutex_create = Option ℕ
Ans usbh_init = Bool
Ans register_class = Bool
Ans usbh_start = Bool
Ans lock = Bool
Ans (should_stop name) = Bool
Ans _ = Unit {0}

abbrev pub Host : Type 0 → Type 0
Host A = Program Op Ans A

abbrev pub ask : (op : Op) → Host (Ans op)
ask op = call op done

-- `usbHostLockInit`, with `s_lock` as an argument that comes back.
pub usb_host_lock_init : Option ℕ → Host (Option ℕ)
usb_host_lock_init none = ask mutex_create
usb_host_lock_init (some m) = done (some m)

abbrev pub process_poll_ms : ℕ
process_poll_ms = 10

abbrev pub lock_timeout_ms : ℕ
lock_timeout_ms = 12000

abbrev pub or_error : Bool → Host (Unit {0})
or_error ok = if ok then done tt else ask error_handler

unfoldable pub mx_usb_host_init : Host (Unit {0})
mx_usb_host_init = do
  inited ← ask usbh_init
  or_error inited
  registered ← ask register_class
  or_error registered
  started ← ask usbh_start
  or_error started

abbrev pub task_name : String
task_name = "UsbHostProcess"

-- The calls of one tick under the lock, if it is got in time.
unfoldable pub tick : Host (Unit {0})
tick = do
  ask (checkpoint task_name "locking")
  locked ← ask lock
  elim locked [
    | false ↦ done tt
    | true ↦ do ask (checkpoint task_name "USBH_Process"); ask process; ask unlock
  ]

-- The loop is cut off by fuel: `false` is the answer of one that ran out of it.
unfoldable pub turns : ℕ → Host Bool
turns zero = done false
turns (suc fuel) = do
  ask (loop_start task_name)
  stop ← ask (should_stop task_name)
  elim stop [
    | true ↦ do
      ask (checkpoint task_name "stopped")
      ask (mark_stopped task_name)
      ask exit
      done true
    | false ↦ do tick; ask (loop_end task_name); ask (sleep process_poll_ms); turns fuel
  ]

unfoldable pub process_task_entry : ℕ → Host Bool
process_task_entry fuel = do
  ask (checkpoint task_name "MX_USB_HOST_Init")
  mx_usb_host_init
  turns fuel

-- Whether the lock is held, and the time since the last check-in if every lock and delay takes as long
-- as it may.
pub record Tick : Type 0 where
  pub held : Bool
  pub waited : ℕ

abbrev pub most_ms : Op → ℕ
most_ms lock = lock_timeout_ms
most_ms (sleep ms) = ms
most_ms _ = 0

-- The library is pumped only under the lock, the lock is asked for and given back in turn and never held
-- in a delay or at the end, and no call ends past the watchdog's timeout.
abbrev pub orderly : Rules Op Ans Tick
orderly = record {
  allowed = λ op t. InOrder op t.held × (t.waited + most_ms op ≤ watchdog_health_timeout_ms);
  after = after;
}
  where
    InOrder : Op → Bool → Type 0
    InOrder lock held = held ≡ false
    InOrder process held = held ≡ true
    InOrder unlock held = held ≡ true
    InOrder (sleep ms) held = held ≡ false
    InOrder (loop_start name) held = held ≡ false
    InOrder exit held = held ≡ false
    InOrder _ held = Unit {0}

    after : (op : Op) → Ans op → Tick → Tick
    after lock x t = record { held = x; waited = t.waited + lock_timeout_ms }
    after unlock x t = record t { held = false }
    after (sleep ms) x t = record t { waited = t.waited + ms }
    after (loop_start name) x t = record t { waited = 0 }
    after (loop_end name) x t = record t { waited = 0 }
    after (checkpoint name point) x t = record t { waited = 0 }
    after op x t = t

tick-orderly :
    (t : Tick)
    → t.held ≡ false
    → t.waited ≤ 10
    → Follows orderly tick t (λ _ u. (u.held ≡ false) × (u.waited ≤ 12000))
unfolding tick
tick-orderly t free h = (
  (tt, omega arith),
  λ _. (
    (free, omega arith),
    each_bool _ (refl, omega arith)
        (
          (tt, omega arith),
          λ _. ((refl, omega arith), λ _. ((refl, omega arith), λ _. (refl, omega arith))),
        ),
  ),
)

turns-orderly :
    (fuel : ℕ) (t : Tick)
    → t.held ≡ false
    → t.waited ≤ 10
    → Follows orderly (turns fuel) t (λ _ u. u.held ≡ false)
unfolding turns
turns-orderly zero t free h = free
turns-orderly (suc fuel) t free h = (
  (free, omega arith),
  λ _. (
    (tt, omega arith),
    each_bool _
        (Follows-bind orderly tick _ _ _ _
          (tick-orderly (record t { waited = 0 }) free (omega arith))
          (λ _ u (still, le). (
            (tt, omega arith),
            λ _. (
              (still, omega arith),
              λ _. turns-orderly fuel (record u { waited = 10 }) still (omega arith),
            ),
          )))
        ((tt, omega arith), λ _. ((tt, omega arith), λ _. ((free, omega arith), λ _. free))),
  ),
)

or_error-orderly :
    {B : Type 0} (ok : Bool) (k : Host B) (t : Tick) (Q : B → Tick → Type 0)
    → t.waited ≤ 10
    → Follows orderly k t Q
    → Follows orderly (or_error ok >> k) t Q
or_error-orderly true k t Q h next = next
or_error-orderly false k t Q h next = ((tt, omega arith), λ _. next)

mx_usb_host_init-orderly :
    (t : Tick) → t.waited ≤ 10 → Follows orderly mx_usb_host_init t (λ _ u. u ≡ t)
unfolding mx_usb_host_init
mx_usb_host_init-orderly t h = (
  (tt, omega arith),
  λ a. or_error-orderly a _ t _ h (
    (tt, omega arith),
    λ b.
        or_error-orderly b _ t _ h
          ((tt, omega arith), each_bool _ ((tt, omega arith), λ _. refl) refl),
  ),
)

-- From the task's start, for any number of ticks and whatever is answered: the USB host library is
-- pumped only under the lock; the lock is asked for only while it is not held and given back only while
-- it is; it is not held in a delay, at the top of the loop or when the task exits; and even if each
-- lock takes its whole timeout, no call ends later than the watchdog's 25 s after the last check-in.
pub process_task_entry-orderly :
    (fuel : ℕ)
    → Follows orderly
        (process_task_entry fuel)
        (record { held = false; waited = 0 })
        (λ _ t. t.held ≡ false)
unfolding process_task_entry
process_task_entry-orderly fuel = (
  (tt, omega arith),
  λ _.
      Follows-bind orderly mx_usb_host_init _ _ _ _
        (mx_usb_host_init-orderly (record { held = false; waited = 0 }) (omega arith))
        (λ _ t same.
          rw same (turns-orderly fuel (record { held = false; waited = 0 }) refl (omega arith))),
)
