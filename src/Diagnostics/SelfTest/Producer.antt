-- ===== src/Diagnostics/SelfTest/Producer.antt =====
-- The producer resolves what it receives.
use stm32f407vgt.Base.{ℕ, ◌≡◌, Option, none, some}
use stm32f407vgt.Base.Programs.{Rules}
use stm32f407vgt.Diagnostics.SelfTest.{
  Claim, zero_status, SelfTestRequest, Op, Ans, receive, set_value, set_value_from_isr, raise_irq,
  exit,
}

-- A promise that is due and the value that is due to it.
abbrev pub Due : Type 0
Due = Option (Claim × ℕ)

abbrev pub due : Option SelfTestRequest → Due → Due
due none d = d
due (some r) d = some (r.promise, r.value)

-- Of the request in hand: nothing is received or left while it is due, and only its promise is
-- resolved, with its value and the status 0.
abbrev pub settling : Rules Op Ans Due
settling = record { allowed = allowed; after = after }
  where
    allowed : Op → Due → Type 0
    allowed (receive timeout) d = d ≡ none
    allowed (set_value c value status) d = (d ≡ some (c, value)) × (status ≡ zero_status)
    allowed (set_value_from_isr c value status) d = (d ≡ some (c, value)) × (status ≡ zero_status)
    allowed (raise_irq c value) d = d ≡ some (c, value)
    allowed exit d = d ≡ none
    allowed _ d = Unit {0}

    after : (op : Op) → Ans op → Due → Due
    after (receive timeout) x d = due x d
    after (set_value c value status) x d = none
    after (set_value_from_isr c value status) x d = none
    after (raise_irq c value) x d = none
    after _ x d = d
