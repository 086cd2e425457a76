-- ===== src/Osal/HostQueue/Tests.antt =====
-- The ring queue at concrete inputs: a ring of two slots that has gone round its end.
use stm32f407vgt.Base.{ℕ, ◌≡◌, refl, ◌⊎◌, inl, Bool, true, false, some, List, [], ◌∷◌, arith}
use stm32f407vgt.Osal.Fifo
use stm32f407vgt.Osal.Fifo.{Access, put, get}
use stm32f407vgt.Osal.HostQueue.{
  HostQueue, Wake, create, finish_send, finish_receive, access, run, wait, wait_timed, send,
  receive,
}
use stm32f407vgt.Osal.HostQueue.Ring.{contents, IsValid}
use stm32f407vgt.Osal.HostQueue.Refine.{create-IsValid}
use stm32f407vgt.Osal.HostQueue.Blocking.{accesses}
use stm32f407vgt.Osal.HostQueue.Signals.{
  Monitor, Run, waiting, signal, receive_tail, send_sleeps, receive_passes, stop, go,
}
use stm32f407vgt.Osal.HostQueue.Wakeups.{IsAwake, idle, no_lost_wakeup}
use stm32f407vgt.Osal.HostQueue.Calls.{GaveUp, is_some, send_refines, receive_refines, send_returns}

abbrev empty_ring : HostQueue ℕ
empty_ring = record { buffer = 0 ∷ 0 ∷ []; capacity = 2; count = 0; head = 0; tail = 0 }

-- 8, then 9, from slot 1 on.
abbrev wrapped : HostQueue ℕ
wrapped = record { buffer = 9 ∷ 8 ∷ []; capacity = 2; count = 2; head = 1; tail = 1 }

-- The ring after another task took the 8 and this one sent 7.
abbrev resent : HostQueue ℕ
resent = record { buffer = 9 ∷ 7 ∷ []; capacity = 2; count = 2; head = 0; tail = 0 }

abbrev freed : List (Wake ℕ)
freed = record { others = get ∷ []; result = 0 } ∷ []

abbrev expired : List (Wake ℕ)
expired = record { others = []; result = 110 } ∷ []

wrapped-IsValid : IsValid wrapped
wrapped-IsValid = omega arith

send-wrapped : send (some wrapped) (some 7) 200 freed ≡ some (true, some resent)
unfolding send wait wait_timed run access finish_send finish_receive
send-wrapped = refl

send_times_out : send (some wrapped) (some 7) 200 expired ≡ some (false, some wrapped)
unfolding send wait wait_timed run access finish_send finish_receive
send_times_out = refl

receive-wrapped :
    receive (some wrapped) true 0 []
    ≡ some (true, some 8, some (record wrapped { count = 1; head = 0 }))
unfolding receive wait finish_receive
receive-wrapped = refl

create-IsValid_case : IsValid empty_ring × (contents empty_ring ≡ []) × (empty_ring.capacity ≡ 2)
unfolding create
create-IsValid_case = create-IsValid 2 4 true true (0 ∷ 0 ∷ []) (omega arith) refl refl

send_refines_example :
    (n : ℕ) × ((true, contents resent)
      ≡ Fifo.send 2 (Fifo.run 2 (contents wrapped) (accesses n freed)) 7)
    × IsValid resent
    × ((◌≡◌ {A = Bool} true true) ⊎ GaveUp 200 n freed)
send_refines_example = send_refines 7 200 freed wrapped-IsValid send-wrapped

receive_refines_example :
    (n : ℕ) × ((some 8, contents (record wrapped { count = 1; head = 0 }))
      ≡ Fifo.receive (Fifo.run 2 (contents wrapped) (accesses n [])))
    × IsValid (record wrapped { count = 1; head = 0 })
    × (true ≡ is_some {A = ℕ} (some 8))
    × ((◌≡◌ {A = Bool} true true) ⊎ GaveUp {A = ℕ} 0 n [])
receive_refines_example = receive_refines 0 [] wrapped-IsValid receive-wrapped

send_returns_case :
    (sent : Bool) × (q' : HostQueue ℕ) × (send (some wrapped) (some 7) 200 expired
      ≡ some (sent, some q'))
send_returns_case = send_returns wrapped 7 200 1 expired (inl (omega arith, omega arith))

-- A send sleeps on the full ring until a receive has made room and signalled.
abbrev served : Monitor ℕ
served = record {
  queue = record wrapped { count = 1; head = 0 };
  not_full = waiting 0 1;
  not_empty = waiting 0 0;
}

sleeps_until_signalled : Run (idle wrapped) served
unfolding receive_tail signal
sleeps_until_signalled = go (send_sleeps refl) (go receive_passes stop)

no_lost_wakeup_example : IsAwake served
no_lost_wakeup_example = no_lost_wakeup sleeps_until_signalled wrapped-IsValid
