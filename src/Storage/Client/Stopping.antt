-- ===== src/Storage/Client/Stopping.antt =====
-- A requester task beside the others: its calls of the task table, between which the other tasks make
-- theirs, and what becomes of a request to stop.
use mathlib.Core.Option
use text.Mathlib.TextPositions.{eq_refl}
use Prim.Native.String.{String}
use stm32f407vgt.Base.{ℕ, suc, ◌≡◌, refl, true, Option, none, some, List, [], ◌∷◌}
use stm32f407vgt.Base.Programs.{World, run}
use stm32f407vgt.Diagnostics.TaskTrace
use stm32f407vgt.Diagnostics.TaskTrace.{AppTaskTrace, Table, marked, wants_stop}
use stm32f407vgt.Diagnostics.TaskTrace.Lookup.{lookup}
use stm32f407vgt.Diagnostics.TaskTrace.Records.{lookup-mark_stopped}
use stm32f407vgt.Diagnostics.TaskTrace.Supervision.{
  Call, starts_loop, perform, perform_all, holds, stop_request_sticks, stopped_sticks,
}
use stm32f407vgt.Storage.Client.{
  Op, Ans, Client, should_stop, loop_start, loop_end, mark_stopped, checkpoint, exit,
}
use stm32f407vgt.Storage.Client.Entry.{turns}

-- A call by the task itself keeps a request to stop.
started-should_stop :
    (name : String) (now : ℕ) (ts : Table)
    → TaskTrace.should_stop name ts ≡ true
    → TaskTrace.should_stop name (TaskTrace.loop_start name now now ts) ≡ true
unfolding perform perform_all
started-should_stop name now ts h = stop_request_sticks (starts_loop name now now ∷ []) name ts h

marked-holds :
    (o : Option AppTaskTrace)
    → wants_stop o ≡ true
    → holds (λ t. t.stopped) (Option.map marked o) ≡ true
marked-holds none h = absurd (cc)
marked-holds (some t) h = refl

mark_stopped-holds :
    (name : String) (ts : Table)
    → TaskTrace.should_stop name ts ≡ true
    → holds (λ t. t.stopped) (lookup name (TaskTrace.mark_stopped name ts)) ≡ true
unfolding TaskTrace.should_stop
mark_stopped-holds name ts h =
    rw (lookup-mark_stopped name name ts, eq_refl name) (marked-holds (lookup name ts) h)

module _ {S : Type 0} (clock : S → ℕ) (others : Op → S → List Call) (world : World Op Ans S) where
  -- The call itself: on the task table, or one that `world` answers.
  abbrev answer : World Op Ans (S × Table)
  answer (loop_start name) (s, ts) = (tt, (s, TaskTrace.loop_start name (clock s) (clock s) ts))
  answer (loop_end name) (s, ts) = (tt, (s, TaskTrace.loop_end name (clock s) (clock s) ts))
  answer (checkpoint name point) (s, ts) =
      (tt, (s, TaskTrace.checkpoint name point (clock s) (clock s) ts))
  answer (should_stop name) (s, ts) = (TaskTrace.should_stop name ts, (s, ts))
  answer (mark_stopped name) (s, ts) = (tt, (s, TaskTrace.mark_stopped name ts))
  answer op (s, ts) = let (x, s1) = world op s in (x, (s1, ts))

  -- `others op s` is what the other tasks call before the call goes through, and the call itself may
  -- take them as long as it likes.
  abbrev pub among_others : World Op Ans (S × Table)
  among_others op (s, ts) = answer op (s, perform_all (others op s) ts)

  -- A task that has been asked to stop leaves its loop on its next turn, whatever the other tasks call
  -- of the task table before each of its own calls: the loop ends, and the task's record is marked
  -- stopped when it has exited.
  pub turns-stops :
      (fuel : ℕ) (name : String) (scenario : Client (Unit {0})) (s : S) (ts : Table)
      → TaskTrace.should_stop name ts ≡ true
      → let (ended, (s1, ts1)) = run among_others (turns (suc fuel) name scenario) (s, ts) in
        (ended ≡ true) × (holds (λ t. t.stopped) (lookup name ts1) ≡ true)
  unfolding turns
  turns-stops fuel name scenario s ts h =
      let h1 = stop_request_sticks (others (loop_start name) s) name ts h in
      let ts1 =
        TaskTrace.loop_start name (clock s) (clock s)
          (perform_all (others (loop_start name) s) ts) in
      let h2 =
        stop_request_sticks (others (should_stop name) s) name ts1
          (started-should_stop name (clock s) (perform_all (others (loop_start name) s) ts) h1) in
      let ts2 = perform_all (others (should_stop name) s) ts1 in
      let h3 = stop_request_sticks (others (mark_stopped name) s) name ts2 h2 in
      let ts3 = TaskTrace.mark_stopped name (perform_all (others (mark_stopped name) s) ts2) in
      rw (h2, run)
        (
          refl,
          stopped_sticks (others exit s) name ts3
              (mark_stopped-holds name (perform_all (others (mark_stopped name) s) ts2) h3),
        )
