-- ===== src/Diagnostics/Watchdog/Starve.antt =====
-- A task that hangs: the watchdog task sees it in every later turn and refreshes nothing.
use Prim.Native.String.{String}
use stm32f407vgt.Base.{
  ℕ, zero, suc, ◌+◌, ◌≤◌, ◌<◌, ◌≡◌, refl, ◌∙◌, inl, inr, Bool, true, false, not, ◌&&◌, Option, none,
  some, List, [], ◌∷◌, length, get_elem?, leb, add32, arith, Bool-cases,
}
use stm32f407vgt.Diagnostics.TaskTrace.{
  AppTaskTrace, Table, find_existing, get_by_index, should_stop,
}
use stm32f407vgt.Diagnostics.TaskTrace.Lookup.{lookup}
use stm32f407vgt.Diagnostics.TaskTrace.Supervision.{Call, perform_all}
use stm32f407vgt.Diagnostics.TaskTrace.Silence.{RunsSince, all_silent, silent_keeps}
use stm32f407vgt.Diagnostics.Watchdog.{
  watchdog_health_timeout_ms, task_name, Turn, is_stale, check_turn, run,
}
use stm32f407vgt.Diagnostics.Watchdog.Health.{
  joined, observed, overdue, is_empty, kick_count, kick_count-append, kick_count-check_turn,
}

-- What task `j`, in slot `k`, looks like to a turn while it hangs since the table was `before`: the
-- table that the read of its slot meets comes from `before` by calls that `j` does not make.
pub record SeesHung (j : String) (k last : ℕ) (before : Table) (turn : Turn) : Type 0 where
  pub calls : List Call
  pub quiet : all_silent j calls ≡ true
  pub read : get_elem? turn.health_reads k ≡ some (perform_all calls before)
  pub late : last + watchdog_health_timeout_ms < turn.now

pub data AllSeeHung (j : String) (k last : ℕ) (before : Table) : List Turn → Type 0 where
  no_more : AllSeeHung j k last before []
  sees :
      {turn : Turn} {turns : List Turn}
      → SeesHung j k last before turn
      → AllSeeHung j k last before turns
      → AllSeeHung j k last before (turn ∷ turns)

get_by_index-in :
    (i : ℕ) (ts : Table) (t : AppTaskTrace) → get_elem? ts i ≡ some t → get_by_index i ts ≡ some t
unfolding get_by_index
get_by_index-in i ts t e = elim (Bool-cases (leb (length ts) i)) [
  | inr inside ↦ rw inside e
  | inl outside ↦ absurd (past ts i (ground arith) e)
]
  where
    past : (xs : Table) (i : ℕ) → length xs ≤ i → get_elem? xs i ≡ some t → ⊥
    past [] i h e = cc
    past (x ∷ xs) zero h e = omega arith
    past (x ∷ xs) (suc i) h e = past xs i (omega arith) e

-- The overdue records are not empty if one that was read is overdue.
overdue-cons :
    (now : ℕ) (t : AppTaskTrace) (rs : List AppTaskTrace)
    → is_empty (overdue now rs) ≡ false
    → is_empty (overdue now (t ∷ rs)) ≡ false
overdue-cons now t rs e = elim (Bool-cases (not t.stopped && is_stale now t)) [
  | inl late ↦ rw late refl
  | inr fine ↦ rw fine e
]

overdue-joined :
    (now : ℕ) (o : Option AppTaskTrace) (rs : List AppTaskTrace)
    → is_empty (overdue now rs) ≡ false
    → is_empty (overdue now (joined o rs)) ≡ false
overdue-joined now none rs e = e
overdue-joined now (some t) rs e = overdue-cons now t rs e

overdue-found :
    (now : ℕ) (t : AppTaskTrace) (reads : List Table) (ts : Table) (i k : ℕ)
    → get_elem? reads k ≡ some ts
    → get_by_index (i + k) ts ≡ some t
    → t.stopped ≡ false
    → is_stale now t ≡ true
    → is_empty (overdue now (observed i reads)) ≡ false
overdue-found now t [] ts i k e at_k runs stale = absurd (cc)
overdue-found now t (u ∷ reads) ts i zero e at_k runs stale =
    let here : u ≡ ts = cc in
    let index : i + 0 ≡ i = omega arith in
    let first : get_by_index i u ≡ some t = rw here (rw index at at_k) in
    rw (first, runs, stale) refl
overdue-found now t (u ∷ reads) ts i (suc k) e at_k runs stale =
    let index : i + suc k ≡ suc i + k = omega arith in
    overdue-joined now (get_by_index i u) (observed (suc i) reads)
      (overdue-found now t reads ts (suc i) k e (rw index at at_k) runs stale)

stale_late :
    (now last : ℕ) (t : AppTaskTrace)
    → t.last_check_in_time_ms ≡ last
    → last + watchdog_health_timeout_ms < now
    → is_stale now t ≡ true
stale_late now last t e late = ground arith

module _ (has_logger : Bool) (j : String) (k last : ℕ) (before : Table)
    (slot : find_existing j before ≡ some k) (runs : RunsSince last (lookup j before)) where
  hung_record :
      (turn : Turn) (seen : SeesHung j k last before turn)
      → (t : AppTaskTrace) × (get_by_index k (perform_all seen.calls before) ≡ some t)
        × (t.stopped ≡ false)
        × (t.last_check_in_time_ms ≡ last)
  hung_record turn seen =
      let (kept, still) = silent_keeps seen.calls j k last before seen.quiet slot runs in
      let ts = perform_all seen.calls before in
      record_at ts (get_elem? ts k) refl (rw kept at still)
    where
      record_at :
          (ts : Table) (o : Option AppTaskTrace)
          → get_elem? ts k ≡ o
          → RunsSince last o
          → (t : AppTaskTrace) × (get_by_index k ts ≡ some t)
            × (t.stopped ≡ false)
            × (t.last_check_in_time_ms ≡ last)
      record_at ts none e h = absurd h
      record_at ts (some t) e h = (t, get_by_index-in k ts t e, h.0, h.1)

  hung-check_turn :
      (tick : ℕ) (turn : Turn)
      → SeesHung j k last before turn
      → kick_count (check_turn has_logger tick turn) ≡ 0
  hung-check_turn tick turn seen =
      let (t, at_k, running, checked) = hung_record turn seen in
      let index : k ≡ 0 + k = omega arith in
      let found =
        overdue-found turn.now t turn.health_reads (perform_all seen.calls before) 0 k seen.read
          (rw index at at_k) running (stale_late turn.now last t checked seen.late) in
      kick_count-check_turn has_logger tick turn ∙ rw found refl

  -- If a running task with a slot has checked in last at `last` and makes no further call of its own,
  -- while all others go on, then the watchdog task never refreshes the hardware watchdog over any
  -- number of turns each of which reads that slot and has a clock more than 25 seconds past `last`.
  pub hung-run :
      (tick : ℕ) (turns : List Turn)
      → AllSeeHung j k last before turns
      → kick_count (run has_logger tick turns) ≡ 0
  unfolding run
  hung-run tick [] no_more = refl
  hung-run tick (turn ∷ turns) (sees seen later) =
      elim (Bool-cases (should_stop task_name turn.top)) [
        | inl stop ↦ rw stop refl
        | inr on ↦ rw on (
            omega (
              arith,
              kick_count-append (check_turn has_logger tick turn)
                  (run has_logger (add32 tick 1) turns),
              hung-check_turn tick turn seen,
              hung-run (add32 tick 1) turns later,
            ))
      ]
